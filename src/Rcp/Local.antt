-- ===== src/Rcp/Local.antt =====
-- Reading from a camera in the local network: `rcp_local_read` and `rcp_local_read_privacy`.
pub mod Answers
use bosch_shc_camera_client.Common.{
  ℕ, Bool, not, List, [], ◌∷◌, ◌++◌, Option, none, some, ◌==◌, if◌then◌else◌,
}
use bosch_shc_camera_client.Common.Texts.{Text, Bytes, codes}
use bosch_shc_camera_client.Net.{Result, ok, is_network, ◌>>=◌, pure, lift, request, except}
use bosch_shc_camera_client.Rcp.Markup.{search_err}
use bosch_shc_camera_client.Rcp.Wire.{Query, Reply, Camera, Rcp}
use bosch_shc_camera_client.Rcp.Read.{payload_of, num_param}

unfoldable pub local_query : Text → Text → Text → ℕ → Query
local_query cam_ip command type num = record {
  url = codes "http://" ++ cam_ip ++ codes "/rcp.xml";
  params = ("command", command) ∷ ("direction", codes "READ") ∷ ("type", type) ∷ num_param num;
}

-- What the body of an answer with status 200 gives.
unfoldable pub local_payload : Bytes → Result (Option Bytes)
unfolding payload_of
local_payload raw = elim (search_err raw) [ some code ↦ ok none | none ↦ payload_of raw ]

unfoldable pub local_reply : Reply → Rcp (Option Bytes)
unfolding local_payload
local_reply resp =
    if resp.status == 200 then (do raw ← lift resp.body; lift (local_payload raw)) else pure none

unfoldable pub rcp_local_read : Camera → Text → Text → Text → ℕ → Rcp (Option Bytes)
unfolding local_query local_reply
rcp_local_read camera cam_ip command type num =
    except is_network
      (do resp ← request camera (local_query cam_ip command type num); local_reply resp) (pure none)

-- `if raw and len(raw) >= 2: return bool(raw[1])`
unfoldable pub privacy_of : Option Bytes → Option Bool
privacy_of (some (a ∷ b ∷ s)) = some (not (b == 0))
privacy_of _ = none

unfoldable pub rcp_local_read_privacy : Camera → Text → Rcp (Option Bool)
unfolding privacy_of
rcp_local_read_privacy camera cam_ip = do
  raw ← rcp_local_read camera cam_ip (codes "0x0d00") (codes "P_OCTET") 0
  pure (privacy_of raw)
