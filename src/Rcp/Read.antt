-- ===== src/Rcp/Read.antt =====
-- `rcp_read`: one value through the proxy, and when it drops the cached session.
pub mod Cache
use mathlib.Core.List.{reverse}
use bosch_shc_camera_client.Common.{
  ℕ, zero, suc, Bool, true, false, ◌||◌, List, [], ◌∷◌, ◌++◌, Option, none, some, map, String, ◌==◌,
  if◌then◌else◌, is_empty,
}
use bosch_shc_camera_client.Common.Texts.{Text, Bytes, codes, same, split, rstrip, lower}
use bosch_shc_camera_client.Common.Dict.{text_key, Dict, pop}
use bosch_shc_camera_client.Common.Decimal.{decimal}
use bosch_shc_camera_client.Net.{
  Result, ok, raise, value_error, is_network_or_value, ◌>>=◌, ◌>>◌, pure, lift, modify, request,
  except,
}
use bosch_shc_camera_client.Rcp.Markup.{search_err, search_payload, from_hex}
use bosch_shc_camera_client.Rcp.Wire.{Query, Reply, Caches, Camera, Rcp}

-- The hash of a base URL that ends in /{hash}/rcp.xml.
abbrev pub last_but_one : List Text → Option Text
last_but_one [] = none
last_but_one (last ∷ []) = none
last_but_one (last ∷ hash ∷ rest) = if same last (codes "rcp.xml") then some hash else none

unfoldable pub proxy_hash_of : Text → Option Text
proxy_hash_of base = last_but_one (reverse (split b'/' (rstrip (λ c. c == b'/') base)))

-- `None` for the cache is `false`.
unfoldable pub drop_cached_session : Bool → Text → Caches → Caches
unfolding proxy_hash_of
drop_cached_session false base c = c
drop_cached_session true base c = elim (proxy_hash_of base) [
  | none ↦ c
  | some hash ↦ record c { sessions = pop hash c.sessions }
]

-- err_code.lower() == "0x0c0d"
unfoldable pub is_session_closed : Bytes → Bool
unfolding lower
is_session_closed code = same (map lower code) (codes "0x0c0d")

unfoldable pub decode_hex : Bytes → Result (Option Bytes)
decode_hex g = elim (from_hex g) [ none ↦ raise value_error | some bs ↦ ok (some bs) ]

-- The bytes of an answer that is no XML.
plain_bytes : Bytes → Option Bytes
plain_bytes [] = none
plain_bytes (c ∷ s) = if c == b'<' then none else some (c ∷ s)

-- The payload of an answer that holds no error.
unfoldable pub payload_of : Bytes → Result (Option Bytes)
unfolding decode_hex plain_bytes search_payload
payload_of raw = elim (search_payload raw) [ some g ↦ decode_hex g | none ↦ ok (plain_bytes raw) ]

abbrev pub num_param : ℕ → Dict String Text
num_param zero = []
num_param (suc n) = ("num", decimal (suc n)) ∷ []

unfoldable pub read_query : Text → Text → Text → Text → ℕ → Query
read_query base command session_id type num = record {
  url = base;
  params =
      ("command", command)
      ∷ ("direction", codes "READ")
      ∷ ("type", type)
      ∷ ("sessionid", session_id)
      ∷ num_param num;
}

-- An answer with status 200.
read_body : Bool → Text → Bytes → Rcp (Option Bytes)
read_body has_cache base raw = elim (search_err raw) [
  | some code ↦ (do
    modify (λ c. if is_session_closed code then drop_cached_session has_cache base c else c)
    pure none)
  | none ↦ lift (payload_of raw)
]

read_reply : Bool → Text → Reply → Rcp (Option Bytes)
unfolding read_body
read_reply has_cache base resp =
    if resp.status == 200 then (do raw ← lift resp.body; read_body has_cache base raw) else (do
      modify (λ c.
          if resp.status == 401 || resp.status == 403
          then drop_cached_session has_cache base c
          else c)
      pure none)

unfoldable pub rcp_read : Camera → Bool → Text → Text → Text → Text → ℕ → Rcp (Option Bytes)
unfolding read_reply read_query
rcp_read camera has_cache base command session_id type num =
    except is_network_or_value
      (do
        resp ← request camera (read_query base command session_id type num)
        read_reply has_cache base resp)
      (pure none)
