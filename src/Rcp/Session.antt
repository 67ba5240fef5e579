-- ===== src/Rcp/Session.antt =====
-- Sessions of the cloud proxy: `rcp_session` and `get_cached_rcp_session`. The clock is an argument.
pub mod Handshake
pub mod Caching
pub mod Invariant
pub mod Locks
pub mod Exclusive
pub mod Alone
use bosch_shc_camera_client.Common.{
  ℕ, ◌+◌, Bool, true, false, not, List, [], ◌∷◌, Option, none, some, ltb, ◌==◌, if◌then◌else◌,
}
use bosch_shc_camera_client.Common.Texts.{Text, codes, same}
use bosch_shc_camera_client.Common.Dict.{text_key, get, put, pop}
use bosch_shc_camera_client.Net.{
  World, is_network, ◌>>=◌, ◌>>◌, pure, lift, gets, modify, request, except,
}
use bosch_shc_camera_client.Rcp.Markup.{search_sessionid}
use bosch_shc_camera_client.Rcp.Wire.{Query, Reply, Caches, Camera, Rcp, proxy_url}

abbrev pub init_payload : Text
init_payload = codes "0x0102004000000000040000000000000000010000000000000001000000000000"

abbrev pub invalid_session : Text
invalid_session = codes "0x00000000"

-- 300.0 seconds
abbrev pub session_ttl : ℕ
session_ttl = 300000

unfoldable pub open_query : Text → Query
open_query base = record {
  url = base;
  params =
      ("command", codes "0xff0c")
      ∷ ("direction", codes "WRITE")
      ∷ ("type", codes "P_OCTET")
      ∷ ("payload", init_payload)
      ∷ [];
}

unfoldable pub ack_query : Text → Text → Query
ack_query base session_id = record {
  url = base;
  params =
      ("command", codes "0xff0d")
      ∷ ("direction", codes "WRITE")
      ∷ ("type", codes "P_OCTET")
      ∷ ("sessionid", session_id)
      ∷ [];
}

-- The text of the first answer, if its status is 200.
pub open_text : Reply → Rcp (Option Text)
open_text resp =
    if resp.status == 200 then (do text ← lift resp.text; pure (some text)) else pure none

-- The session id of the first answer, unless it is missing or the proxy's refusal.
unfoldable pub accepted_id : Option Text → Option Text
accepted_id none = none
accepted_id (some text) = elim (search_sessionid text) [
  | none ↦ none
  | some session_id ↦ if same session_id invalid_session then none else some session_id
]

-- The second step; its outcome is only logged.
pub acknowledge : Camera → Text → Option Text → Rcp (Option Text)
unfolding ack_query
acknowledge camera base none = pure none
acknowledge camera base (some session_id) = do
  except is_network (do request camera (ack_query base session_id); pure tt) (pure tt)
  pure (some session_id)

unfoldable pub rcp_session : Camera → Text → Text → Rcp (Option Text)
unfolding open_text accepted_id acknowledge open_query proxy_url
rcp_session camera host hash = do
  let base = proxy_url host hash
  text ← except is_network (do resp ← request camera (open_query base); open_text resp) (pure none)
  acknowledge camera base (accepted_id text)

-- Store what was opened; an id is never empty here, so only None is falsy.
pub remember : Text → ℕ → Option Text → Rcp (Option Text)
remember hash now none = pure none
remember hash now (some session_id) = do
  modify (λ c. record c { sessions = put hash (session_id, now + session_ttl) c.sessions })
  pure (some session_id)

-- A session is missing or has expired: open one.
reopen : Camera → Text → Text → ℕ → Rcp (Option Text)
unfolding remember
reopen camera host hash now = do
  new_session_id ← rcp_session camera host hash
  remember hash now new_session_id

use_cached : Camera → Text → Text → ℕ → Option (Text × ℕ) → Rcp (Option Text)
unfolding reopen
use_cached camera host hash now none = reopen camera host hash now
use_cached camera host hash now (some (session_id, expires_at)) =
    if ltb now expires_at
    then pure (some session_id)
    else (do modify (λ c. record c { sessions = pop hash c.sessions }); reopen camera host hash now)

unfoldable pub get_cached_rcp_session : Camera → Text → Text → ℕ → Rcp (Option Text)
unfolding use_cached
get_cached_rcp_session camera host hash now = do
  cached ← gets (λ c. get hash c.sessions)
  use_cached camera host hash now cached
