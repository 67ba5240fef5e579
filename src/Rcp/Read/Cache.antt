-- ===== src/Rcp/Read/Cache.antt =====
-- What `rcp_read` does to the dictionaries, and how its exceptions end.
use bosch_shc_camera_client.Common.{
  ℕ, ◌≡◌, Bool, false, ◌||◌, [], ◌∷◌, ◌++◌, Option, none, some, arith, ◌==◌, if◌then◌else◌,
}
use bosch_shc_camera_client.Common.Texts.{Text, Bytes}
use bosch_shc_camera_client.Common.Dict.{text_key}
use bosch_shc_camera_client.Net.{World, Result, ok, raise, Fault, other_error}
use bosch_shc_camera_client.Rcp.Markup.{search_err}
use bosch_shc_camera_client.Rcp.Wire.{Query, Reply, Caches, Camera}
use bosch_shc_camera_client.Rcp.Read.{
  read_query, rcp_read, drop_cached_session, is_session_closed, payload_of,
}

-- Whether an answer tells that the session is dead: the token is refused, or the RCP error says so.
unfoldable pub is_dead : Result Reply → Bool
is_dead (raise e) = false
is_dead (ok resp) =
    if resp.status == 200 then dead_body resp.body else (resp.status == 401 || resp.status == 403)
  where
    dead_error : Option Bytes → Bool
    dead_error none = false
    dead_error (some code) = is_session_closed code

    dead_body : Result Bytes → Bool
    dead_body (raise e) = false
    dead_body (ok raw) = dead_error (search_err raw)

-- One read sends one query, and drops the cached session of its URL if the answer has status 401 or
-- 403 or is the RCP error 0x0c0d; otherwise the dictionaries stay as they are.
pub rcp_read-is_dead :
    (camera : Camera) (has_cache : Bool) (base command session_id type : Text) (num : ℕ)
    (w : World Query Caches)
    → let q = read_query base command session_id type num in
      (rcp_read camera has_cache base command session_id type num w).1 ≡ record {
        sent = w.sent ++ q ∷ [];
        store =
            if is_dead (camera w.sent q)
            then drop_cached_session has_cache base w.store
            else w.store;
      }
unfolding rcp_read is_dead
rcp_read-is_dead camera has_cache base command session_id type num w = ground arith

-- An exception that leaves `rcp_read` is neither a timeout nor a client error nor a ValueError.
pub rcp_read-raises :
    (camera : Camera) (has_cache : Bool) (base command session_id type : Text) (num : ℕ)
    (w : World Query Caches) (e : Fault)
    → (rcp_read camera has_cache base command session_id type num w).0 ≡ raise e
    → e ≡ other_error
unfolding rcp_read payload_of
rcp_read-raises camera has_cache base command session_id type num w e h = ground arith
