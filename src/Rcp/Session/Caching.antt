-- ===== src/Rcp/Session/Caching.antt =====
-- What `get_cached_rcp_session` returns, sends and leaves in the cache.
use bosch_shc_camera_client.Common.{
  ltb→lt, ℕ, ◌+◌, ◌<◌, ◌≡◌, refl, sym, ap, ◌∙◌, ltb, Option, none, some, arith,
}
use bosch_shc_camera_client.Common.Texts.{Text}
use bosch_shc_camera_client.Common.Dict.{text_key, get, put, get-put_self, get-pop_self}
use bosch_shc_camera_client.Net.{World, Result, ok, raise, continue}
use bosch_shc_camera_client.Net.Rules.{outcome_if}
use bosch_shc_camera_client.Rcp.Wire.{Query, Caches, Camera}
use bosch_shc_camera_client.Rcp.Session.{
  rcp_session, remember, reopen, use_cached, get_cached_rcp_session, session_ttl,
}
use bosch_shc_camera_client.Rcp.Session.Handshake.{rcp_session-store}

-- If the cache holds a session for the hash that has not expired, it is returned, no query is sent and
-- nothing changes.
pub get_cached_rcp_session_fresh :
    (camera : Camera) (host hash id : Text) (now expires_at : ℕ) (w : World Query Caches)
    → get hash w.store.sessions ≡ some (id, expires_at)
    → now < expires_at
    → get_cached_rcp_session camera host hash now w ≡ (ok (some id), w)
unfolding get_cached_rcp_session
get_cached_rcp_session_fresh camera host hash id now expires_at w h lt = ground arith

-- The entry of the hash afterwards, by the outcome: none without a session, and otherwise the id
-- that was returned, not yet expired.
abbrev pub Cached : Text → ℕ → Result (Option Text) × World Query Caches → Type 0
Cached hash now (ok none, w) = get hash w.store.sessions ≡ none
Cached hash now (ok (some id), w) =
    (expires_at : ℕ) × (get hash w.store.sessions ≡ some (id, expires_at)) × (now < expires_at)
Cached hash now (raise e, w) = Unit

remember-Cached :
    (hash : Text) (now : ℕ) (r : Result (Option Text)) (w : World Query Caches)
    → get hash w.store.sessions ≡ none
    → Cached hash now (continue r (remember hash now) w)
unfolding remember
remember-Cached hash now (ok none) w h = h
remember-Cached hash now (ok (some id)) w h =
    (now + session_ttl, get-put_self hash (id, now + session_ttl) w.store.sessions, omega arith)
remember-Cached hash now (raise e) w h = tt

reopen-Cached :
    (camera : Camera) (host hash : Text) (now : ℕ) (w : World Query Caches)
    → get hash w.store.sessions ≡ none
    → Cached hash now (reopen camera host hash now w)
unfolding reopen
reopen-Cached camera host hash now w h =
    remember-Cached hash now _ _
      (ap (λ c. get hash c.sessions) (rcp_session-store camera host hash w) ∙ h)

use_cached-Cached :
    (camera : Camera) (host hash : Text) (now : ℕ) (w : World Query Caches)
    (cached : Option (Text × ℕ))
    → get hash w.store.sessions ≡ cached
    → Cached hash now (use_cached camera host hash now cached w)
unfolding use_cached
use_cached-Cached camera host hash now w none h = reopen-Cached camera host hash now w h
use_cached-Cached camera host hash now w (some (id, expires_at)) h =
    outcome_if (Cached hash now) (ltb now expires_at) _ _ w
      (λ live. (expires_at, h, ltb→lt now expires_at live))
      (λ over. reopen-Cached camera host hash now _ (get-pop_self hash w.store.sessions))

-- After a call the cache holds, for the hash, the session that was returned with an expiry in the
-- future, or nothing if none was returned.
pub get_cached_rcp_session-Cached :
    (camera : Camera) (host hash : Text) (now : ℕ) (w : World Query Caches)
    → Cached hash now (get_cached_rcp_session camera host hash now w)
unfolding get_cached_rcp_session
get_cached_rcp_session-Cached camera host hash now w =
    use_cached-Cached camera host hash now w _ refl

-- The session that a call without a cached one returns is stored for five minutes.
remember-entry :
    (hash id : Text) (now : ℕ) (r : Result (Option Text)) (w w' : World Query Caches)
    → continue r (remember hash now) w ≡ (ok (some id), w')
    → get hash w'.store.sessions ≡ some (id, now + session_ttl)
unfolding remember
remember-entry hash id now (ok none) w w' e = cc
remember-entry hash id now (ok (some new_id)) w w' e =
    let opened : new_id ≡ id = ground (arith, e) in
    let store : record w.store { sessions = put hash (new_id, now + session_ttl) w.store.sessions }
        ≡ w'.store =
      ap (λ r. r.1.store) e in
    ap (λ (c : Caches). get hash c.sessions) (sym store)
    ∙ get-put_self hash (new_id, now + session_ttl) w.store.sessions
    ∙ ap (λ i. some (i, now + session_ttl)) opened
remember-entry hash id now (raise f) w w' e = cc

-- Once a call without a cached session has opened one, every call for the hash within the five minutes
-- that follow returns the same session and sends nothing, whoever would answer.
pub get_cached_rcp_session_again :
    (camera other : Camera) (host hash id : Text) (now later : ℕ) (w w' : World Query Caches)
    → get hash w.store.sessions ≡ none
    → get_cached_rcp_session camera host hash now w ≡ (ok (some id), w')
    → later < now + session_ttl
    → get_cached_rcp_session other host hash later w' ≡ (ok (some id), w')
unfolding get_cached_rcp_session use_cached reopen
get_cached_rcp_session_again camera other host hash id now later w w' empty e soon =
    get_cached_rcp_session_fresh other host hash id later (now + session_ttl) w'
      (remember-entry hash id now (rcp_session camera host hash w).0
        (rcp_session camera host hash w).1 w'
        (ap (λ c. use_cached camera host hash now c w) (sym empty) ∙ e))
      soon
