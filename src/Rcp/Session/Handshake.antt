-- ===== src/Rcp/Session/Handshake.antt =====
-- What `rcp_session` sends and returns.
use mathlib.Core.Path.{subst}
use bosch_shc_camera_client.Common.{◌≡◌, ◌≢◌, refl, false, [], ◌∷◌, ◌++◌, Option, none, some, arith}
use bosch_shc_camera_client.Common.Texts.{Text, same, same_iff}
use bosch_shc_camera_client.Net.{World, Result, ok, raise}
use bosch_shc_camera_client.Net.Rules.{
  Returns, Returns-pure, Returns-bind, Returns-Anything, Satisfies,
}
use bosch_shc_camera_client.Rcp.Markup.{search_sessionid, is_nonspace_str}
use bosch_shc_camera_client.Rcp.Markup.Search.{IsGroup, search_sessionid-IsGroup}
use bosch_shc_camera_client.Rcp.Wire.{Query, Caches, Camera, proxy_url}
use bosch_shc_camera_client.Rcp.Session.{
  open_query, ack_query, accepted_id, acknowledge, rcp_session, invalid_session,
}

-- The queries of a handshake, by its outcome: the opening one, and the acknowledgement of the id
-- that is returned.
abbrev pub Handshake :
    Text → World Query Caches → Result (Option Text) × World Query Caches → Type 0
Handshake base w (ok none, w') = w' ≡ record w { sent = w.sent ++ open_query base ∷ [] }
Handshake base w (ok (some id), w') =
    w' ≡ record w { sent = (w.sent ++ open_query base ∷ []) ++ ack_query base id ∷ [] }
Handshake base w (raise e, w') = w'.store ≡ w.store

-- A handshake that returns no session has sent the opening query and nothing else, one that returns a
-- session has also acknowledged that session and nothing else, and in no case do the dictionaries
-- change.
pub rcp_session-Handshake :
    (camera : Camera) (host hash : Text) (w : World Query Caches)
    → Handshake (proxy_url host hash) w (rcp_session camera host hash w)
unfolding rcp_session
rcp_session-Handshake camera host hash w = ground arith

Handshake-store :
    (base : Text) (w : World Query Caches) (r : Result (Option Text)) (w' : World Query Caches)
    → Handshake base w (r, w')
    → w'.store ≡ w.store
Handshake-store base w (ok none) w' h = rw h
Handshake-store base w (ok (some id)) w' h = rw h
Handshake-store base w (raise e) w' h = h

-- A handshake does not touch the dictionaries.
pub rcp_session-store :
    (camera : Camera) (host hash : Text) (w : World Query Caches)
    → (rcp_session camera host hash w).1.store ≡ w.store
rcp_session-store camera host hash w =
    Handshake-store (proxy_url host hash) w _ _ (rcp_session-Handshake camera host hash w)

-- What may be used as a session id: a word without blanks, and not the refusal of the proxy.
abbrev pub IsUsable : Text → Type 0
IsUsable id = (id ≢ invalid_session) × IsGroup is_nonspace_str id

abbrev pub UsableIfAny : Option Text → Type 0
UsableIfAny none = Unit
UsableIfAny (some id) = IsUsable id

accepted_id-IsUsable : (text : Option Text) (id : Text) → accepted_id text ≡ some id → IsUsable id
unfolding accepted_id
accepted_id-IsUsable none id h = cc
accepted_id-IsUsable (some text) id h =
    let found : search_sessionid text ≡ some id = ground arith in
    let differs : same id invalid_session ≡ false = ground (arith, found) in
    (λ q. cc (differs, (same_iff id invalid_session).1 q), search_sessionid-IsGroup text id found)

UsableIfAny-of : (id : Option Text) → ((i : Text) → id ≡ some i → IsUsable i) → UsableIfAny id
UsableIfAny-of none h = tt
UsableIfAny-of (some id) h = h id refl

acknowledge-Returns :
    (camera : Camera) (base : Text) (id : Option Text)
    → UsableIfAny id
    → Returns UsableIfAny (acknowledge camera base id)
unfolding acknowledge
acknowledge-Returns camera base none u = Returns-pure none tt
acknowledge-Returns camera base (some id) u =
    Returns-bind _ _ (Returns-Anything _) (λ _ _. Returns-pure (some id) u)

-- An id that `rcp_session` returns is usable.
pub rcp_session-Returns :
    (camera : Camera) (host hash : Text) → Returns UsableIfAny (rcp_session camera host hash)
unfolding rcp_session
rcp_session-Returns camera host hash = Returns-bind _ _ (Returns-Anything _) (λ text _.
    acknowledge-Returns camera (proxy_url host hash) (accepted_id text)
      (UsableIfAny-of (accepted_id text) (accepted_id-IsUsable text)))

-- A session id that `rcp_session` returns is a word without blanks and not the proxy's refusal.
pub rcp_session-IsUsable :
    (camera : Camera) (host hash id : Text) (w w' : World Query Caches)
    → rcp_session camera host hash w ≡ (ok (some id), w')
    → IsUsable id
rcp_session-IsUsable camera host hash id w w' e =
    subst (λ r. Satisfies UsableIfAny r.0) e ((rcp_session-Returns camera host hash).at w)
