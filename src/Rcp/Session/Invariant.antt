-- ===== src/Rcp/Session/Invariant.antt =====
-- Invariants of the caller's dictionaries under `get_cached_rcp_session`.
use bosch_shc_camera_client.Common.{
  ℕ, ◌+◌, ◌≡◌, ◌≢◌, refl, ◌++◌, ◌==◌, [], ◌∷◌, Option, none, some, arith, ltb,
}
use bosch_shc_camera_client.Common.Texts.{Text, same_iff}
use bosch_shc_camera_client.Common.Dict.{
  text_key, get, put, pop, get-put, get-pop, Values, put-Values, pop-Values,
}
use bosch_shc_camera_client.Net.{World, is_network}
use bosch_shc_camera_client.Net.Rules.{
  Keeps, Keeps-pure, Keeps-lift, Keeps-gets, Keeps-bind, Keeps-bind_of, Keeps-if, Keeps-except,
  Keeps-request, Keeps-modify,
}
use bosch_shc_camera_client.Rcp.Wire.{Query, Reply, Caches, Camera, proxy_url}
use bosch_shc_camera_client.Rcp.Session.{
  open_query, ack_query, accepted_id, open_text, acknowledge, rcp_session, remember, reopen,
  use_cached, get_cached_rcp_session, session_ttl,
}
use bosch_shc_camera_client.Rcp.Session.Handshake.{IsUsable, UsableIfAny, rcp_session-Returns}

-- Closed under the queries of a handshake and under the two writes to the cache: removing the hash,
-- and storing a usable session for it.
pub record Stable (host hash : Text) (P : World Query Caches → Type 0) : Type 0 where
  pub ask :
      (w : World Query Caches)
      → P w
      → P (record w { sent = w.sent ++ open_query (proxy_url host hash) ∷ [] })
  pub confirm :
      (id : Text) (w : World Query Caches)
      → P w
      → P (record w { sent = w.sent ++ ack_query (proxy_url host hash) id ∷ [] })
  pub drop :
      (w : World Query Caches)
      → P w
      → P (record w { store = record w.store { sessions = pop hash w.store.sessions } })
  pub add :
      (id : Text) (expires_at : ℕ) (w : World Query Caches)
      → IsUsable id
      → P w
      → P (record w {
        store = record w.store { sessions = put hash (id, expires_at) w.store.sessions };
      })

module _ {P : World Query Caches → Type 0} (host hash : Text) (stable : Stable host hash P) where
  acknowledge-Keeps :
      (camera : Camera) (id : Option Text) → Keeps P (acknowledge camera (proxy_url host hash) id)
  unfolding acknowledge
  acknowledge-Keeps camera none = Keeps-pure none
  acknowledge-Keeps camera (some id) =
      Keeps-bind _ _
        (Keeps-except is_network _ _
          (Keeps-bind _ _
            (Keeps-request camera (ack_query (proxy_url host hash) id) (stable.confirm id))
            (λ _. Keeps-pure tt))
          (Keeps-pure tt))
        (λ _. Keeps-pure (some id))

  open_text-Keeps : (resp : Reply) → Keeps P (open_text resp)
  unfolding open_text
  open_text-Keeps resp =
      Keeps-if (resp.status == 200) _ _
        (Keeps-bind _ _ (Keeps-lift resp.text) (λ t. Keeps-pure (some t))) (Keeps-pure none)

  rcp_session-Keeps : (camera : Camera) → Keeps P (rcp_session camera host hash)
  unfolding rcp_session
  rcp_session-Keeps camera =
      Keeps-bind _ _
        (Keeps-except is_network _ _
          (Keeps-bind _ _ (Keeps-request camera (open_query (proxy_url host hash)) stable.ask)
            open_text-Keeps)
          (Keeps-pure none))
        (λ text. acknowledge-Keeps camera (accepted_id text))

  remember-Keeps : (now : ℕ) (id : Option Text) → UsableIfAny id → Keeps P (remember hash now id)
  unfolding remember
  remember-Keeps now none u = Keeps-pure none
  remember-Keeps now (some id) u =
      Keeps-bind _ _ (Keeps-modify _ (λ w p. stable.add id (now + session_ttl) w u p))
        (λ _. Keeps-pure (some id))

  reopen-Keeps : (camera : Camera) (now : ℕ) → Keeps P (reopen camera host hash now)
  unfolding reopen
  reopen-Keeps camera now =
      Keeps-bind_of _ _ (rcp_session-Keeps camera) (rcp_session-Returns camera host hash)
        (remember-Keeps now)

  use_cached-Keeps :
      (camera : Camera) (now : ℕ) (cached : Option (Text × ℕ))
      → Keeps P (use_cached camera host hash now cached)
  unfolding use_cached
  use_cached-Keeps camera now none = reopen-Keeps camera now
  use_cached-Keeps camera now (some (id, expires_at)) =
      Keeps-if (ltb now expires_at) _ _ (Keeps-pure (some id))
        (Keeps-bind _ _ (Keeps-modify _ stable.drop) (λ _. reopen-Keeps camera now))

  pub get_cached_rcp_session-Keeps :
      (camera : Camera) (now : ℕ) → Keeps P (get_cached_rcp_session camera host hash now)
  unfolding get_cached_rcp_session
  get_cached_rcp_session-Keeps camera now =
      Keeps-bind _ _ (Keeps-gets _) (use_cached-Keeps camera now)

-- Every cached session may be used.
abbrev pub AllUsable : Caches → Type 0
AllUsable c = Values (λ entry. IsUsable entry.0) c.sessions

pub AllUsable-pop :
    (hash : Text) (c : Caches)
    → AllUsable c
    → AllUsable (record c { sessions = pop hash c.sessions })
AllUsable-pop hash c p = pop-Values (λ entry. IsUsable entry.0) hash c.sessions p

pub AllUsable-Stable : (host hash : Text) → Stable host hash (λ w. AllUsable w.store)
AllUsable-Stable host hash = record {
  ask = λ w p. p;
  confirm = λ id w p. p;
  drop = λ w p. AllUsable-pop hash w.store p;
  add = λ id t w u p. put-Values (λ entry. IsUsable entry.0) hash (id, t) w.store.sessions u p;
}

-- What a call for one hash leaves alone: the other sessions, and the counts of failures.
abbrev pub Elsewhere : Text → Caches → Caches → Type 0
Elsewhere hash c c' =
    ((j : Text) → hash ≢ j → get j c'.sessions ≡ get j c.sessions) × (c'.failures ≡ c.failures)

Elsewhere-pop :
    (hash : Text) (c c' : Caches)
    → Elsewhere hash c c'
    → Elsewhere hash c (record c' { sessions = pop hash c'.sessions })
Elsewhere-pop hash c c' (p, q) =
    ((λ j n. ground (arith, get-pop hash j c'.sessions, same_iff hash j, p j n)), q)

pub Elsewhere-Stable :
    (host hash : Text) (c : Caches) → Stable host hash (λ w. Elsewhere hash c w.store)
Elsewhere-Stable host hash c = record {
  ask = λ w p. p;
  confirm = λ id w p. p;
  drop = λ w p. Elsewhere-pop hash c w.store p;
  add = λ id t w u (p, q).
      ((λ j n. ground (arith, get-put hash j (id, t) w.store.sessions, same_iff hash j, p j n)), q);
}

-- If all cached sessions are usable, they are so after a call, and the session of any other hash and the
-- counts of failures are as they were.
pub get_cached_rcp_session-Invariant :
    (camera : Camera) (host hash j : Text) (now : ℕ) (w : World Query Caches)
    → AllUsable w.store
    → hash ≢ j
    → let w' = (get_cached_rcp_session camera host hash now w).1 in
      AllUsable w'.store
      × (get j w'.store.sessions ≡ get j w.store.sessions)
      × (w'.store.failures ≡ w.store.failures)
get_cached_rcp_session-Invariant camera host hash j now w u other =
    let (sessions, failures) =
      (get_cached_rcp_session-Keeps host hash (Elsewhere-Stable host hash w.store) camera now).at w
        ((λ k n. refl), refl) in
    (
      (get_cached_rcp_session-Keeps host hash (AllUsable-Stable host hash) camera now).at w u,
      sessions j other,
      failures,
    )
