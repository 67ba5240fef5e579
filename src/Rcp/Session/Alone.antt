-- ===== src/Rcp/Session/Alone.antt =====
-- rcp.py: the steps of a caller that nobody interrupts are its call.
use bosch_shc_camera_client.Common.{
  ℕ, ◌≡◌, refl, sym, ap, ◌∙◌, Bool, true, false, List, [], ◌∷◌, Option, none, some, arith, ltb,
  if◌then◌else◌, Option-cases, inl, inr,
}
use bosch_shc_camera_client.Common.Texts.{Text}
use bosch_shc_camera_client.Common.Dict.{text_key, Dict, get, pop}
use bosch_shc_camera_client.Net.{World, Result, ok, raise, continue}
use bosch_shc_camera_client.Net.Rules.{outcome_if}
use bosch_shc_camera_client.Rcp.Session.Exclusive.{first_taken}
use bosch_shc_camera_client.Rcp.Wire.{Query, Caches, Camera}
use bosch_shc_camera_client.Rcp.Session.{
  rcp_session, remember, reopen, use_cached, get_cached_rcp_session,
}
use bosch_shc_camera_client.Rcp.Session.Handshake.{rcp_session-store}
use bosch_shc_camera_client.Rcp.Session.Locks.{
  Shared, get_rcp_session_lock, set_held, is_fresh, enter, taken, remembered, release, finish,
}

pop-none : (hash : Text) (d : Dict Text (Text × ℕ)) → get hash d ≡ none → pop hash d ≡ d
unfolding get pop
pop-none hash [] h = refl
pop-none hash ((j, x) ∷ d) h = ground (arith, h, pop-none hash d)

-- The session that a handshake gave.
abbrev pub given : Result (Option Text) → Option Text
given (ok session) = session
given (raise e) = none

remember-remembered :
    (hash : Text) (now : ℕ) (r : Result (Option Text)) (w : World Query Caches)
    → (continue r (remember hash now) w).1.store.sessions
      ≡ remembered hash now (given (continue r (remember hash now) w).0) w.store.sessions
unfolding remember remembered
remember-remembered hash now (ok none) w = refl
remember-remembered hash now (ok (some session_id)) w = refl
remember-remembered hash now (raise e) w = refl

reopen-remembered :
    (camera : Camera) (host hash : Text) (now : ℕ) (w : World Query Caches)
    → (reopen camera host hash now w).1.store.sessions
      ≡ remembered hash now (given (reopen camera host hash now w).0) w.store.sessions
unfolding reopen
reopen-remembered camera host hash now w =
    remember-remembered hash now (rcp_session camera host hash w).0
      (rcp_session camera host hash w).1
    ∙ ap (λ c. remembered hash now (given (reopen camera host hash now w).0) c.sessions)
        (rcp_session-store camera host hash w)

-- The sessions after a caller's steps: unchanged by a fresh session, and otherwise without the old one and
-- with the new one.
abbrev after_steps : Text → ℕ → Option Text → Dict Text (Text × ℕ) → Dict Text (Text × ℕ)
after_steps hash now session d =
    if is_fresh now (get hash d) then d else remembered hash now session (pop hash d)

call_sessions :
    (camera : Camera) (host hash : Text) (now : ℕ) (w : World Query Caches)
    (cached : Option (Text × ℕ))
    → get hash w.store.sessions ≡ cached
    → (use_cached camera host hash now cached w).1.store.sessions
      ≡ after_steps hash now (given (use_cached camera host hash now cached w).0) w.store.sessions
unfolding use_cached is_fresh
call_sessions camera host hash now w none h =
    reopen-remembered camera host hash now w
    ∙ ap (remembered hash now (given (reopen camera host hash now w).0))
        (sym (pop-none hash w.store.sessions h))
    ∙ rw (h) refl
call_sessions camera host hash now w (some (session_id, expires_at)) h =
    outcome_if (λ r. r.1.store.sessions ≡ after_steps hash now (given r.0) w.store.sessions)
      (ltb now expires_at) _ _ w (λ live. rw (h, live) refl)
      (λ over. reopen-remembered camera host hash now _ ∙ rw (h, over) refl)

release-sessions : (o : Option ℕ) (s : Shared) → (release o s).sessions ≡ s.sessions
unfolding set_held
release-sessions none s = refl
release-sessions (some lock) s = refl

finish_none :
    (hash : Text) (session : Option Text) (s : Shared)
    → s.opening ≡ []
    → (finish hash session s).sessions ≡ s.sessions
unfolding finish taken
finish_none hash session s h = rw (finish, h) refl

finish_first :
    (hash : Text) (now : ℕ) (rest : List (Text × ℕ)) (session : Option Text) (s : Shared)
    → s.opening ≡ (hash, now) ∷ rest
    → (finish hash session s).sessions ≡ remembered hash now session s.sessions
unfolding finish
finish_first hash now rest session s h =
    rw (finish, h, first_taken hash hash now rest ((text_key.eqb_iff hash hash).1 refl))
      (release-sessions (get hash s.locks)
        (record s { sessions = remembered hash now session s.sessions; opening = rest }))

lock-keeps :
    (hash : Text) (s : Shared)
    → let t = (get_rcp_session_lock hash s).1 in (t.sessions ≡ s.sessions) × (t.opening ≡ s.opening)
unfolding get_rcp_session_lock
lock-keeps hash s = elim (Option-cases (get hash s.locks)) [
  | inl e ↦ rw (e, get_rcp_session_lock) (refl, refl)
  | inr (lock, e) ↦ rw (e, get_rcp_session_lock) (refl, refl)
]

steps_sessions :
    (hash : Text) (now : ℕ) (session : Option Text) (s : Shared)
    → s.opening ≡ []
    → (get_rcp_session_lock hash s).1.held (get_rcp_session_lock hash s).0 ≡ false
    → (finish hash session (enter hash now s)).sessions ≡ after_steps hash now session s.sessions
unfolding enter
steps_sessions hash now session s h free =
    let kept = lock-keeps hash s in
    rw (enter, free)
      (cases (is_fresh now (get hash t.sessions)) refl ∙ ap (after_steps hash now session) kept.0)
  where
    lock : ℕ
    lock = (get_rcp_session_lock hash s).0

    t : Shared
    t = (get_rcp_session_lock hash s).1

    cases :
        (b : Bool)
        → is_fresh now (get hash t.sessions) ≡ b
        → (finish hash session (
            if b
            then t
            else set_held lock true (record t {
              sessions = pop hash t.sessions;
              opening = (hash, now) ∷ t.opening;
            }))).sessions
          ≡ (if b then t.sessions else remembered hash now session (pop hash t.sessions))
    cases true e = finish_none hash session t ((lock-keeps hash s).1 ∙ h)
    cases false e =
        finish_first hash now t.opening session
          (set_held lock true
            (record t { sessions = pop hash t.sessions; opening = (hash, now) ∷ t.opening }))
          (unfold set_held in refl)

-- A caller that finds its lock free and no handshake under way, and that nobody interrupts, leaves by its
-- steps the sessions that the call leaves, whose handshake gave what the call returned.
pub steps_lem :
    (camera : Camera) (host hash : Text) (now : ℕ) (w : World Query Caches) (s : Shared)
    → s.sessions ≡ w.store.sessions
    → s.opening ≡ []
    → (get_rcp_session_lock hash s).1.held (get_rcp_session_lock hash s).0 ≡ false
    → let called = get_cached_rcp_session camera host hash now w in
      (finish hash (given called.0) (enter hash now s)).sessions ≡ called.1.store.sessions
unfolding get_cached_rcp_session
steps_lem camera host hash now w s agree h free =
    let cached = get hash w.store.sessions in
    steps_sessions hash now (given (use_cached camera host hash now cached w).0) s h free
    ∙ ap (after_steps hash now (given (use_cached camera host hash now cached w).0)) agree
    ∙ sym (call_sessions camera host hash now w cached refl)
