-- ===== src/Rcp/Session/Locks.antt =====
-- rcp.py: get_cached_rcp_session under its locks, by the steps that it makes between two awaits. Steps of
-- several callers may follow one another in any order; all share both dictionaries.
use bosch_shc_camera_client.Common.{
  ℕ, suc, ◌+◌, Bool, true, false, List, [], ◌∷◌, Option, none, some, ltb, ◌==◌, if◌then◌else◌,
}
use bosch_shc_camera_client.Common.Texts.{Text}
use bosch_shc_camera_client.Common.Dict.{text_key, Dict, get, put, pop}
use bosch_shc_camera_client.Rcp.Session.{session_ttl}

-- A lock is a number, in the order in which they are made. `opening` has the hash and the time of each
-- handshake that is under way.
pub record Shared : Type 0 where
  pub sessions : Dict Text (Text × ℕ)
  pub locks : Dict Text ℕ
  pub next_lock : ℕ
  pub held : ℕ → Bool
  pub opening : List (Text × ℕ)

-- `_get_rcp_session_lock`
unfoldable pub get_rcp_session_lock : Text → Shared → ℕ × Shared
get_rcp_session_lock hash s = elim (get hash s.locks) [
  | some lock ↦ (lock, s)
  | none ↦
      (s.next_lock, record s { locks = put hash s.next_lock s.locks; next_lock = suc s.next_lock })
]

-- lock.acquire() and lock.release()
unfoldable pub set_held : ℕ → Bool → Shared → Shared
set_held lock b s = record s { held = λ m. if m == lock then b else s.held m }

-- Whether the dictionary has a session that has not expired.
unfoldable pub is_fresh : ℕ → Option (Text × ℕ) → Bool
is_fresh now none = false
is_fresh now (some (session_id, expires_at)) = ltb now expires_at

-- Up to the handshake: a caller that has to wait for the lock tries again later, one that finds a
-- session returns it, and any other starts a handshake.
unfoldable pub enter : Text → ℕ → Shared → Shared
unfolding get_rcp_session_lock set_held is_fresh
enter hash now s =
    let (lock, t) = get_rcp_session_lock hash s in
    if t.held lock
    then t
    else if is_fresh now (get hash t.sessions)
    then t
    else set_held lock true
        (record t { sessions = pop hash t.sessions; opening = (hash, now) ∷ t.opening })

abbrev pub passed : Text × ℕ → Option (ℕ × List (Text × ℕ)) → Option (ℕ × List (Text × ℕ))
passed other none = none
passed other (some (now, rest)) = some (now, other ∷ rest)

-- The first handshake for the hash: its time, and the others.
unfoldable pub taken : Text → List (Text × ℕ) → Option (ℕ × List (Text × ℕ))
taken hash [] = none
taken hash ((h, now) ∷ opening) =
    let later = taken hash opening in
    if text_key.eqb h hash then some (now, opening) else passed (h, now) later

unfoldable pub remembered : Text → ℕ → Option Text → Dict Text (Text × ℕ) → Dict Text (Text × ℕ)
remembered hash now none sessions = sessions
remembered hash now (some session_id) sessions = put hash (session_id, now + session_ttl) sessions

-- lock.release() of the caller's lock, which stays in the dictionary.
abbrev pub release : Option ℕ → Shared → Shared
release none s = s
release (some lock) s = set_held lock false s

-- A handshake for the hash comes to its end, with a session, with none, or by an exception, and the lock
-- is released.
unfoldable pub finish : Text → Option Text → Shared → Shared
unfolding set_held taken remembered
finish hash session s = elim (taken hash s.opening) [
  | none ↦ s
  | some (now, rest) ↦
      release (get hash s.locks)
        (record s { sessions = remembered hash now session s.sessions; opening = rest })
]

-- `_drop_cached_session` of a read, which takes no lock.
unfoldable pub drop_session : Text → Shared → Shared
drop_session hash s = record s { sessions = pop hash s.sessions }

pub data Step : Shared → Shared → Type 0 where
  enters : (hash : Text) (now : ℕ) (s : Shared) → Step s (enter hash now s)
  finishes : (hash : Text) (session : Option Text) (s : Shared) → Step s (finish hash session s)
  drops : (hash : Text) (s : Shared) → Step s (drop_session hash s)

-- The dictionaries that the callers share may hold sessions, but no locks yet.
pub data Reach : Shared → Type 0 where
  start :
      (sessions : Dict Text (Text × ℕ))
      → Reach (record {
        sessions = sessions;
        locks = [];
        next_lock = 0;
        held = λ lock. false;
        opening = [];
      })
  next : {s t : Shared} → Reach s → Step s t → Reach t
