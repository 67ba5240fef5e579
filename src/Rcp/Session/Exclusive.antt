-- ===== src/Rcp/Session/Exclusive.antt =====
-- rcp.py: under the locks, no two handshakes for one hash are under way at the same time.
use bosch_shc_camera_client.Common.{
  ℕ, ◌+◌, ◌≤◌, ◌<◌, ◌≡◌, refl, sym, ap, ◌∙◌, Bool, true, false, List, [], ◌∷◌, Option, none, some,
  arith, ◌==◌, if◌then◌else◌, inl, inr, not, Option-cases, Bool-cases,
}
use bosch_shc_camera_client.Common.Texts.{Text}
use bosch_shc_camera_client.Common.Dict.{text_key, Dict, get, pop, get-put}
use bosch_shc_camera_client.Rcp.Session.Locks.{
  Shared, get_rcp_session_lock, set_held, is_fresh, enter, passed, taken, remembered, finish,
  drop_session, Step, enters, finishes, drops, Reach, start, next,
}

-- How many handshakes for the hash are under way.
unfoldable pub count : Text → List (Text × ℕ) → ℕ
count hash [] = 0
count hash ((h, now) ∷ opening) = (if text_key.eqb h hash then 1 else 0) + count hash opening

-- One handshake for a hash whose lock is held, none for another.
abbrev pub allowed : Option ℕ → (ℕ → Bool) → ℕ
allowed none held = 0
allowed (some lock) held = if held lock then 1 else 0

record Inv (s : Shared) : Type 0 where
  guarded : (hash : Text) → count hash s.opening ≤ allowed (get hash s.locks) s.held
  below : (hash : Text) (lock : ℕ) → get hash s.locks ≡ some lock → lock < s.next_lock
  apart : (g h : Text) (lock : ℕ) → get g s.locks ≡ some lock → get h s.locks ≡ some lock → g ≡ h

get_rcp_session_lock-Inv : (hash : Text) (s : Shared) → Inv s → Inv (get_rcp_session_lock hash s).1
unfolding get_rcp_session_lock
get_rcp_session_lock-Inv hash s v = elim (Option-cases (get hash s.locks)) [
  | inr (lock, e) ↦ rw (e, get_rcp_session_lock) v
  | inl e ↦
      rw (e, get_rcp_session_lock)
        (record {
          guarded = λ h.
              ground (
                arith,
                get-put hash h s.next_lock s.locks,
                text_key.eqb_iff hash h,
                v.guarded h,
                e,
              );
          below = λ h lock g. ground (arith, get-put hash h s.next_lock s.locks, v.below h lock);
          apart = λ g h lock eg eh. ground (
            arith,
            get-put hash g s.next_lock s.locks,
            get-put hash h s.next_lock s.locks,
            text_key.eqb_iff hash g,
            text_key.eqb_iff hash h,
            v.below g lock,
            v.below h lock,
            v.apart g h lock,
            eg,
            eh,
          );
        })
]

get_rcp_session_lock-own :
    (hash : Text) (s : Shared)
    → get hash (get_rcp_session_lock hash s).1.locks ≡ some (get_rcp_session_lock hash s).0
unfolding get_rcp_session_lock
get_rcp_session_lock-own hash s =
    ground (arith, get-put hash hash s.next_lock s.locks, text_key.eqb_iff hash hash)

-- Whether the lock of another hash is another lock.
other_lock :
    (s : Shared) (v : Inv s) (g h : Text) (lock m : ℕ)
    → get g s.locks ≡ some lock
    → get h s.locks ≡ some m
    → text_key.eqb g h ≡ false
    → (m == lock) ≡ false
other_lock s v g h lock m eg eh ne =
    ground (arith, v.apart g h lock, eg, eh, ne, text_key.eqb_iff g h)

-- The state when the lock of a hash is taken or released, and its handshake begins or ends.
pub record Moved (hash : Text) (lock : ℕ) (b : Bool) (s t : Shared) : Type 0 where
  pub same_locks : t.locks ≡ s.locks
  pub same_next : t.next_lock ≡ s.next_lock
  pub held_now : (m : ℕ) → t.held m ≡ (if m == lock then b else s.held m)
  pub counted :
      (h : Text)
      → count h t.opening + (if b then 0 else if text_key.eqb hash h then 1 else 0)
        ≡ count h s.opening + (if b then if text_key.eqb hash h then 1 else 0 else 0)

guarded_after :
    (hash : Text) (lock : ℕ) (b : Bool) (s t : Shared)
    → get hash s.locks ≡ some lock
    → s.held lock ≡ not b
    → Moved hash lock b s t
    → Inv s
    → (h : Text) → count h t.opening ≤ allowed (get h s.locks) t.held
guarded_after hash lock b s t own before m v h = elim (Option-cases (get h s.locks)) [
  | inl e ↦
      let apart : text_key.eqb hash h ≡ false = ground (arith, e, own, text_key.eqb_iff hash h) in
      ground (arith, e, apart, v.guarded h, m.counted h)
  | inr (k, e) ↦ (elim (Bool-cases (text_key.eqb hash h)) [
    | inl here ↦
        let equal : k ≡ lock = ground (arith, e, own, here, text_key.eqb_iff hash h) in
        ground (arith, e, here, equal, before, v.guarded h, m.counted h, m.held_now k)
    | inr there ↦
        let apart = other_lock s v hash h lock k own e there in
        ground (arith, e, there, apart, v.guarded h, m.counted h, m.held_now k)
  ])
]

Moved-Inv :
    (hash : Text) (lock : ℕ) (b : Bool) (s t : Shared)
    → get hash s.locks ≡ some lock
    → s.held lock ≡ not b
    → Moved hash lock b s t
    → Inv s
    → Inv t
Moved-Inv hash lock b s t own before m v = record {
  guarded = λ h. rw (m.same_locks) (guarded_after hash lock b s t own before m v h);
  below = λ h k e. rw (m.same_next) (v.below h k (sym (ap (get h) m.same_locks) ∙ e));
  apart = λ g h k eg eh.
      v.apart g h k (sym (ap (get g) m.same_locks) ∙ eg) (sym (ap (get h) m.same_locks) ∙ eh);
}

abbrev rest_of : Option (ℕ × List (Text × ℕ)) → List (Text × ℕ)
rest_of none = []
rest_of (some x) = x.1

pub first_taken :
    (hash j : Text) (t : ℕ) (opening : List (Text × ℕ))
    → text_key.eqb j hash ≡ true
    → taken hash ((j, t) ∷ opening) ≡ some (t, opening)
unfolding taken
first_taken hash j t opening h = rw (h) refl

later_taken :
    (hash j : Text) (t : ℕ) (opening : List (Text × ℕ))
    → text_key.eqb j hash ≡ false
    → taken hash ((j, t) ∷ opening) ≡ passed (j, t) (taken hash opening)
unfolding taken
later_taken hash j t opening h = rw (h) refl

count-passed :
    (hash h j : Text) (t now : ℕ) (o : Option (ℕ × List (Text × ℕ)))
    (opening rest : List (Text × ℕ))
    → ((now' : ℕ) (rest' : List (Text × ℕ))
        → o ≡ some (now', rest')
        → count h opening ≡ (if text_key.eqb hash h then 1 else 0) + count h rest')
    → passed (j, t) o ≡ some (now, rest)
    → count h ((j, t) ∷ opening) ≡ (if text_key.eqb hash h then 1 else 0) + count h rest
unfolding count
count-passed hash h j t now none opening rest ih e = grind arith
count-passed hash h j t now (some (now', rest')) opening rest ih e =
    let found = ap rest_of e in rw (sym found) (omega (arith, ih now' rest' refl))

taken-count :
    (hash h : Text) (opening rest : List (Text × ℕ)) (now : ℕ)
    → taken hash opening ≡ some (now, rest)
    → count h opening ≡ (if text_key.eqb hash h then 1 else 0) + count h rest
unfolding count taken
taken-count hash h [] rest now e = grind arith
taken-count hash h ((j, t) ∷ opening) rest now e = elim (Bool-cases (text_key.eqb j hash)) [
  | inl here ↦
      let found = ap rest_of (sym (first_taken hash j t opening here) ∙ e) in
      rw (sym found) (ground (arith, here, text_key.eqb_iff j hash))
  | inr there ↦
      count-passed hash h j t now (taken hash opening) opening rest
        (λ now' rest' f. taken-count hash h opening rest' now' f)
        (sym (later_taken hash j t opening there) ∙ e)
]

-- A change of the sessions alone.
Inv-sessions : (s : Shared) (d : Dict Text (Text × ℕ)) → Inv s → Inv (record s { sessions = d })
Inv-sessions s d v = record { guarded = v.guarded; below = v.below; apart = v.apart }

-- The handshakes of a hash are none where its lock is not held, and its lock is held where there is one.
lock_is_held :
    (hash : Text) (lock : ℕ) (s : Shared)
    → Inv s
    → get hash s.locks ≡ some lock
    → 0 < count hash s.opening
    → s.held lock ≡ true
lock_is_held hash lock s v own h = ground (arith, v.guarded hash, own, h)

begin-Inv :
    (hash : Text) (lock now : ℕ) (s : Shared)
    → get hash s.locks ≡ some lock
    → s.held lock ≡ false
    → Inv s
    → Inv (
        set_held lock true
          (record s { sessions = pop hash s.sessions; opening = (hash, now) ∷ s.opening }))
unfolding set_held count
begin-Inv hash lock now s own before v =
    Moved-Inv hash lock true s
      (set_held lock true
        (record s { sessions = pop hash s.sessions; opening = (hash, now) ∷ s.opening }))
      own before
      (record {
        same_locks = refl;
        same_next = refl;
        held_now = λ m. refl;
        counted = λ h. omega arith;
      })
      v

enter-Inv : (hash : Text) (now : ℕ) (s : Shared) → Inv s → Inv (enter hash now s)
unfolding enter
enter-Inv hash now s v = cases (t.held lock) (is_fresh now (get hash t.sessions)) refl
  where
    lock : ℕ
    lock = (get_rcp_session_lock hash s).0

    t : Shared
    t = (get_rcp_session_lock hash s).1

    cases :
        (b c : Bool)
        → t.held lock ≡ b
        → Inv (
            if b
            then t
            else if c
            then t
            else set_held lock true
                (record t { sessions = pop hash t.sessions; opening = (hash, now) ∷ t.opening }))
    cases true c e = get_rcp_session_lock-Inv hash s v
    cases false true e = get_rcp_session_lock-Inv hash s v
    cases false false e =
        begin-Inv hash lock now t (get_rcp_session_lock-own hash s) e
          (get_rcp_session_lock-Inv hash s v)

end-Inv :
    (hash : Text) (lock now : ℕ) (rest : List (Text × ℕ)) (d : Dict Text (Text × ℕ)) (s : Shared)
    → get hash s.locks ≡ some lock
    → taken hash s.opening ≡ some (now, rest)
    → Inv s
    → Inv (set_held lock false (record s { sessions = d; opening = rest }))
unfolding set_held
end-Inv hash lock now rest d s own e v =
    let counts = λ (h : Text). taken-count hash h s.opening rest now e in
    Moved-Inv hash lock false s (set_held lock false (record s { sessions = d; opening = rest }))
      own (lock_is_held hash lock s v own (ground (arith, counts hash, text_key.eqb_iff hash hash)))
      (record {
        same_locks = refl;
        same_next = refl;
        held_now = λ m. refl;
        counted = λ h. omega (arith, counts h);
      })
      v

lock_there :
    (hash : Text) (now : ℕ) (rest : List (Text × ℕ)) (s : Shared)
    → get hash s.locks ≡ none
    → taken hash s.opening ≡ some (now, rest)
    → Inv s
    → ⊥
lock_there hash now rest s f e v = ground (
  arith,
  v.guarded hash,
  f,
  taken-count hash hash s.opening rest now e,
  text_key.eqb_iff hash hash,
)

finish-Inv :
    (hash : Text) (session : Option Text) (s : Shared) → Inv s → Inv (finish hash session s)
unfolding finish
finish-Inv hash session s v = elim (Option-cases (taken hash s.opening)) [
  | inl e ↦ rw (finish, e) v
  | inr ((now, rest), e) ↦ (elim (Option-cases (get hash s.locks)) [
    | inl f ↦ elim (lock_there hash now rest s f e v) [ ]
    | inr (lock, f) ↦
        rw (finish, e, f)
          (end-Inv hash lock now rest (remembered hash now session s.sessions) s f e v)
  ])
]

Step-Inv : {s t : Shared} → Step s t → Inv s → Inv t
unfolding drop_session
Step-Inv (enters hash now s) v = enter-Inv hash now s v
Step-Inv (finishes hash session s) v = finish-Inv hash session s v
Step-Inv (drops hash s) v = Inv-sessions s (pop hash s.sessions) v

Reach-Inv : {s : Shared} → Reach s → Inv s
unfolding get count
Reach-Inv (start sessions) = record {
  guarded = λ hash. omega arith;
  below = λ hash lock e. grind arith;
  apart = λ g h lock eg eh. grind arith;
}
Reach-Inv (next r st) = Step-Inv st (Reach-Inv r)

-- When all callers share the dictionary of locks, then in every reachable state at most one handshake is
-- under way for each hash, and the lock of a hash with a handshake is held.
pub one_handshake :
    {s : Shared} (hash : Text)
    → Reach s
    → (count hash s.opening ≤ 1) × (count hash s.opening ≤ allowed (get hash s.locks) s.held)
one_handshake {s} hash r = let bound = (Reach-Inv r).guarded hash in (ground (arith, bound), bound)
