-- ===== src/Net/Rules.antt =====
-- Rules for the coroutines of `Net`: a predicate on worlds that an action keeps, whether it returns
-- or raises, and a predicate on the results that it returns.
use bosch_shc_camera_client.Common.{Bool, true, false, [], ◌∷◌, ◌++◌, if◌then◌else◌, ◌≡◌, refl}
use bosch_shc_camera_client.Net.{
  Fault, Result, ok, raise, is_exception, World, Server, Io, continue, handle, ◌>>=◌, pure, lift,
  gets, modify, request, except,
}

pub record Keeps {Q : Type 0} {S : Type 0} {A : Type 0} (P : World Q S → Type 0) (m : Io Q S A)
    : Type 0 where
  pub at : (w : World Q S) → P w → P (m w).1

module _ {Q S A : Type 0} {P : World Q S → Type 0} where
  pub Keeps-pure : (a : A) → Keeps P (pure a)
  Keeps-pure a = record { at = λ w h. h }

  pub Keeps-lift : (r : Result A) → Keeps P (lift r)
  Keeps-lift r = record { at = λ w h. h }

  pub Keeps-gets : (f : S → A) → Keeps P (gets f)
  Keeps-gets f = record { at = λ w h. h }

  pub handle-Keeps :
      (caught : Fault → Bool) (r : Result A) (h : Io Q S A) (w : World Q S)
      → Keeps P h
      → P w
      → P (handle caught r h w).1
  handle-Keeps caught (ok a) h w k p = p
  handle-Keeps caught (raise e) h w k p = go (caught e)
    where
      go : (b : Bool) → P (if b then h w else (raise e, w)).1
      go true = k.at w p
      go false = p

  pub Keeps-except :
      (caught : Fault → Bool) (m h : Io Q S A) → Keeps P m → Keeps P h → Keeps P (except caught m h)
  Keeps-except caught m h km kh = record {
    at = λ w p. handle-Keeps caught (m w).0 h (m w).1 kh (km.at w p);
  }

  pub Keeps-if : (b : Bool) (m n : Io Q S A) → Keeps P m → Keeps P n → Keeps P (if b then m else n)
  Keeps-if true m n km kn = km
  Keeps-if false m n km kn = kn

module _ {Q S A B : Type 0} {P : World Q S → Type 0} where
  continue-Keeps :
      (r : Result A) (f : A → Io Q S B) (w : World Q S)
      → ((a : A) → Keeps P (f a))
      → P w
      → P (continue r f w).1
  continue-Keeps (ok a) f w k p = (k a).at w p
  continue-Keeps (raise e) f w k p = p

  pub Keeps-bind :
      (m : Io Q S A) (f : A → Io Q S B) → Keeps P m → ((a : A) → Keeps P (f a)) → Keeps P (m >>= f)
  Keeps-bind m f km kf = record { at = λ w p. continue-Keeps (m w).0 f (m w).1 kf (km.at w p) }

-- What an action returns, if it returns, satisfies `P`.
abbrev pub Satisfies : {A : Type 0} → (A → Type 0) → Result A → Type 0
Satisfies P (ok a) = P a
Satisfies P (raise e) = Unit

pub record Returns {Q : Type 0} {S : Type 0} {A : Type 0} (P : A → Type 0) (m : Io Q S A)
    : Type 0 where
  pub at : (w : World Q S) → Satisfies P (m w).0

module _ {Q S A B : Type 0} {P : A → Type 0} {R : B → Type 0} where
  continue-Returns :
      (r : Result A) (f : A → Io Q S B) (w : World Q S)
      → ((a : A) → P a → Returns R (f a))
      → Satisfies P r
      → Satisfies R (continue r f w).0
  continue-Returns (ok a) f w k p = (k a p).at w
  continue-Returns (raise e) f w k p = tt

  pub Returns-bind :
      (m : Io Q S A) (f : A → Io Q S B)
      → Returns P m
      → ((a : A) → P a → Returns R (f a))
      → Returns R (m >>= f)
  Returns-bind m f rm rf = record { at = λ w. continue-Returns (m w).0 f (m w).1 rf (rm.at w) }

module _ {Q S A : Type 0} {P : A → Type 0} where
  pub Returns-pure : (a : A) → P a → Returns {Q = Q} {S = S} P (pure a)
  Returns-pure a p = record { at = λ w. p }

  handle-Returns :
      (caught : Fault → Bool) (r : Result A) (h : Io Q S A) (w : World Q S)
      → Returns P h
      → Satisfies P r
      → Satisfies P (handle caught r h w).0
  handle-Returns caught (ok a) h w k p = p
  handle-Returns caught (raise e) h w k p = go (caught e)
    where
      go : (b : Bool) → Satisfies P (if b then h w else (raise e, w)).0
      go true = k.at w
      go false = tt

  pub Returns-except :
      (caught : Fault → Bool) (m h : Io Q S A)
      → Returns P m
      → Returns P h
      → Returns P (except caught m h)
  Returns-except caught m h rm rh = record {
    at = λ w. handle-Returns caught (m w).0 h (m w).1 rh (rm.at w);
  }

  pub Returns-if :
      (b : Bool) (m n : Io Q S A) → Returns P m → Returns P n → Returns P (if b then m else n)
  Returns-if true m n rm rn = rm
  Returns-if false m n rm rn = rn

-- Nothing is known of what an action returns.
abbrev pub Anything : {A : Type 0} → A → Type 0
Anything a = Unit

pub Returns-Anything : {Q S A : Type 0} (m : Io Q S A) → Returns Anything m
Returns-Anything {A} m = record { at = λ w. any_result (m w).0 }
  where
    any_result : (r : Result A) → Satisfies Anything r
    any_result (ok a) = tt
    any_result (raise e) = tt

-- A property of the outcome of a conditional action, by its branches.
pub outcome_if :
    {Q S A : Type 0} (P : Result A × World Q S → Type 0) (b : Bool) (m n : Io Q S A) (w : World Q S)
    → (b ≡ true → P (m w))
    → (b ≡ false → P (n w))
    → P ((if b then m else n) w)
outcome_if P true m n w hm hn = hm refl
outcome_if P false m n w hm hn = hn refl

module _ {Q S : Type 0} {P : World Q S → Type 0} where
  pub Keeps-modify :
      (f : S → S)
      → ((w : World Q S) → P w → P (record w { store = f w.store }))
      → Keeps P (modify f)
  Keeps-modify f h = record { at = h }

  pub Keeps-request :
      {R : Type 0} (server : Server Q R) (q : Q)
      → ((w : World Q S) → P w → P (record w { sent = w.sent ++ q ∷ [] }))
      → Keeps P (request server q)
  Keeps-request server q h = record { at = h }

module _ {Q S A B : Type 0} {P : World Q S → Type 0} {R : A → Type 0} where
  continue-Keeps_of :
      (r : Result A) (f : A → Io Q S B) (w : World Q S)
      → Satisfies R r
      → ((a : A) → R a → Keeps P (f a))
      → P w
      → P (continue r f w).1
  continue-Keeps_of (ok a) f w s k p = (k a s).at w p
  continue-Keeps_of (raise e) f w s k p = p

  -- As `Keeps-bind`, where the rest may use what the first action returned.
  pub Keeps-bind_of :
      (m : Io Q S A) (f : A → Io Q S B)
      → Keeps P m
      → Returns R m
      → ((a : A) → R a → Keeps P (f a))
      → Keeps P (m >>= f)
  Keeps-bind_of m f km rm kf = record {
    at = λ w p. continue-Keeps_of (m w).0 f (m w).1 (rm.at w) kf (km.at w p);
  }

-- An action that never raises.
pub record Total {Q : Type 0} {S : Type 0} {A : Type 0} (m : Io Q S A) : Type 0 where
  pub at : (w : World Q S) → (a : A) × ((m w).0 ≡ ok a)

module _ {Q S A B : Type 0} where
  continue-Total :
      (r : Result A) (f : A → Io Q S B) (w : World Q S) (a : A)
      → r ≡ ok a
      → ((a : A) → Total (f a))
      → (b : B) × ((continue r f w).0 ≡ ok b)
  continue-Total r f w a e k = rw (e, continue) ((k a).at w)

  pub Total-bind :
      (m : Io Q S A) (f : A → Io Q S B) → Total m → ((a : A) → Total (f a)) → Total (m >>= f)
  Total-bind m f tm tf = record {
    at = λ w. let (a, e) = tm.at w in continue-Total (m w).0 f (m w).1 a e tf;
  }

module _ {Q S A : Type 0} where
  pub Total-pure : (a : A) → Total {Q = Q} {S = S} (pure a)
  Total-pure a = record { at = λ w. (a, refl) }

  handle-Total :
      (r : Result A) (h : Io Q S A) (w : World Q S)
      → Total h
      → (a : A) × ((handle is_exception r h w).0 ≡ ok a)
  handle-Total (ok a) h w t = (a, refl)
  handle-Total (raise e) h w t = t.at w

  -- `except Exception` lets nothing through but what the handler raises.
  pub Total-except : (m h : Io Q S A) → Total h → Total (except is_exception m h)
  Total-except m h t = record { at = λ w. handle-Total (m w).0 h (m w).1 t }

  pub Total-if : (b : Bool) (m n : Io Q S A) → Total m → Total n → Total (if b then m else n)
  Total-if true m n tm tn = tm
  Total-if false m n tm tn = tn
