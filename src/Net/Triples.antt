-- ===== src/Net/Triples.antt =====
-- Triples on the coroutines of `Net`: from a world with `P`, an action ends in `Q` with its result, or
-- in `R` with an exception.
use bosch_shc_camera_client.Common.{[], ◌∷◌, ◌++◌}
use bosch_shc_camera_client.Net.{
  Result, ok, raise, is_exception, World, Server, Io, continue, handle, ◌>>=◌, pure, request,
  except,
}

abbrev pub Ended :
    {Q S A : Type 0}
    → (A → World Q S → Type 0)
    → (World Q S → Type 0)
    → Result A × World Q S
    → Type 0
Ended Post Raised (ok a, w) = Post a w
Ended Post Raised (raise e, w) = Raised w

pub record Triple {Q : Type 0} {S : Type 0} {A : Type 0} (P : World Q S → Type 0) (m : Io Q S A)
    (Post : A → World Q S → Type 0) (Raised : World Q S → Type 0) : Type 0 where
  pub at : (w : World Q S) → P w → Ended Post Raised (m w)

module _ {Q S A : Type 0} {Post : A → World Q S → Type 0} {Raised : World Q S → Type 0} where
  pub Triple-pure :
      {P : World Q S → Type 0} (a : A)
      → ((w : World Q S) → P w → Post a w)
      → Triple P (pure a) Post Raised
  Triple-pure a h = record { at = h }

  handle-Ended :
      {Middle : World Q S → Type 0} (r : Result A) (h : Io Q S A) (w : World Q S)
      → Ended Post Middle (r, w)
      → Triple Middle h Post Raised
      → Ended Post Raised (handle is_exception r h w)
  handle-Ended (ok a) h w p t = p
  handle-Ended (raise e) h w p t = t.at w p

  pub Triple-except :
      {P Middle : World Q S → Type 0} (m h : Io Q S A)
      → Triple P m Post Middle
      → Triple Middle h Post Raised
      → Triple P (except is_exception m h) Post Raised
  Triple-except m h tm th = record { at = λ w p. handle-Ended (m w).0 h (m w).1 (tm.at w p) th }

module _ {Q S A B : Type 0} {Middle : A → World Q S → Type 0} {Post : B → World Q S → Type 0}
    {Raised : World Q S → Type 0} where
  continue-Ended :
      (r : Result A) (f : A → Io Q S B) (w : World Q S)
      → Ended Middle Raised (r, w)
      → ((a : A) → Triple (Middle a) (f a) Post Raised)
      → Ended Post Raised (continue r f w)
  continue-Ended (ok a) f w p t = (t a).at w p
  continue-Ended (raise e) f w p t = p

  pub Triple-bind :
      {P : World Q S → Type 0} (m : Io Q S A) (f : A → Io Q S B)
      → Triple P m Middle Raised
      → ((a : A) → Triple (Middle a) (f a) Post Raised)
      → Triple P (m >>= f) Post Raised
  Triple-bind m f tm tf = record { at = λ w p. continue-Ended (m w).0 f (m w).1 (tm.at w p) tf }

-- A request that is counted the same whether it is answered or not.
pub Triple-request :
    {Q S R : Type 0} {P N : World Q S → Type 0} (server : Server Q R) (q : Q)
    → ((w : World Q S) → P w → N (record w { sent = w.sent ++ q ∷ [] }))
    → Triple P (request server q) (λ _. N) N
Triple-request {R} {N = N} server q h = record { at = λ w p. either (server w.sent q) _ (h w p) }
  where
    either : (r : Result R) (w : World _ _) → N w → Ended {A = R} (λ _. N) N (r, w)
    either (ok a) w n = n
    either (raise e) w n = n

weaken :
    {Q S A : Type 0} (Post : A → World Q S → Type 0) (Raised Weaker : World Q S → Type 0)
    (r : Result A) (w : World Q S)
    → (Raised w → Weaker w)
    → Ended Post Raised (r, w)
    → Ended Post Weaker (r, w)
weaken Post Raised Weaker (ok a) w h p = p
weaken Post Raised Weaker (raise e) w h p = h p

module _ {Q S A : Type 0} {P : World Q S → Type 0} {Post : A → World Q S → Type 0}
    {Raised Weaker : World Q S → Type 0} where
  pub Triple-weaken :
      (m : Io Q S A)
      → ((w : World Q S) → Raised w → Weaker w)
      → Triple P m Post Raised
      → Triple P m Post Weaker
  Triple-weaken m h t = record {
    at = λ w p. weaken Post Raised Weaker (m w).0 (m w).1 (h (m w).1) (t.at w p);
  }
