-- ===== src/Cloud/Wire/Each.antt =====
-- The comprehensions `[f(x) for x in xs]` whose `f` may raise.
use mathlib.Core.Path.{subst}
use bosch_shc_camera_client.Common.{suc, List, [], ◌∷◌, ◌≡◌, refl, ap, All, length}
use bosch_shc_camera_client.Cloud.Wire.{Outcome, done, failed, prepended, each}
use bosch_shc_camera_client.Cloud.Wire.Rules.{Gives}

pub Gives-done :
    {A : Type 0} (P : A → Type 0) (r : Outcome A) (a : A) → r ≡ done a → Gives P r → P a
Gives-done P r a h g = subst (λ o. Gives P o) h g

module _ {A B : Type 0} where
  each-step :
      (g : B → Outcome A) (x : A) (xs : List A) (y : B) (ys : List B)
      → g y ≡ done x
      → each g ys ≡ done xs
      → each g (y ∷ ys) ≡ done (x ∷ xs)
  unfolding each
  each-step g x xs y ys h hs = rw (h, hs)

  -- What `g` undoes one by one, it undoes in a list.
  pub each-back :
      (f : A → Outcome B) (g : B → Outcome A) (xs : List A)
      → ((x : A) → Gives (λ y. g y ≡ done x) (f x))
      → Gives (λ ys. each g ys ≡ done xs) (each f xs)
  unfolding each
  each-back f g [] k = refl
  each-back f g (x ∷ xs) k = cases (f x) (each f xs) (k x) (each-back f g xs k)
    where
      cases :
          (r : Outcome B) (rs : Outcome (List B))
          → Gives (λ y. g y ≡ done x) r
          → Gives (λ ys. each g ys ≡ done xs) rs
          → Gives (λ ys. each g ys ≡ done (x ∷ xs)) (prepended r rs)
      cases (failed e) rs h hs = tt
      cases (done y) (failed e) h hs = tt
      cases (done y) (done ys) h hs = each-step g x xs y ys h hs

  -- What holds of each value holds of all, and there are as many as elements.
  pub each-All :
      (P : B → Type 0) (f : A → Outcome B) (xs : List A)
      → ((x : A) → Gives P (f x))
      → Gives (λ ys. All P ys × (length ys ≡ length xs)) (each f xs)
  unfolding each
  each-All P f [] k = (tt, refl)
  each-All P f (x ∷ xs) k = cases (f x) (each f xs) (k x) (each-All P f xs k)
    where
      cases :
          (r : Outcome B) (rs : Outcome (List B))
          → Gives P r
          → Gives (λ ys. All P ys × (length ys ≡ length xs)) rs
          → Gives (λ ys. All P ys × (length ys ≡ length (x ∷ xs))) (prepended r rs)
      cases (failed e) rs h hs = tt
      cases (done y) (failed e) h hs = tt
      cases (done y) (done ys) h hs = ((h, hs.0), ap (λ n. suc n) hs.1)
