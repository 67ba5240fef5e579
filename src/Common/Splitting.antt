-- ===== src/Common/Splitting.antt =====
-- Laws of `split` and `rstrip`.
use mathlib.Core.Path.{◌≡◌, refl}
use mathlib.Core.Bool.{Bool, true, false}
use mathlib.Core.List.{List, [], ◌∷◌, ◌++◌}
use native.Mathlib.Omega.{arith}
use Prim.Native.Nat.{ℕ}
use bosch_shc_camera_client.Common.Tests.{◌==◌, if◌then◌else◌}
use bosch_shc_camera_client.Common.Lists.{All}
use bosch_shc_camera_client.Common.Texts.{Text, split, split_onto, rstrip, rstrip_onto}

-- The text has no character `d`.
abbrev pub Without : ℕ → Text → Type 0
Without d = All (λ c. (c == d) ≡ false)

pub split-Without : (d : ℕ) (s : Text) → Without d s → split d s ≡ s ∷ []
unfolding split
split-Without d [] h = refl
split-Without d (c ∷ s) h = rw (h.0, split-Without d s h.1)

split_onto-append :
    (c d : ℕ) (s : Text) (ws : List Text)
    → split_onto c (split d s ++ ws) ≡ split_onto c (split d s) ++ ws
unfolding split
split_onto-append c d [] ws = refl
split_onto-append c d (e ∷ s) ws = go (e == d) (split d s)
  where
    go :
        (b : Bool) (rest : List Text)
        → split_onto c ((if b then [] ∷ rest else split_onto e rest) ++ ws)
          ≡ split_onto c (if b then [] ∷ rest else split_onto e rest) ++ ws
    go true rest = refl
    go false [] = refl
    go false (r ∷ rest) = refl

-- A separator cuts the text in two.
pub split-append : (d : ℕ) (s t : Text) → split d (s ++ d ∷ t) ≡ split d s ++ split d t
unfolding split
split-append d [] t = ground arith
split-append d (c ∷ s) t = rw (split-append d s t) (go (c == d))
  where
    go :
        (b : Bool)
        → (if b then [] ∷ (split d s ++ split d t) else split_onto c (split d s ++ split d t))
          ≡ (if b then [] ∷ split d s else split_onto c (split d s)) ++ split d t
    go true = refl
    go false = split_onto-append c d s (split d t)

rstrip_onto-cons :
    (p : ℕ → Bool) (c b : ℕ) (s t : Text) → rstrip_onto p c (s ++ b ∷ t) ≡ c ∷ (s ++ b ∷ t)
rstrip_onto-cons p c b [] t = refl
rstrip_onto-cons p c b (e ∷ s) t = refl

-- Nothing is stripped from a text whose end is not.
pub rstrip-append :
    (p : ℕ → Bool) (s : Text) (b : ℕ) (t : Text)
    → rstrip p (b ∷ t) ≡ b ∷ t
    → rstrip p (s ++ b ∷ t) ≡ s ++ b ∷ t
unfolding rstrip
rstrip-append p [] b t h = h
rstrip-append p (c ∷ s) b t h = rw (rstrip-append p s b t h) (rstrip_onto-cons p c b s t)
