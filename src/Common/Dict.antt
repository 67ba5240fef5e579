-- ===== src/Common/Dict.antt =====
-- Python's `dict`: an association list in insertion order, over any type of keys with a test of
-- equality. A write to a present key keeps its place; a new key goes to the end.
use Prim.Native.String.{String}
use text.Mathlib.Text.{◌==◌ as str_eq}
use text.Mathlib.TextEquality.{eq_iff}
use mathlib.Core.Path.{◌≡◌, refl}
use mathlib.Core.Logic.{◌↔◌}
use mathlib.Core.Bool.{Bool, true, false}
use mathlib.Core.List.{List, [], ◌∷◌}
use mathlib.Core.Option.{Option, none, some}
use native.Mathlib.Omega.{arith}
use bosch_shc_camera_client.Common.Tests.{if◌then◌else◌}
use bosch_shc_camera_client.Common.Texts.{Text, same, same_iff}

pub record Key {ℓ} (K : Type ℓ) : Type ℓ where
  pub eqb : K → K → Bool
  pub eqb_iff : (j k : K) → (eqb j k ≡ true) ↔ (j ≡ k)

instance abbrev pub text_key : Key Text
text_key = record { eqb = same; eqb_iff = same_iff }

instance abbrev pub string_key : Key String
string_key = record { eqb = str_eq; eqb_iff = eq_iff }

abbrev pub Dict {ℓ κ} : Type ℓ → Type κ → Type (ℓ ⊔ κ)
Dict K V = List (K × V)

pub eqb_refl {ℓ} : {K : Type ℓ} ⦃e : Key K⦄ (k : K) → e.eqb k k ≡ true
eqb_refl ⦃e⦄ k = (e.eqb_iff k k).1 refl

module _ {ℓ κ} {K : Type ℓ} {V : Type κ} ⦃e : Key K⦄ where
  -- d.get(k)
  unfoldable pub get : K → Dict K V → Option V
  get k [] = none
  get k ((j, v) ∷ d) = if e.eqb j k then some v else get k d

  -- d[k] = v
  unfoldable pub put : K → V → Dict K V → Dict K V
  put k v [] = (k, v) ∷ []
  put k v ((j, w) ∷ d) = if e.eqb j k then (j, v) ∷ d else (j, w) ∷ put k v d

  -- d.pop(k, None)
  unfoldable pub pop : K → Dict K V → Dict K V
  pop k [] = []
  pop k ((j, w) ∷ d) = let rest = pop k d in if e.eqb j k then rest else (j, w) ∷ rest

  -- {**d, **changes}
  unfoldable pub update : Dict K V → Dict K V → Dict K V
  unfolding put
  update d [] = d
  update d ((k, v) ∷ changes) = update (put k v d) changes

  pub get-put :
      (k j : K) (v : V) (d : Dict K V) → get j (put k v d) ≡ (if e.eqb k j then some v else get j d)
  unfolding get put
  get-put k j v [] = refl
  get-put k j v ((i, w) ∷ d) =
      ground (arith, e.eqb_iff k j, e.eqb_iff i k, e.eqb_iff i j, get-put k j v d)

  pub get-pop : (k j : K) (d : Dict K V) → get j (pop k d) ≡ (if e.eqb k j then none else get j d)
  unfolding get pop
  get-pop k j [] = ground arith
  get-pop k j ((i, w) ∷ d) =
      ground (arith, e.eqb_iff k j, e.eqb_iff i k, e.eqb_iff i j, get-pop k j d)

  pub get-put_self : (k : K) (v : V) (d : Dict K V) → get k (put k v d) ≡ some v
  get-put_self k v d = simp (get-put, eqb_refl)

  pub get-pop_self : (k : K) (d : Dict K V) → get k (pop k d) ≡ none
  get-pop_self k d = simp (get-pop, eqb_refl)

  -- Every value of the dictionary satisfies `P`.
  abbrev pub Values {κ'} : (V → Type κ') → Dict K V → Type κ'
  Values P [] = Unit
  Values P ((k, v) ∷ d) = P v × Values P d

  Values-if {κ'} :
      (P : V → Type κ') (b : Bool) (c d : Dict K V)
      → Values P c
      → Values P d
      → Values P (if b then c else d)
  Values-if P true c d hc hd = hc
  Values-if P false c d hc hd = hd

  pub put-Values {κ'} :
      (P : V → Type κ') (k : K) (v : V) (d : Dict K V) → P v → Values P d → Values P (put k v d)
  unfolding put
  put-Values P k v [] h hd = (h, tt)
  put-Values P k v ((j, w) ∷ d) h (hw, hd) =
      Values-if P (e.eqb j k) ((j, v) ∷ d) ((j, w) ∷ put k v d) (h, hd)
        (hw, put-Values P k v d h hd)

  pub pop-Values {κ'} : (P : V → Type κ') (k : K) (d : Dict K V) → Values P d → Values P (pop k d)
  unfolding pop
  pop-Values P k [] hd = tt
  pop-Values P k ((j, w) ∷ d) (hw, hd) =
      Values-if P (e.eqb j k) (pop k d) ((j, w) ∷ pop k d) (pop-Values P k d hd)
        (hw, pop-Values P k d hd)

module _ {ℓ κ} {K : Type ℓ} {V : Type κ} ⦃e : Key K⦄ where
  -- The key is not in the dictionary.
  abbrev pub Absent : K → Dict K V → Type 0
  Absent k [] = Unit
  Absent k ((j, v) ∷ d) = (e.eqb j k ≡ false) × Absent k d

  -- Each key once.
  abbrev pub Distinct : Dict K V → Type 0
  Distinct [] = Unit
  Distinct ((k, v) ∷ d) = Absent k d × Distinct d

  get-Absent : (k : K) (d : Dict K V) → Absent k d → get k d ≡ none
  unfolding get
  get-Absent k [] h = refl
  get-Absent k ((j, v) ∷ d) (h, hd) = rw (h) (get-Absent k d hd)

  -- A change counts for its key, and every other key keeps its value.
  pub get-update :
      (k : K) (d changes : Dict K V)
      → Distinct changes
      → get k (update d changes) ≡ (elim (get k changes) [ none ↦ get k d | some v ↦ some v ])
  unfolding update get
  get-update k d [] h = refl
  get-update k d ((j, v) ∷ changes) (absent, h) = ground (
    arith,
    get-update k (put j v d) changes h,
    get-put j k v d,
    get-Absent j changes absent,
    e.eqb_iff j k,
  )
