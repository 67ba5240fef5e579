-- ===== src/Cloud/Events/Flags.antt =====
-- events.py: `FeatureFlags.enabled`, the sorted names of the flags that are on.
use bosch_shc_camera_client.Common.{
  ◌≡◌, refl, ◌∙◌, Bool, true, false, ◌||◌, List, [], ◌∷◌, Option, none, some, String, ltb, ◌==◌,
  if◌then◌else◌, arith,
}
use bosch_shc_camera_client.Common.Texts.{Text, codes}
use bosch_shc_camera_client.Common.Dict.{string_key, Dict, get, Absent, Distinct}

-- s <= t, by code points
unfoldable pub is_before : Text → Text → Bool
is_before [] t = true
is_before (c ∷ s) [] = false
is_before (c ∷ s) (d ∷ t) = let rest = is_before s t in if c == d then rest else ltb c d

unfoldable pub insert_name : String → List String → List String
unfolding is_before
insert_name n [] = n ∷ []
insert_name n (m ∷ ms) =
    let rest = insert_name n ms in if is_before (codes n) (codes m) then n ∷ m ∷ ms else m ∷ rest

unfoldable pub sort_names : List String → List String
unfolding insert_name
sort_names [] = []
sort_names (n ∷ ns) = insert_name n (sort_names ns)

-- name for name, on in flags.items() if on
unfoldable pub names_on : Dict String Bool → List String
names_on [] = []
names_on ((n, on) ∷ flags) = let rest = names_on flags in if on then n ∷ rest else rest

unfoldable pub enabled : Dict String Bool → List String
unfolding sort_names names_on
enabled flags = sort_names (names_on flags)

is_before_total : (s t : Text) → is_before s t ≡ false → is_before t s ≡ true
unfolding is_before
is_before_total [] t h = grind arith
is_before_total (c ∷ s) [] h = refl
is_before_total (c ∷ s) (d ∷ t) h = ground (arith, h, is_before_total s t)

-- No name stands before the one to its left.
abbrev pub IsSorted : List String → Type 0
IsSorted [] = Unit
IsSorted (n ∷ []) = Unit
IsSorted (n ∷ m ∷ ns) = (is_before (codes n) (codes m) ≡ true) × IsSorted (m ∷ ns)

IsSorted-tail : (n : String) (ns : List String) → IsSorted (n ∷ ns) → IsSorted ns
IsSorted-tail n [] h = tt
IsSorted-tail n (m ∷ ns) h = h.1

insert_name-IsSorted : (n : String) (ns : List String) → IsSorted ns → IsSorted (insert_name n ns)
unfolding insert_name
insert_name-IsSorted n [] h = tt
insert_name-IsSorted n (m ∷ []) h = cases (is_before (codes n) (codes m)) refl
  where
    cases :
        (b : Bool)
        → is_before (codes n) (codes m) ≡ b
        → IsSorted (if b then n ∷ m ∷ [] else m ∷ n ∷ [])
    cases true e = (e, tt)
    cases false e = (is_before_total (codes n) (codes m) e, tt)
insert_name-IsSorted n (m ∷ k ∷ ns) h =
    cases (is_before (codes n) (codes m)) (is_before (codes n) (codes k)) refl refl
      (insert_name-IsSorted n (k ∷ ns) h.1)
  where
    cases :
        (b c : Bool)
        → is_before (codes n) (codes m) ≡ b
        → is_before (codes n) (codes k) ≡ c
        → IsSorted (if c then n ∷ k ∷ ns else k ∷ insert_name n ns)
        → IsSorted
            (if b then n ∷ m ∷ k ∷ ns else m ∷ (if c then n ∷ k ∷ ns else k ∷ insert_name n ns))
    cases true c e f ih = (e, h)
    cases false true e f ih = (is_before_total (codes n) (codes m) e, ih)
    cases false false e f ih = (h.0, ih)

pub sort_names-IsSorted : (ns : List String) → IsSorted (sort_names ns)
unfolding sort_names
sort_names-IsSorted [] = tt
sort_names-IsSorted (n ∷ ns) = insert_name-IsSorted n (sort_names ns) (sort_names-IsSorted ns)

-- n in ns
unfoldable pub has : String → List String → Bool
has n [] = false
has n (m ∷ ms) = string_key.eqb m n || has n ms

has-insert_name :
    (k n : String) (ns : List String) → has k (insert_name n ns) ≡ string_key.eqb n k || has k ns
unfolding has insert_name
has-insert_name k n [] = refl
has-insert_name k n (m ∷ ms) = ground (arith, has-insert_name k n ms)

has-sort_names : (k : String) (ns : List String) → has k (sort_names ns) ≡ has k ns
unfolding has sort_names
has-sort_names k [] = refl
has-sort_names k (n ∷ ns) = ground (arith, has-insert_name k n (sort_names ns), has-sort_names k ns)

abbrev pub is_on : Option Bool → Bool
is_on none = false
is_on (some on) = on

has-Absent :
    (k : String) (flags : Dict String Bool) → Absent k flags → has k (names_on flags) ≡ false
unfolding has names_on
has-Absent k [] h = refl
has-Absent k ((n, on) ∷ flags) (h, hs) = ground (arith, h, has-Absent k flags hs)

has-names_on :
    (k : String) (flags : Dict String Bool)
    → Distinct flags
    → has k (names_on flags) ≡ is_on (get k flags)
unfolding has names_on get
has-names_on k [] h = refl
has-names_on k ((n, on) ∷ flags) (absent, h) =
    ground (arith, has-names_on k flags h, has-Absent n flags absent, string_key.eqb_iff n k)

-- The names of the enabled flags are sorted by code points, and a name is among them exactly if its flag
-- is on, where each name has one flag.
pub enabled_lem :
    (flags : Dict String Bool)
    → Distinct flags
    → IsSorted (enabled flags) × ((k : String) → has k (enabled flags) ≡ is_on (get k flags))
unfolding enabled
enabled_lem flags h = (
  sort_names-IsSorted (names_on flags),
  λ k. has-sort_names k (names_on flags) ∙ has-names_on k flags h,
)
