-- ===== src/Cloud/Json.antt =====
-- JSON values as `json` decodes them, Python's floats, and the readers of single values that
-- settings.py, states.py and events.py share.
pub mod Filled
pub mod Integers
use bosch_shc_camera_client.Common.{
  ℕ, zero, suc, ◌+◌, ◌-◌, ◌*◌, ◌/◌, ◌^◌, ◌≡◌, refl, ap, Bool, true, false, not, ◌&&◌, ◌||◌, List,
  [], ◌∷◌, Option, none, some, String, ltb, leb, ◌==◌, if◌then◌else◌, is_empty,
}
use bosch_shc_camera_client.Common.Texts.{Text, codes, same, strip}
use bosch_shc_camera_client.Common.Dict.{string_key, Dict, get}
use bosch_shc_camera_client.Common.Integers.{ℤ, pos, negsuc, signed}
use bosch_shc_camera_client.Common.Rounding.{nearest}

-- A double: m / 2 ^ k with a sign, an infinity with a sign, or not a number.
pub data Float : Type 0 where
  finite : Bool → ℕ → ℕ → Float
  infinite : Bool → Float
  nan : Float

-- Numbers that the decoder made ints or floats; an object in the order of its keys, each once.
mutual
  pub data Json : Type 0 where
    null : Json
    bool : Bool → Json
    int : ℤ → Json
    real : Float → Json
    string : Text → Json
    array : Items → Json
    object : Fields → Json

  pub data Items : Type 0 where
    nil : Items
    cons : Json → Items → Items

  pub data Fields : Type 0 where
    end : Fields
    field : String → Json → Fields → Fields

unfoldable pub elements : Items → List Json
elements nil = []
elements (cons x xs) = x ∷ elements xs

unfoldable pub items_of : List Json → Items
items_of [] = nil
items_of (x ∷ xs) = cons x (items_of xs)

unfoldable pub entries : Fields → Dict String Json
entries end = []
entries (field k v fs) = (k, v) ∷ entries fs

unfoldable pub fields_of : Dict String Json → Fields
fields_of [] = end
fields_of ((k, v) ∷ d) = field k v (fields_of d)

pub elements-items_of : (xs : List Json) → elements (items_of xs) ≡ xs
unfolding elements items_of
elements-items_of [] = refl
elements-items_of (x ∷ xs) = ap (λ ys. x ∷ ys) (elements-items_of xs)

pub entries-fields_of : (d : Dict String Json) → entries (fields_of d) ≡ d
unfolding entries fields_of
entries-fields_of [] = refl
entries-fields_of ((k, v) ∷ d) = ap (λ e. (k, v) ∷ e) (entries-fields_of d)

-- d.get(key), with null for None
unfoldable pub item : String → Dict String Json → Json
item key d = elim (get key d) [ none ↦ null | some v ↦ v ]

-- The halvings that bring n below 2 ^ 53, up to the fuel.
unfoldable pub halvings_from : ℕ → ℕ → ℕ
halvings_from zero n = 0
halvings_from (suc fuel) n =
    let more = suc (halvings_from fuel (n / 2)) in if ltb n (2 ^ 53) then 0 else more

-- float(n) for the absolute value of an int; `none` is its OverflowError.
unfoldable pub double_of : ℕ → Option ℕ
unfolding halvings_from nearest
double_of n =
    if leb (2 ^ 1024) n
    then none
    else let scale = 2 ^ halvings_from 1024 n in
      let m = nearest n scale * scale in if leb (2 ^ 1024) m then none else some m

unfoldable pub float_of_int : ℤ → Option Float
unfolding double_of
float_of_int (pos n) = elim (double_of n) [ none ↦ none | some m ↦ some (finite false m 0) ]
float_of_int (negsuc n) = elim (double_of (n + 1)) [ none ↦ none | some m ↦ some (finite true m 0) ]

-- `_number`
unfoldable pub number_of : Json → Option Float
unfolding float_of_int
number_of (int n) = float_of_int n
number_of (real (finite s m k)) = some (finite s m k)
number_of _ = none

-- round(x) of a finite float, halves to even
unfoldable pub rounded : Float → ℤ
unfolding nearest signed
rounded (finite s m k) = signed s (nearest m (2 ^ k))
rounded _ = pos 0

-- `_integer`
unfoldable pub integer_of : Json → Option ℤ
unfolding number_of rounded
integer_of v = elim (number_of v) [ none ↦ none | some x ↦ some (rounded x) ]

-- `_flag`
unfoldable pub flag_of : Json → Option Bool
flag_of (bool b) = some b
flag_of _ = none

-- `value if isinstance(value, str) and value else None`
unfoldable pub text_of : Json → Option Text
text_of (string (c ∷ s)) = some (c ∷ s)
text_of _ = none

-- value is True
unfoldable pub is_true : Json → Bool
is_true (bool b) = b
is_true _ = false
