-- ===== src/Cloud/Settings/Values.antt =====
-- settings.py: ranges, regions and enumerations. An enumeration is the list of its values.
use bosch_shc_camera_client.Common.{
  ℕ, ◌*◌, ◌^◌, Bool, false, not, ◌&&◌, ◌||◌, List, [], ◌∷◌, Option, none, some, String, leb, ◌==◌,
  if◌then◌else◌, is_empty, any,
}
use bosch_shc_camera_client.Common.Texts.{Text, codes, same, strip}
use bosch_shc_camera_client.Common.Dict.{string_key, Dict}
use bosch_shc_camera_client.Common.Integers.{pos}
use bosch_shc_camera_client.Common.Rounding.{nearest, scale_from, scale_fuel}
use bosch_shc_camera_client.Net.{value_error}
use bosch_shc_camera_client.Rcp.Parse.Catalogs.{is_space}
use bosch_shc_camera_client.Cloud.Json.{
  Float, finite, Json, int, real, string, array, object, elements, entries, fields_of, item,
  number_of,
}
use bosch_shc_camera_client.Cloud.Wire.{invalid_response, fault, Outcome, done, failed, each}

-- `_check_range`: an int, not a bool, in the range from lo to hi.
unfoldable pub is_within : ℕ → ℕ → Json → Bool
is_within lo hi (int (pos n)) = leb lo n && leb n hi
is_within lo hi _ = false

pub record Region : Type 0 where
  pub x : Float
  pub y : Float
  pub w : Float
  pub h : Float

-- math.isfinite(v) and 0.0 <= v <= 1.0
unfoldable pub is_unit : Float → Bool
is_unit (finite s m k) = (not s || m == 0) && leb m (2 ^ k)
is_unit _ = false

unfoldable pub region_values : Region → Dict String Json
region_values r = ("x", real r.x) ∷ ("y", real r.y) ∷ ("w", real r.w) ∷ ("h", real r.h) ∷ []

unfoldable pub check_region : Region → Outcome Json
unfolding is_unit region_values fields_of
check_region r =
    if is_unit r.x && is_unit r.y && is_unit r.w && is_unit r.h
    then done (object (fields_of (region_values r)))
    else failed (fault value_error)

-- `_check_regions`
unfoldable pub check_regions : List Region → Outcome (List Json)
unfolding each check_region
check_regions = each check_region

abbrev region_from : Option Float → Option Float → Option Float → Option Float → Outcome Region
region_from (some x) (some y) (some w) (some h) = done (record { x = x; y = y; w = w; h = h })
region_from _ _ _ _ = failed invalid_response

unfoldable pub region_of : Json → Outcome Region
unfolding item number_of
region_of (object fs) =
    region_from (number_of (item "x" (entries fs))) (number_of (item "y" (entries fs)))
      (number_of (item "w" (entries fs))) (number_of (item "h" (entries fs)))
region_of _ = failed invalid_response

unfoldable pub regions_of : Json → Outcome (List Region)
unfolding each region_of
regions_of (array xs) = each region_of (elements xs)
regions_of _ = failed invalid_response

-- round(x, 2): the hundredths nearest to the exact value, halves to even, as the nearest double.
unfoldable pub round_hundredths : Float → Float
unfolding nearest scale_from
round_hundredths (finite s m k) =
    let h = nearest (100 * m) (2 ^ k) in
    let j = scale_from scale_fuel h 100 in
    if h == 0 then finite s 0 0 else finite s (nearest (h * 2 ^ j) 100) j
round_hundredths x = x

abbrev pub schedule_statuses : List Text
schedule_statuses =
    codes "FOLLOW_SCHEDULE"
    ∷ codes "AMBIENT_LIGHT"
    ∷ codes "AMBIENT_LIGHT_AND_SCHEDULE"
    ∷ codes "ALWAYS_OFF"
    ∷ []

abbrev pub detection_modes : List Text
detection_modes = codes "ALL_MOTIONS" ∷ codes "ONLY_HUMANS" ∷ codes "ZONES" ∷ []

-- Whether an enumeration has the value.
abbrev pub has_value : List Text → Text → Bool
has_value kind t = any (same t) kind

module _ (upper : Text → Text) where
  -- `_text`
  unfoldable pub upper_text_of : Json → Option Text
  unfolding is_space
  upper_text_of (string s) =
      if is_empty (strip is_space s) then none else some (upper (strip is_space s))
  upper_text_of _ = none

  -- `_enum`
  unfoldable pub enum_of : List Text → Json → Option Text
  unfolding upper_text_of
  enum_of kind v = elim (upper_text_of v) [
    | none ↦ none
    | some t ↦ if has_value kind t then some t else none
  ]
