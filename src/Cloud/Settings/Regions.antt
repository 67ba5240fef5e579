-- ===== src/Cloud/Settings/Regions.antt =====
-- settings.py: regions that were written are read back.
use bosch_shc_camera_client.Common.{
  Bool, true, false, ◌&&◌, List, some, ◌≡◌, refl, if◌then◌else◌, arith,
}
use bosch_shc_camera_client.Common.Dict.{string_key, get}
use bosch_shc_camera_client.Net.{value_error}
use bosch_shc_camera_client.Cloud.Json.{
  Float, finite, infinite, nan, Json, real, array, object, items_of, elements-items_of, fields_of,
  entries, item, number_of,
}
use bosch_shc_camera_client.Cloud.Wire.{done, failed, fault, each}
use bosch_shc_camera_client.Cloud.Wire.Rules.{Gives}
use bosch_shc_camera_client.Cloud.Wire.Each.{Gives-done, each-back}
use bosch_shc_camera_client.Cloud.Settings.Values.{
  Region, is_unit, region_values, check_region, check_regions, region_of, regions_of,
}

unit_number : (x : Float) → is_unit x ≡ true → number_of (real x) ≡ some x
unfolding is_unit number_of
unit_number (finite s m k) h = refl
unit_number (infinite s) h = grind arith
unit_number nan h = grind arith

four :
    (a b c d : Bool) → a && b && c && d ≡ true → (a ≡ true) × (b ≡ true) × (c ≡ true) × (d ≡ true)
four true true true true h = (refl, refl, refl, refl)
four true true true false h = grind arith
four true true false d h = grind arith
four true false c d h = grind arith
four false b c d h = grind arith

region_back_unit :
    (r : Region)
    → is_unit r.x && is_unit r.y && is_unit r.w && is_unit r.h ≡ true
    → region_of (object (fields_of (region_values r))) ≡ done r
unfolding region_of region_values item entries fields_of get
region_back_unit r h =
    let parts = four (is_unit r.x) (is_unit r.y) (is_unit r.w) (is_unit r.h) h in
    rw (
      unit_number r.x parts.0,
      unit_number r.y parts.1,
      unit_number r.w parts.2,
      unit_number r.h parts.3,
    )

region_back : (r : Region) → Gives (λ j. region_of j ≡ done r) (check_region r)
unfolding check_region
region_back r = cases (is_unit r.x && is_unit r.y && is_unit r.w && is_unit r.h) refl
  where
    cases :
        (b : Bool)
        → (is_unit r.x && is_unit r.y && is_unit r.w && is_unit r.h ≡ b)
        → Gives
            (λ j. region_of j ≡ done r)
            (if b then done (object (fields_of (region_values r))) else failed (fault value_error))
    cases true h = region_back_unit r h
    cases false h = tt

-- The reader of regions gives back the regions that the writer's check lets through.
pub regions_of-check_regions :
    (regions : List Region) (body : List Json)
    → check_regions regions ≡ done body
    → regions_of (array (items_of body)) ≡ done regions
unfolding regions_of check_regions
regions_of-check_regions regions body h = rw (elements-items_of body) (
    Gives-done (λ js. each region_of js ≡ done regions) (each check_region regions) body h
      (each-back check_region region_of regions region_back))
