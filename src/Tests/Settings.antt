-- ===== src/Tests/Settings.antt =====
-- Runs of settings.py and live.py.
use bosch_shc_camera_client.Common.{
  ◌≡◌, refl, true, false, String, [], ◌∷◌, ◌++◌, none, some, arith,
}
use bosch_shc_camera_client.Common.Texts.{Text, codes, split}
use bosch_shc_camera_client.Common.Decimal.{decimal}
use bosch_shc_camera_client.Common.Dict.{string_key, Dict, get, update}
use bosch_shc_camera_client.Common.Integers.{pos}
use bosch_shc_camera_client.Cloud.Json.{
  Json, Float, finite, null, int, string, array, object, items_of, fields_of, entries,
}
use bosch_shc_camera_client.Cloud.Wire.{put_method, empty_body, done}
use bosch_shc_camera_client.Cloud.Wire.Rules.{Raises, Returns}
use bosch_shc_camera_client.Cloud.Settings.{send, merge_put}
use bosch_shc_camera_client.Cloud.Settings.Values.{
  Region, is_unit, check_regions, regions_of, check_region, region_values,
}
use bosch_shc_camera_client.Cloud.Settings.Merging.{read_request, write_request, merge_put_lem}
use bosch_shc_camera_client.Cloud.Settings.Regions.{regions_of-check_regions}
use bosch_shc_camera_client.Cloud.Settings.Errors.{IsWriteError, send-IsWriteError}
use bosch_shc_camera_client.Cloud.Live.{
  is_host, is_label, is_label_char, partition_colon, checked_address, open_local_live_connection,
}
use bosch_shc_camera_client.Cloud.Live.Address.{checked_address-join}
use bosch_shc_camera_client.Cloud.Live.Usable.{IsUsable, open_local_live_connection-IsUsable}
use bosch_shc_camera_client.Tests.Requests.{token, api, always}

abbrev camera : Text
camera = codes "A"

abbrev current : Dict String Json
current = ("motionLightSensitivity", int (pos 1)) ∷ ("mode", null) ∷ []

abbrev changes : Dict String Json
changes = ("motionLightSensitivity", int (pos 3)) ∷ []

merge_put_example :
    ((merge_put (always (object (fields_of current))) token api camera (codes "audio") changes []).1
      ≡ ([]
          ++ read_request (always (object (fields_of current))) token api camera (codes "audio")
            ∷ [])
        ++ write_request
            (always (object (fields_of current)))
            token
            api
            camera
            (codes "audio")
            (update (entries (fields_of current)) changes)
          ∷ [])
    × ((key : String)
        → get key (update (entries (fields_of current)) changes) ≡ (elim (get key changes) [
          | none ↦ get key (entries (fields_of current))
          | some v ↦ some v
        ]))
unfolding fields_of entries
merge_put_example =
    merge_put_lem (always (object (fields_of current))) token api camera (codes "audio") changes
      (fields_of current) [] refl (tt, tt) refl refl

abbrev half : Float
half = finite false 1 1

abbrev corner : Region
corner = record { x = half; y = half; w = half; h = half }

regions_of-check_regions_example :
    regions_of (array (items_of (object (fields_of (region_values corner)) ∷ [])))
    ≡ done (corner ∷ [])
unfolding check_regions check_region is_unit
regions_of-check_regions_example =
    regions_of-check_regions (corner ∷ []) (object (fields_of (region_values corner)) ∷ []) refl

send-IsWriteError_example : Raises IsWriteError (send (always null) token put_method api empty_body)
send-IsWriteError_example = send-IsWriteError (always null) token put_method api empty_body

checked_address-join_example :
    checked_address (partition_colon (codes "cam-1.lan" ++ b':' ∷ decimal 443))
    ≡ done (codes "cam-1.lan", 443)
unfolding is_host is_label is_label_char split
checked_address-join_example =
    checked_address-join (codes "cam-1.lan") 443 refl (omega arith) (omega arith)

abbrev session : Json
unfolding fields_of items_of
session = object (
    fields_of (
      ("user", string (codes "u"))
      ∷ ("password", string (codes "p"))
      ∷ ("urls", array (items_of (string (codes "cam:443") ∷ [])))
      ∷ []))

open_local_live_connection-IsUsable_example :
    Returns IsUsable (open_local_live_connection (always session) token api camera true)
open_local_live_connection-IsUsable_example =
    open_local_live_connection-IsUsable (always session) token api camera true
