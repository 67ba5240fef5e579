-- ===== src/Cloud/States/Ranges.antt =====
-- states.py: ints that no float can hold.
use bosch_shc_camera_client.Common.{ℕ, String, ◌^◌, ◌≤◌, List, none, some, ◌≡◌, refl, le→leb}
use bosch_shc_camera_client.Common.Texts.{Text, codes}
use bosch_shc_camera_client.Common.Dict.{string_key, Dict, get}
use bosch_shc_camera_client.Common.Integers.{pos}
use bosch_shc_camera_client.Net.{other_error}
use bosch_shc_camera_client.Cloud.Json.{
  Json, Fields, int, object, entries, item, double_of, float_of_int, number_of, integer_of,
}
use bosch_shc_camera_client.Cloud.Wire.{Request, Server, failed, fault, get_request}
use bosch_shc_camera_client.Cloud.Wire.Fetch.{carried, fetch_json_done}
use bosch_shc_camera_client.Cloud.Actions.{video_input_url}
use bosch_shc_camera_client.Cloud.States.{finite_number, signal_of, get_object, get_wifi_info}

double_of_huge : (n : ℕ) → 2 ^ 1024 ≤ n → double_of n ≡ none
unfolding double_of
double_of_huge n h = rw (le→leb (2 ^ 1024) n h) refl

float_of_huge : (n : ℕ) → 2 ^ 1024 ≤ n → float_of_int (pos n) ≡ none
unfolding float_of_int
float_of_huge n h = rw (float_of_int, double_of_huge n h) refl

signal_of_huge :
    (v : Json) (n : ℕ) → v ≡ int (pos n) → 2 ^ 1024 ≤ n → signal_of v ≡ failed (fault other_error)
unfolding signal_of finite_number
signal_of_huge v n e h = rw (e, signal_of, finite_number, float_of_huge n h) refl

integer_of_huge : (n : ℕ) → 2 ^ 1024 ≤ n → integer_of (int (pos n)) ≡ none
unfolding integer_of number_of
integer_of_huge n h = rw (integer_of, number_of, float_of_huge n h) refl

item_found : (key : String) (d : Dict String Json) (v : Json) → get key d ≡ some v → item key d ≡ v
unfolding item
item_found key d v h = rw (item, h) refl

-- A signal strength that is an int of at least 2 ^ 1024 makes `get_wifi_info` fail with an exception
-- that is no error of the client (OverflowError), where the number reader of settings.py gives None.
pub get_wifi_info-overflow :
    (server : Server) (token api_url camera_id : Text) (sent : List Request) (fs : Fields) (n : ℕ)
    → carried
        (server sent (get_request token (video_input_url api_url camera_id (codes "wifiinfo"))))
      ≡ some (object fs)
    → get "signalStrength" (entries fs) ≡ some (int (pos n))
    → 2 ^ 1024 ≤ n
    → ((get_wifi_info server token api_url camera_id sent).0 ≡ failed (fault other_error))
      × (integer_of (int (pos n)) ≡ none)
unfolding get_wifi_info get_object
get_wifi_info-overflow server token api_url camera_id sent fs n h signal huge = (
  rw
      (
        fetch_json_done server token (video_input_url api_url camera_id (codes "wifiinfo")) sent
            (object fs) h,
        signal_of_huge (item "signalStrength" (entries fs)) n
            (item_found "signalStrength" (entries fs) (int (pos n)) signal) huge,
      )
      refl,
  integer_of_huge n huge,
)
