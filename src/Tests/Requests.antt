-- ===== src/Tests/Requests.antt =====
-- Runs of cameras.py, states.py and cloud.py against clouds that give the same answer to everything.
use bosch_shc_camera_client.Common.{
  ◌^◌, ◌≡◌, ◌⊎◌, refl, true, List, [], ◌∷◌, Option, none, some, take, All, arith,
}
use bosch_shc_camera_client.Common.Texts.{Text, codes}
use bosch_shc_camera_client.Common.Dict.{string_key, get}
use bosch_shc_camera_client.Common.Integers.{pos}
use bosch_shc_camera_client.Net.{ok, other_error}
use bosch_shc_camera_client.Cloud.Json.{
  Json, null, bool, int, string, array, object, items_of, fields_of, entries, elements, integer_of,
}
use bosch_shc_camera_client.Cloud.Wire.{
  read, Answer, Server, auth_error, failed, fault, get_request, fetch_json,
}
use bosch_shc_camera_client.Cloud.Wire.Fetch.{given, carried, fetch_json-carried}
use bosch_shc_camera_client.Cloud.Wire.Rules.{Raises, Returns, IsClientError, fetch_json-Raises}
use bosch_shc_camera_client.Cloud.Cameras.{Parsed, events_request, get_latest_event_image}
use bosch_shc_camera_client.Cloud.Cameras.Downloads.{IsImage, get_latest_event_image-IsImage}
use bosch_shc_camera_client.Cloud.Cameras.Requests.{IsSafe, get_latest_event_image-IsSafe}
use bosch_shc_camera_client.Cloud.Cameras.Rejections.{rejected_status}
use bosch_shc_camera_client.Cloud.States.{get_camera_account_states, get_wifi_info}
use bosch_shc_camera_client.Cloud.States.Listing.{found, last_state, get_camera_account_states_lem}
use bosch_shc_camera_client.Cloud.States.Ranges.{get_wifi_info-overflow}
use bosch_shc_camera_client.Cloud.Put.{cloud_put_json}
use bosch_shc_camera_client.Cloud.Put.Graceful.{
  IsConsistent, IsUncaught, cloud_put_json-IsConsistent,
}

abbrev pub token : Text
token = codes "t"

abbrev pub api : Text
api = codes "https://c"

abbrev answer : Json → Answer
answer j = record {
  status = 200;
  json = read j;
  text = read [];
  chunks = (1 ∷ 2 ∷ []) ∷ (3 ∷ []) ∷ [];
  ending = none;
}

abbrev pub always : Json → Server
always j sent q = ok (answer j)

abbrev events : Json
unfolding items_of fields_of
events = array (
    items_of (
      object (fields_of (("imageUrl", string (codes "http://evil/a")) ∷ []))
      ∷ object (fields_of (("imageUrl", string (codes "https://m.bosch.com/a")) ∷ []))
      ∷ []))

abbrev urlparse : Text → Option Parsed
urlparse url = some (record {
  scheme = take 5 url;
  netloc = codes "m.bosch.com";
  hostname = some (codes "m.bosch.com");
})

fetch_json-carried_example :
    given (fetch_json (always (bool true)) token api []).0
    ≡ carried (always (bool true) [] (get_request token api))
fetch_json-carried_example = fetch_json-carried (always (bool true)) token api []

fetch_json-Raises_example : Raises IsClientError (fetch_json (always null) token api)
fetch_json-Raises_example = fetch_json-Raises (always null) token api

get_latest_event_image-IsSafe_example :
    All
      (λ q. (q ≡ events_request api token (codes "A")) ⊎ IsSafe urlparse q)
      (get_latest_event_image urlparse (always events) token api (codes "A") []).1
get_latest_event_image-IsSafe_example =
    get_latest_event_image-IsSafe urlparse (always events) token api (codes "A")

get_latest_event_image-IsImage_example :
    Returns IsImage (get_latest_event_image urlparse (always events) token api (codes "A"))
get_latest_event_image-IsImage_example =
    get_latest_event_image-IsImage urlparse (always events) token api (codes "A")

abbrev claims : Text → Option Json
unfolding fields_of
claims payload = some (object (fields_of (("sub", string payload) ∷ [])))

abbrev refusal : Answer
refusal = record {
  status = 401;
  json = read null;
  text = read (codes "no");
  chunks = [];
  ending = none;
}

abbrev refusing : Server
refusing sent q = ok refusal

rejected_status_example :
    ((fetch_json refusing token api []).0 ≡ failed (auth_error (some 401) (some (codes "no"))))
    × ((get_latest_event_image urlparse refusing token api (codes "A") []).0
        ≡ failed (auth_error none none))
rejected_status_example =
    rejected_status urlparse refusing token api api (codes "A") [] refusal (codes "no") refl refl
      refl refl

abbrev cameras : List Json
unfolding fields_of
cameras =
    object (fields_of (("id", string (codes "A")) ∷ ("privacyMode", string (codes "ON")) ∷ []))
    ∷ null
    ∷ object (fields_of (("id", string (codes "A")) ∷ ("privacyMode", string (codes "OFF")) ∷ []))
    ∷ []

get_camera_account_states_example :
    found
      (λ t. t)
      (codes "A")
      (get_camera_account_states (λ t. t) (always (array (items_of cameras))) token api []).0
    ≡ some (last_state (λ t. t) (codes "A") (elements (items_of cameras)))
get_camera_account_states_example =
    get_camera_account_states_lem (λ t. t) (codes "A") (always (array (items_of cameras))) token api
      [] (items_of cameras) refl

abbrev huge : Json
unfolding fields_of
huge = object (fields_of (("signalStrength", int (pos (2 ^ 1024))) ∷ []))

get_wifi_info-overflow_example :
    ((get_wifi_info (always huge) token api (codes "A") []).0 ≡ failed (fault other_error))
    × (integer_of (int (pos (2 ^ 1024))) ≡ none)
unfolding fields_of get entries
get_wifi_info-overflow_example =
    get_wifi_info-overflow (always huge) token api (codes "A") []
      (fields_of (("signalStrength", int (pos (2 ^ 1024))) ∷ [])) (2 ^ 1024) refl refl (omega arith)

cloud_put_json-IsConsistent_example :
    Returns IsConsistent (cloud_put_json (always null) token api (("enabled", bool true) ∷ []))
    × Raises IsUncaught (cloud_put_json (always null) token api (("enabled", bool true) ∷ []))
cloud_put_json-IsConsistent_example =
    cloud_put_json-IsConsistent (always null) token api (("enabled", bool true) ∷ [])
