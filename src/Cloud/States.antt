-- ===== src/Cloud/States.antt =====
-- states.py: the readers of a camera's state. `str.upper` is a parameter.
pub mod Listing
pub mod Ranges
use bosch_shc_camera_client.Common.{
  ℕ, zero, suc, ◌+◌, ◌/◌, ◌^◌, Bool, true, false, not, ◌||◌, List, [], ◌∷◌, ◌++◌, Option, none,
  some, String, if◌then◌else◌, leb,
}
use bosch_shc_camera_client.Common.Texts.{Text, codes, same}
use bosch_shc_camera_client.Common.Dict.{text_key, string_key, Dict, put}
use bosch_shc_camera_client.Common.Integers.{ℤ, pos, negsuc, signed}
use bosch_shc_camera_client.Net.{other_error}
use bosch_shc_camera_client.Cloud.Json.{
  Float, finite, Json, bool, int, real, string, array, object, elements, entries, item, text_of,
  flag_of, is_true, float_of_int,
}
use bosch_shc_camera_client.Cloud.Wire.{
  Server, invalid_response, fault, Outcome, done, failed, Call, ◌>>=◌, pure, fail, give, fetch_json,
  continue,
}
use bosch_shc_camera_client.Cloud.Cameras.{list_url}
use bosch_shc_camera_client.Cloud.Actions.{video_input_url}

pub record CameraAccountStates : Type 0 where
  pub privacy_mode : Option Bool
  pub notifications_status : Option Text

-- The property `notifications_enabled`.
unfoldable pub notifications_enabled : CameraAccountStates → Option Bool
notifications_enabled s = elim s.notifications_status [
  | none ↦ none
  | some status ↦ some (not (same status (codes "ALWAYS_OFF")))
]

pub record MotionSettings : Type 0 where
  pub enabled : Bool
  pub sensitivity : Option Text

pub record LightState : Type 0 where
  pub front_light_on : Bool
  pub wallwasher_on : Bool
  pub front_light_intensity : Option Float

-- The property `any_on`.
abbrev pub any_on : LightState → Bool
any_on s = s.front_light_on || s.wallwasher_on

pub record FirmwareStatus : Type 0 where
  pub current : Option Text
  pub update : Option Text
  pub up_to_date : Option Bool
  pub updating : Bool

abbrev pub object_of : Json → Outcome (Dict String Json)
object_of (object fs) = done (entries fs)
object_of _ = failed invalid_response

-- A finite number as a float. `math.isfinite` raises OverflowError on an int beyond the floats.
unfoldable pub finite_number : Json → Outcome (Option Float)
unfolding float_of_int
finite_number (int n) = elim (float_of_int n) [
  | none ↦ failed (fault other_error)
  | some x ↦ done (some x)
]
finite_number (real (finite s m k)) = done (some (finite s m k))
finite_number _ = done none

-- int(x) of a finite float
unfoldable pub truncated : Float → ℤ
unfolding signed
truncated (finite s m k) = signed s (m / 2 ^ k)
truncated _ = pos 0

-- The strength as an int: an int stays as it is, if it is in the range of the floats.
unfoldable pub signal_of : Json → Outcome (Option ℤ)
unfolding finite_number truncated
signal_of (int n) = elim (finite_number (int n)) [ failed e ↦ failed e | done x ↦ done (some n) ]
signal_of (real (finite s m k)) = done (some (truncated (finite s m k)))
signal_of _ = done none

-- [(key, value) for ... if isinstance(value, bool)]
unfoldable pub bools_of : Dict String Json → Dict String Bool
bools_of [] = []
bools_of ((k, bool b) ∷ d) = (k, b) ∷ bools_of d
bools_of ((k, _) ∷ d) = bools_of d

unfoldable pub motion_of : Dict String Json → MotionSettings
unfolding item is_true text_of
motion_of d = record {
  enabled = is_true (item "enabled" d);
  sensitivity = text_of (item "motionAlarmConfiguration" d);
}

abbrev light_from : Option Bool → Option Bool → Outcome (Option Float) → Outcome LightState
light_from (some front) (some wall) (done x) =
    done (record { front_light_on = front; wallwasher_on = wall; front_light_intensity = x })
light_from (some front) (some wall) (failed e) = failed e
light_from _ _ _ = failed invalid_response

unfoldable pub light_of : Dict String Json → Outcome LightState
unfolding item flag_of finite_number
light_of d =
    light_from (flag_of (item "frontLightOn" d)) (flag_of (item "wallwasherOn" d))
      (finite_number (item "frontLightIntensity" d))

unfoldable pub firmware_of : Dict String Json → FirmwareStatus
unfolding item text_of flag_of is_true
firmware_of d = record {
  current = text_of (item "current" d);
  update = text_of (item "update" d);
  up_to_date = flag_of (item "upToDate" d);
  updating = is_true (item "updating" d);
}

module _ (upper : Text → Text) where
  -- `privacy.upper() == "ON" if isinstance(privacy, str) and privacy.upper() in ("ON", "OFF")`
  unfoldable pub privacy_mode_of : Json → Option Bool
  privacy_mode_of (string s) =
      if same (upper s) (codes "ON")
      then some true
      else if same (upper s) (codes "OFF")
      then some false
      else none
  privacy_mode_of _ = none

  unfoldable pub account_state_of : Dict String Json → CameraAccountStates
  unfolding item privacy_mode_of text_of
  account_state_of d = record {
    privacy_mode = privacy_mode_of (item "privacyMode" d);
    notifications_status = text_of (item "notificationsEnabledStatus" d);
  }

  -- One entry of the list: other entries than objects with an id are left out.
  unfoldable pub add_state : Json → Dict Text CameraAccountStates → Dict Text CameraAccountStates
  unfolding item account_state_of text_of put
  add_state (object fs) states = elim (text_of (item "id" (entries fs))) [
    | none ↦ states
    | some camera_id ↦ put camera_id (account_state_of (entries fs)) states
  ]
  add_state _ states = states

  unfoldable pub add_states :
      List Json → Dict Text CameraAccountStates → Dict Text CameraAccountStates
  unfolding add_state
  add_states [] states = states
  add_states (x ∷ xs) states = add_states xs (add_state x states)

  unfoldable pub account_states_of : Json → Outcome (Dict Text CameraAccountStates)
  unfolding add_states
  account_states_of (array xs) = done (add_states (elements xs) [])
  account_states_of _ = failed invalid_response

  unfoldable pub get_camera_account_states :
      Server → Text → Text → Call (Dict Text CameraAccountStates)
  unfolding account_states_of
  get_camera_account_states server token api_url = do
    payload ← fetch_json server token (list_url api_url)
    give (account_states_of payload)

module _ (server : Server) (token api_url camera_id : Text) where
  unfoldable pub get_object : Text → Call (Dict String Json)
  get_object endpoint = do
    payload ← fetch_json server token (video_input_url api_url camera_id endpoint)
    give (object_of payload)

  unfoldable pub get_wifi_info : Call (Option ℤ)
  unfolding get_object signal_of
  get_wifi_info = do
    body ← get_object (codes "wifiinfo")
    give (signal_of (item "signalStrength" body))

  unfoldable pub get_motion_settings : Call MotionSettings
  unfolding get_object motion_of
  get_motion_settings = do body ← get_object (codes "motion"); pure (motion_of body)

  unfoldable pub get_notification_types : Call (Dict String Bool)
  unfolding get_object bools_of
  get_notification_types = do body ← get_object (codes "notifications"); pure (bools_of body)

  unfoldable pub get_light_state : Call LightState
  unfolding get_object light_of
  get_light_state = do body ← get_object (codes "lighting_override"); give (light_of body)

  unfoldable pub get_firmware_status : Call FirmwareStatus
  unfolding get_object firmware_of
  get_firmware_status = do body ← get_object (codes "firmware"); pure (firmware_of body)
