-- ===== src/Cloud/Settings/Writers.antt =====
-- settings.py: the writers. A level may be any value, as the code checks its type.
use bosch_shc_camera_client.Common.{
  Bool, true, false, List, [], ◌∷◌, ◌++◌, Option, none, some, String, if◌then◌else◌, is_empty,
}
use bosch_shc_camera_client.Common.Texts.{Text, codes}
use bosch_shc_camera_client.Common.Dict.{string_key, Dict}
use bosch_shc_camera_client.Net.{value_error}
use bosch_shc_camera_client.Cloud.Json.{
  Float, finite, Json, bool, real, string, array, object, items_of, fields_of,
}
use bosch_shc_camera_client.Cloud.Wire.{
  put_method, post_method, json_body, Server, fault, Outcome, done, failed, Call, ◌>>=◌, fail, give,
}
use bosch_shc_camera_client.Cloud.Actions.{video_input_url}
use bosch_shc_camera_client.Cloud.Settings.{SettingWriteResult, send, merge_put}
use bosch_shc_camera_client.Cloud.Settings.Values.{
  is_within, Region, is_unit, check_regions, round_hundredths, schedule_statuses, has_value,
}

-- The body of a light override; the intensity counts only with the front light on.
unfoldable pub override_body : Bool → Bool → Option Float → Outcome (Dict String Json)
unfolding is_unit
override_body true wall (some x) =
    if is_unit x
    then done (
        ("frontLightOn", bool true)
        ∷ ("wallwasherOn", bool wall)
        ∷ ("frontLightIntensity", real x)
        ∷ [])
    else failed (fault value_error)
override_body front wall x = done (("frontLightOn", bool front) ∷ ("wallwasherOn", bool wall) ∷ [])

-- One level of the audio settings, if it is given.
unfoldable pub level_change : String → Option Json → Outcome (Dict String Json)
unfolding is_within
level_change key none = done []
level_change key (some level) =
    if is_within 0 100 level then done ((key, level) ∷ []) else failed (fault value_error)

abbrev pub enabled_change : Option Bool → Dict String Json
enabled_change none = []
enabled_change (some b) = ("audioEnabled", bool b) ∷ []

abbrev pub joined :
    Dict String Json
    → Outcome (Dict String Json)
    → Outcome (Dict String Json)
    → Outcome (Dict String Json)
joined enabled (failed e) speaker = failed e
joined enabled (done m) (failed e) = failed e
joined enabled (done m) (done s) = done (enabled ++ m ++ s)

unfoldable pub audio_changes : Option Bool → Option Json → Option Json → Outcome (Dict String Json)
unfolding level_change
audio_changes enabled microphone speaker =
    joined (enabled_change enabled) (level_change "microphoneLevel" microphone)
      (level_change "speakerLevel" speaker)

abbrev pub is_finite : Float → Bool
is_finite (finite s m k) = true
is_finite x = false

module _ (server : Server) (token api_url cam_id : Text) where
  unfoldable pub set_lighting_override : Bool → Bool → Option Float → Call SettingWriteResult
  unfolding override_body send video_input_url fields_of
  set_lighting_override front wall intensity = do
    body ← give (override_body front wall intensity)
    send server token put_method (video_input_url api_url cam_id (codes "lighting_override"))
        (json_body (object (fields_of body)))

  unfoldable pub set_schedule_status : Text → Call SettingWriteResult
  unfolding merge_put
  set_schedule_status status =
      if has_value schedule_statuses status
      then merge_put server token api_url cam_id (codes "lighting_options")
          (("scheduleStatus", string status) ∷ [])
      else fail (fault value_error)

  unfoldable pub set_motion_light_sensitivity : Json → Call SettingWriteResult
  unfolding merge_put is_within
  set_motion_light_sensitivity sensitivity =
      if is_within 1 5 sensitivity
      then merge_put server token api_url cam_id (codes "lighting/motion")
          (("motionLightSensitivity", sensitivity) ∷ [])
      else fail (fault value_error)

  unfoldable pub set_audio_settings :
      Option Bool → Option Json → Option Json → Call SettingWriteResult
  unfolding merge_put audio_changes
  set_audio_settings enabled microphone speaker = do
    changes ← give (audio_changes enabled microphone speaker)
    merge_put server token api_url cam_id (codes "audio") changes

  unfoldable pub set_lens_elevation : Float → Call SettingWriteResult
  unfolding send video_input_url fields_of round_hundredths
  set_lens_elevation elevation =
      if is_finite elevation
      then send server token put_method (video_input_url api_url cam_id (codes "lens_elevation"))
          (json_body (object (fields_of (("elevation", real (round_hundredths elevation)) ∷ []))))
      else fail (fault value_error)

  unfoldable pub set_intrusion_detection_config : Dict String Json → Call SettingWriteResult
  unfolding merge_put
  set_intrusion_detection_config changes =
      if is_empty changes
      then fail (fault value_error)
      else merge_put server token api_url cam_id (codes "intrusionDetectionConfig") changes

  unfoldable pub set_regions : Text → List Region → Call SettingWriteResult
  unfolding check_regions send video_input_url items_of
  set_regions endpoint regions = do
    body ← give (check_regions regions)
    send server token post_method (video_input_url api_url cam_id endpoint)
        (json_body (array (items_of body)))

  unfoldable pub set_motion_zones : List Region → Call SettingWriteResult
  unfolding set_regions
  set_motion_zones zones = set_regions (codes "motion_sensitive_areas") zones

  unfoldable pub set_privacy_masks : List Region → Call SettingWriteResult
  unfolding set_regions
  set_privacy_masks masks = set_regions (codes "privacy_masks") masks
