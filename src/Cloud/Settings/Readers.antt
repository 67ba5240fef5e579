-- ===== src/Cloud/Settings/Readers.antt =====
-- settings.py: the readers. Each is one GET; `str.upper` is a parameter.
use bosch_shc_camera_client.Common.{Bool, List, Option, some, String}
use bosch_shc_camera_client.Common.Texts.{Text, codes}
use bosch_shc_camera_client.Common.Dict.{string_key, Dict}
use bosch_shc_camera_client.Common.Integers.{ℤ}
use bosch_shc_camera_client.Cloud.Json.{
  Float, Json, object, entries, item, number_of, integer_of, flag_of,
}
use bosch_shc_camera_client.Cloud.Wire.{
  Server, invalid_response, Outcome, done, failed, Call, ◌>>=◌, pure, give,
}
use bosch_shc_camera_client.Cloud.Actions.{video_input_url}
use bosch_shc_camera_client.Cloud.Settings.{fetch, get_setting}
use bosch_shc_camera_client.Cloud.Settings.Values.{
  Region, regions_of, schedule_statuses, detection_modes, upper_text_of, enum_of,
}

pub record LightingOverride : Type 0 where
  pub front_light_on : Bool
  pub wallwasher_on : Bool
  pub front_light_intensity : Option Float

pub record LightingOptions : Type 0 where
  pub schedule_status : Option Text
  pub raw : Dict String Json

pub record MotionLighting : Type 0 where
  pub sensitivity : Option ℤ
  pub raw : Dict String Json

pub record AmbientLighting : Type 0 where
  pub enabled : Option Bool
  pub schedule_type : Option Text
  pub raw : Dict String Json

pub record AudioSettings : Type 0 where
  pub audio_enabled : Option Bool
  pub microphone_level : Option ℤ
  pub speaker_level : Option ℤ
  pub raw : Dict String Json

pub record IntrusionDetectionConfig : Type 0 where
  pub detection_mode : Option Text
  pub sensitivity : Option ℤ
  pub distance : Option ℤ
  pub raw : Dict String Json

pub record AlarmStatus : Type 0 where
  pub alarm_type : Option Text
  pub intrusion_system : Option Text

abbrev override_from : Option Bool → Option Bool → Option Float → Outcome LightingOverride
override_from (some front) (some wall) x =
    done (record { front_light_on = front; wallwasher_on = wall; front_light_intensity = x })
override_from _ _ x = failed invalid_response

unfoldable pub lighting_override_of : Dict String Json → Outcome LightingOverride
unfolding item flag_of number_of
lighting_override_of d =
    override_from (flag_of (item "frontLightOn" d)) (flag_of (item "wallwasherOn" d))
      (number_of (item "frontLightIntensity" d))

unfoldable pub motion_lighting_of : Dict String Json → MotionLighting
unfolding item integer_of
motion_lighting_of d = record {
  sensitivity = integer_of (item "motionLightSensitivity" d);
  raw = d;
}

unfoldable pub audio_of : Dict String Json → AudioSettings
unfolding item flag_of integer_of
audio_of d = record {
  audio_enabled = flag_of (item "audioEnabled" d);
  microphone_level = integer_of (item "microphoneLevel" d);
  speaker_level = integer_of (item "speakerLevel" d);
  raw = d;
}

-- if isinstance(schedule, dict): schedule = schedule.get("type")
abbrev type_of_schedule : Json → Json
unfolding item
type_of_schedule (object fs) = item "type" (entries fs)
type_of_schedule v = v

module _ (upper : Text → Text) where
  unfoldable pub lighting_options_of : Dict String Json → LightingOptions
  unfolding item enum_of
  lighting_options_of d = record {
    schedule_status = enum_of upper schedule_statuses (item "scheduleStatus" d);
    raw = d;
  }

  unfoldable pub ambient_of : Dict String Json → AmbientLighting
  unfolding item flag_of upper_text_of type_of_schedule
  ambient_of d = record {
    enabled = flag_of (item "ambientLightEnabled" d);
    schedule_type = upper_text_of upper (type_of_schedule (item "ambientLightSchedule" d));
    raw = d;
  }

  unfoldable pub intrusion_of : Dict String Json → IntrusionDetectionConfig
  unfolding item enum_of integer_of
  intrusion_of d = record {
    detection_mode = enum_of upper detection_modes (item "detectionMode" d);
    sensitivity = integer_of (item "sensitivity" d);
    distance = integer_of (item "distance" d);
    raw = d;
  }

  unfoldable pub alarm_of : Dict String Json → AlarmStatus
  unfolding item upper_text_of
  alarm_of d = record {
    alarm_type = upper_text_of upper (item "alarmType" d);
    intrusion_system = upper_text_of upper (item "intrusionSystem" d);
  }

module _ (server : Server) (token api_url cam_id : Text) where
  unfoldable pub get_lighting_override : Call LightingOverride
  unfolding get_setting lighting_override_of
  get_lighting_override = do
    data_read ← get_setting server token api_url cam_id (codes "lighting_override")
    give (lighting_override_of data_read)

  unfoldable pub get_motion_lighting : Call MotionLighting
  unfolding get_setting motion_lighting_of
  get_motion_lighting = do
    data_read ← get_setting server token api_url cam_id (codes "lighting/motion")
    pure (motion_lighting_of data_read)

  unfoldable pub get_audio_settings : Call AudioSettings
  unfolding get_setting audio_of
  get_audio_settings = do
    data_read ← get_setting server token api_url cam_id (codes "audio")
    pure (audio_of data_read)

  unfoldable pub get_ambient_light_sensor_level : Call (Option Float)
  unfolding get_setting item number_of
  get_ambient_light_sensor_level = do
    data_read ← get_setting server token api_url cam_id (codes "ambient_light_sensor_level")
    pure (number_of (item "ambientLightSensorLevel" data_read))

  unfoldable pub get_lens_elevation : Call (Option Float)
  unfolding get_setting item number_of
  get_lens_elevation = do
    data_read ← get_setting server token api_url cam_id (codes "lens_elevation")
    pure (number_of (item "elevation" data_read))

  unfoldable pub get_regions : Text → Call (List Region)
  unfolding fetch video_input_url regions_of
  get_regions endpoint = do
    payload ← fetch server token (video_input_url api_url cam_id endpoint)
    give (regions_of payload)

  unfoldable pub get_motion_zones : Call (List Region)
  unfolding get_regions
  get_motion_zones = get_regions (codes "motion_sensitive_areas")

  unfoldable pub get_privacy_masks : Call (List Region)
  unfolding get_regions
  get_privacy_masks = get_regions (codes "privacy_masks")

  module _ (upper : Text → Text) where
    unfoldable pub get_lighting_options : Call LightingOptions
    unfolding get_setting lighting_options_of
    get_lighting_options = do
      data_read ← get_setting server token api_url cam_id (codes "lighting_options")
      pure (lighting_options_of upper data_read)

    unfoldable pub get_ambient_lighting : Call AmbientLighting
    unfolding get_setting ambient_of
    get_ambient_lighting = do
      data_read ← get_setting server token api_url cam_id (codes "lighting/ambient")
      pure (ambient_of upper data_read)

    unfoldable pub get_intrusion_detection_config : Call IntrusionDetectionConfig
    unfolding get_setting intrusion_of
    get_intrusion_detection_config = do
      data_read ← get_setting server token api_url cam_id (codes "intrusionDetectionConfig")
      pure (intrusion_of upper data_read)

    unfoldable pub get_alarm_status : Call AlarmStatus
    unfolding get_setting alarm_of
    get_alarm_status = do
      data_read ← get_setting server token api_url cam_id (codes "alarmStatus")
      pure (alarm_of upper data_read)
