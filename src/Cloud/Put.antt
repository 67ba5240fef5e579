-- ===== src/Cloud/Put.antt =====
-- cloud.py: `cloud_put_json` and the four setters on it, none of which raises an error of the client.
pub mod Graceful
use bosch_shc_camera_client.Common.{
  ℕ, Bool, true, false, ◌||◌, List, [], ◌∷◌, ◌++◌, Option, none, some, String, if◌then◌else◌,
}
use bosch_shc_camera_client.Common.Texts.{Text, codes}
use bosch_shc_camera_client.Common.Dict.{string_key, Dict, get}
use bosch_shc_camera_client.Common.Integers.{ℤ, pos, negsuc}
use bosch_shc_camera_client.Net.{timed_out, client_error}
use bosch_shc_camera_client.Cloud.Json.{
  Float, finite, Json, null, bool, int, real, string, object, entries, fields_of, item,
}
use bosch_shc_camera_client.Cloud.Wire.{
  json_body, Request, Answer, Server, Error, fault, Outcome, done, failed, Call, ◌>>=◌, pure,
  request, value_if_any, continue,
}
use bosch_shc_camera_client.Cloud.Actions.{is_ok_status, put_request, video_input_url}

pub record CloudPutResult : Type 0 where
  pub ok : Bool
  pub status : Option ℕ
  pub body : Option (Dict String Json)
  pub text : Option Text

-- The candidate, if it is an object.
abbrev dict_if_any : Option Json → Option (Dict String Json)
dict_if_any (some (object fs)) = some (entries fs)
dict_if_any _ = none

-- The JSON of the answer is read on success only.
unfoldable pub parsed_body : Answer → Call (Option (Dict String Json))
unfolding value_if_any
parsed_body resp =
    if is_ok_status resp.status
    then (do candidate ← value_if_any resp.json; pure (dict_if_any candidate))
    else pure none

-- except (TimeoutError, aiohttp.ClientError)
unfoldable pub or_unreached : Outcome CloudPutResult → Outcome CloudPutResult
or_unreached (failed (fault timed_out)) =
    done (record { ok = false; status = none; body = none; text = none })
or_unreached (failed (fault client_error)) =
    done (record { ok = false; status = none; body = none; text = none })
or_unreached r = r

abbrev pub cloud_api : Text
cloud_api = codes "https://residential.cbs.boschsecurity.com"

pub record CameraLightSetResult : Type 0 where
  pub ok : Bool
  pub status : Option ℕ
  pub text : Option Text
  pub topdown_status : Option ℕ
  pub topdown_text : Option Text

pub record PanSetResult : Type 0 where
  pub ok : Bool
  pub status : Option ℕ
  pub position : Option Json
  pub eta_ms : Json

abbrev or_default : Option Json → Json → Json
or_default none d = d
or_default (some v) d = v

-- result.body.get(key, default), with the default without a body as well
abbrev read_or : String → Json → Option (Dict String Json) → Json
read_or key d none = d
read_or key d (some body) = or_default (get key body) d

unfoldable pub pan_result : ℤ → CloudPutResult → PanSetResult
pan_result position r =
    if r.ok
    then record {
      ok = true;
      status = r.status;
      position = some (read_or "currentAbsolutePosition" (int position) r.body);
      eta_ms = read_or "estimatedTimeToCompletion" (int (pos 0)) r.body;
    }
    else record { ok = false; status = r.status; position = none; eta_ms = int (pos 0) }

abbrev pub result_of_two : CloudPutResult → CloudPutResult → CameraLightSetResult
result_of_two r1 r2 = record {
  ok = r1.ok || r2.ok;
  status = r1.status;
  text = r1.text;
  topdown_status = r2.status;
  topdown_text = r2.text;
}

abbrev pub result_of_one : CloudPutResult → CameraLightSetResult
result_of_one r = record {
  ok = r.ok;
  status = r.status;
  text = r.text;
  topdown_status = none;
  topdown_text = none;
}

unfoldable pub override_body : Bool → Float → Dict String Json
override_body on last_front_intensity =
    if on
    then ("frontLightOn", bool true)
      ∷ ("wallwasherOn", bool true)
      ∷ ("frontLightIntensity", real last_front_intensity)
      ∷ []
    else ("frontLightOn", bool false) ∷ ("wallwasherOn", bool false) ∷ []

-- The body of the `try` of `cloud_put_json`, on its answer.
unfoldable pub put_result : Answer → Call CloudPutResult
unfolding parsed_body value_if_any
put_result resp = do
  text ← value_if_any resp.text
  parsed ← parsed_body resp
  pure (record {
    ok = is_ok_status resp.status;
    status = some resp.status;
    body = parsed;
    text = text;
  })

module _ (server : Server) (token : Text) where
  unfoldable pub cloud_put_json : Text → Dict String Json → Call CloudPutResult
  unfolding put_result or_unreached put_request fields_of
  cloud_put_json url body sent =
      let r =
        (do
          resp ← request server (put_request token url (json_body (object (fields_of body))))
          put_result resp)
          sent in
      (or_unreached r.0, r.1)

  unfoldable pub cloud_set_privacy_mode : Text → Bool → Call CloudPutResult
  unfolding cloud_put_json video_input_url
  cloud_set_privacy_mode cam_id enabled =
      cloud_put_json (video_input_url cloud_api cam_id (codes "privacy")) (
        ("privacyMode", string (if enabled then codes "ON" else codes "OFF"))
        ∷ ("durationInSeconds", null)
        ∷ [])

  unfoldable pub cloud_set_notifications : Text → Bool → Call CloudPutResult
  unfolding cloud_put_json video_input_url
  cloud_set_notifications cam_id enabled =
      cloud_put_json (video_input_url cloud_api cam_id (codes "enable_notifications")) (
        (
          "enabledNotificationsStatus",
          string (if enabled then codes "FOLLOW_CAMERA_SCHEDULE" else codes "ALWAYS_OFF"),
        )
        ∷ [])

  -- The two requests of a Gen2 camera.
  unfoldable pub set_light_gen2 : Text → Bool → Call CameraLightSetResult
  unfolding cloud_put_json video_input_url
  set_light_gen2 cam_id on = do
    r1 ←
        cloud_put_json (video_input_url cloud_api cam_id (codes "lighting/switch/front"))
          (("enabled", bool on) ∷ [])
    r2 ←
        cloud_put_json (video_input_url cloud_api cam_id (codes "lighting/switch/topdown"))
          (("enabled", bool on) ∷ [])
    pure (result_of_two r1 r2)

  unfoldable pub set_light_gen1 : Text → Bool → Float → Call CameraLightSetResult
  unfolding cloud_put_json video_input_url override_body
  set_light_gen1 cam_id on last_front_intensity = do
    r ←
        cloud_put_json (video_input_url cloud_api cam_id (codes "lighting_override"))
          (override_body on last_front_intensity)
    pure (result_of_one r)

  unfoldable pub cloud_set_camera_light : Text → Bool → Bool → Float → Call CameraLightSetResult
  unfolding set_light_gen1 set_light_gen2
  cloud_set_camera_light cam_id on gen2 last_front_intensity =
      if gen2 then set_light_gen2 cam_id on else set_light_gen1 cam_id on last_front_intensity

  unfoldable pub cloud_set_pan : Text → ℤ → Call PanSetResult
  unfolding cloud_put_json video_input_url pan_result
  cloud_set_pan cam_id position = do
    r ←
        cloud_put_json (video_input_url cloud_api cam_id (codes "pan"))
          (("absolutePosition", int position) ∷ [])
    pure (pan_result position r)
