-- ===== src/Cloud/Put/Graceful.antt =====
-- cloud.py: what the setters return, and what gets through them.
use bosch_shc_camera_client.Common.{
  Bool, true, false, [], ◌∷◌, Option, none, some, String, ◌≡◌, refl, if◌then◌else◌,
}
use bosch_shc_camera_client.Common.Texts.{Text, codes}
use bosch_shc_camera_client.Common.Dict.{Dict}
use bosch_shc_camera_client.Common.Integers.{ℤ}
use bosch_shc_camera_client.Net.{
  Result, ok, raise, timed_out, client_error, value_error, other_error,
}
use bosch_shc_camera_client.Cloud.Json.{Float, Json, bool, int, object, fields_of}
use bosch_shc_camera_client.Cloud.Wire.{
  json_body, Request, Reading, read, broken, expired, Answer, Server, Error, auth_error,
  connection_error, privacy_mode_error, invalid_response, fault, Outcome, done, failed, Call, ◌>>=◌,
  pure, request, answer_of, value_if_any,
}
use bosch_shc_camera_client.Cloud.Wire.Rules.{
  FailsWith, Gives, Raises, Returns, Raises-pure, Raises-bind, Raises-if, Returns-bind,
  Returns-pure, Returns-any,
}
use bosch_shc_camera_client.Cloud.Actions.{is_ok_status, put_request, video_input_url}
use bosch_shc_camera_client.Cloud.Put.{
  CloudPutResult, dict_if_any, parsed_body, or_unreached, cloud_api, pan_result, result_of_one,
  result_of_two, override_body, put_result, cloud_put_json, set_light_gen1, set_light_gen2,
  cloud_set_camera_light, cloud_set_pan,
}

-- No error of the client, no timeout and no aiohttp.ClientError.
abbrev pub IsUncaught : Error → Type 0
IsUncaught (fault value_error) = Unit
IsUncaught (fault other_error) = Unit
IsUncaught e = ⊥

-- Before the handler: no error of the client.
abbrev IsFault : Error → Type 0
IsFault (fault e) = Unit
IsFault e = ⊥

-- A result tells success by its status; without one it has no body and no text, and a body comes with
-- success only.
abbrev pub IsConsistent : CloudPutResult → Type 0
IsConsistent r = elim r.status [
  | none ↦ (r.ok ≡ false) × (r.body ≡ none) × (r.text ≡ none)
  | some status ↦ (r.ok ≡ is_ok_status status) × (if r.ok then Unit {0} else r.body ≡ none)
]

value_if_any-Raises : {A : Type 0} (r : Reading A) → Raises IsFault (value_if_any r)
unfolding value_if_any
value_if_any-Raises (read a) = Raises-pure (some a)
value_if_any-Raises (broken e) = Raises-pure none
value_if_any-Raises expired = record { at = λ sent. tt }

parsed_body-Raises : (resp : Answer) → Raises IsFault (parsed_body resp)
unfolding parsed_body
parsed_body-Raises resp =
    Raises-if (is_ok_status resp.status)
      (value_if_any resp.json >>= λ candidate. pure (dict_if_any candidate)) (pure none)
      (Raises-bind (value_if_any resp.json) (λ candidate. pure (dict_if_any candidate))
        (value_if_any-Raises resp.json) (λ candidate. Raises-pure (dict_if_any candidate)))
      (Raises-pure none)

-- What the read of the body leaves: no body without success.
abbrev IsRead : Bool → Option (Dict String Json) → Type 0
IsRead b body = if b then Unit {0} else body ≡ none

parsed_body-Returns :
    (resp : Answer) → Returns (IsRead (is_ok_status resp.status)) (parsed_body resp)
unfolding parsed_body
parsed_body-Returns resp = cases (is_ok_status resp.status)
  where
    kept : Call (Option (Dict String Json))
    kept = value_if_any resp.json >>= λ candidate. pure (dict_if_any candidate)

    cases : (b : Bool) → Returns (IsRead b) (if b then kept else pure none)
    cases true =
        Returns-bind (value_if_any resp.json) (λ candidate. pure (dict_if_any candidate))
          (Returns-any (value_if_any resp.json))
          (λ candidate _. Returns-pure (dict_if_any candidate) tt)
    cases false = Returns-pure none refl

module _ (resp : Answer) where
  abbrev result : Option Text → Option (Dict String Json) → CloudPutResult
  result text parsed = record {
    ok = is_ok_status resp.status;
    status = some resp.status;
    body = parsed;
    text = text;
  }

  put_result-Raises : Raises IsFault (put_result resp)
  unfolding put_result
  put_result-Raises =
      Raises-bind (value_if_any resp.text)
        (λ text. parsed_body resp >>= λ parsed. pure (result text parsed))
        (value_if_any-Raises resp.text)
        (λ text.
          Raises-bind (parsed_body resp) (λ parsed. pure (result text parsed))
            (parsed_body-Raises resp) (λ parsed. Raises-pure (result text parsed)))

  put_result-Returns : Returns IsConsistent (put_result resp)
  unfolding put_result
  put_result-Returns =
      Returns-bind (value_if_any resp.text)
        (λ text. parsed_body resp >>= λ parsed. pure (result text parsed))
        (Returns-any (value_if_any resp.text))
        (λ text _.
          Returns-bind (parsed_body resp) (λ parsed. pure (result text parsed))
            (parsed_body-Returns resp) (λ parsed h. Returns-pure (result text parsed) (refl, h)))

or_unreached-FailsWith :
    (r : Outcome CloudPutResult) → FailsWith IsFault r → FailsWith IsUncaught (or_unreached r)
unfolding or_unreached
or_unreached-FailsWith (done r) h = tt
or_unreached-FailsWith (failed (fault timed_out)) h = tt
or_unreached-FailsWith (failed (fault client_error)) h = tt
or_unreached-FailsWith (failed (fault value_error)) h = tt
or_unreached-FailsWith (failed (fault other_error)) h = tt
or_unreached-FailsWith (failed (auth_error s b)) h = h
or_unreached-FailsWith (failed (connection_error s b)) h = h
or_unreached-FailsWith (failed (privacy_mode_error s b)) h = h
or_unreached-FailsWith (failed invalid_response) h = h

or_unreached-Gives :
    (r : Outcome CloudPutResult) → Gives IsConsistent r → Gives IsConsistent (or_unreached r)
unfolding or_unreached
or_unreached-Gives (done r) h = h
or_unreached-Gives (failed (fault timed_out)) h = (refl, refl, refl)
or_unreached-Gives (failed (fault client_error)) h = (refl, refl, refl)
or_unreached-Gives (failed (fault value_error)) h = tt
or_unreached-Gives (failed (fault other_error)) h = tt
or_unreached-Gives (failed (auth_error s b)) h = tt
or_unreached-Gives (failed (connection_error s b)) h = tt
or_unreached-Gives (failed (privacy_mode_error s b)) h = tt
or_unreached-Gives (failed invalid_response) h = tt

answer_of-FailsWith : (r : Result Answer) → FailsWith IsFault (answer_of r)
answer_of-FailsWith (ok a) = tt
answer_of-FailsWith (raise e) = tt

module _ (server : Server) (token : Text) where
  cloud_put_json-Raises :
      (url : Text) (body : Dict String Json)
      → Raises IsUncaught (cloud_put_json server token url body)
  unfolding cloud_put_json
  cloud_put_json-Raises url body = record {
    at = λ sent. or_unreached-FailsWith ((request server q >>= put_result) sent).0 (inner.at sent);
  }
    where
      q : Request
      q = put_request token url (json_body (object (fields_of body)))

      inner : Raises IsFault (request server q >>= put_result)
      inner =
          Raises-bind (request server q) put_result
            (record { at = λ sent. answer_of-FailsWith (server sent q) }) put_result-Raises

  cloud_put_json-Returns :
      (url : Text) (body : Dict String Json)
      → Returns IsConsistent (cloud_put_json server token url body)
  unfolding cloud_put_json
  cloud_put_json-Returns url body = record {
    at = λ sent. or_unreached-Gives ((request server q >>= put_result) sent).0 (inner.at sent);
  }
    where
      q : Request
      q = put_request token url (json_body (object (fields_of body)))

      inner : Returns IsConsistent (request server q >>= put_result)
      inner =
          Returns-bind (request server q) put_result (Returns-any (request server q))
            (λ resp _. put_result-Returns resp)

  -- What `cloud_put_json` returns tells success by the status, 200, 201 or 204, and has a body only
  -- then; a result without a status has no body and no text. It fails with no error of the client, no
  -- timeout and no aiohttp.ClientError.
  pub cloud_put_json-IsConsistent :
      (url : Text) (body : Dict String Json)
      → Returns IsConsistent (cloud_put_json server token url body)
        × Raises IsUncaught (cloud_put_json server token url body)
  cloud_put_json-IsConsistent url body =
      (cloud_put_json-Returns url body, cloud_put_json-Raises url body)

  -- The URL of an endpoint of a camera.
  abbrev endpoint : Text → Text → Text
  endpoint cam_id action = video_input_url cloud_api cam_id action

  gen2-Raises :
      (cam_id : Text) (on : Bool) → Raises IsUncaught (set_light_gen2 server token cam_id on)
  unfolding set_light_gen2
  gen2-Raises cam_id on =
      Raises-bind
        (cloud_put_json server token (endpoint cam_id (codes "lighting/switch/front")) body)
        (λ r1. topdown >>= λ r2. pure (result_of_two r1 r2))
        (cloud_put_json-Raises (endpoint cam_id (codes "lighting/switch/front")) body)
        (λ r1.
          Raises-bind topdown (λ r2. pure (result_of_two r1 r2))
            (cloud_put_json-Raises (endpoint cam_id (codes "lighting/switch/topdown")) body)
            (λ r2. Raises-pure (result_of_two r1 r2)))
    where
      body : Dict String Json
      body = ("enabled", bool on) ∷ []

      topdown : Call CloudPutResult
      topdown = cloud_put_json server token (endpoint cam_id (codes "lighting/switch/topdown")) body

  gen1-Raises :
      (cam_id : Text) (on : Bool) (intensity : Float)
      → Raises IsUncaught (set_light_gen1 server token cam_id on intensity)
  unfolding set_light_gen1
  gen1-Raises cam_id on intensity =
      Raises-bind
        (cloud_put_json server token (endpoint cam_id (codes "lighting_override"))
          (override_body on intensity))
        (λ r. pure (result_of_one r))
        (cloud_put_json-Raises (endpoint cam_id (codes "lighting_override"))
          (override_body on intensity))
        (λ r. Raises-pure (result_of_one r))

  pan-Raises :
      (cam_id : Text) (position : ℤ)
      → Raises IsUncaught (cloud_set_pan server token cam_id position)
  unfolding cloud_set_pan
  pan-Raises cam_id position =
      Raises-bind
        (cloud_put_json server token (endpoint cam_id (codes "pan"))
          (("absolutePosition", int position) ∷ []))
        (λ r. pure (pan_result position r))
        (cloud_put_json-Raises (endpoint cam_id (codes "pan"))
          (("absolutePosition", int position) ∷ []))
        (λ r. Raises-pure (pan_result position r))

  -- The setters of the camera's light, of both generations, and of the pan fail with no error of the
  -- client, no timeout and no aiohttp.ClientError.
  pub setters-IsUncaught :
      (cam_id : Text) (on gen2 : Bool) (intensity : Float) (position : ℤ)
      → Raises IsUncaught (cloud_set_camera_light server token cam_id on gen2 intensity)
        × Raises IsUncaught (cloud_set_pan server token cam_id position)
  unfolding cloud_set_camera_light
  setters-IsUncaught cam_id on gen2 intensity position = (
    Raises-if gen2 (set_light_gen2 server token cam_id on)
        (set_light_gen1 server token cam_id on intensity) (gen2-Raises cam_id on)
        (gen1-Raises cam_id on intensity),
    pan-Raises cam_id position,
  )
