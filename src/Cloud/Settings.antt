-- ===== src/Cloud/Settings.antt =====
-- settings.py: the shared reading and sending, and the raw access to an endpoint by its name.
pub mod Values
pub mod Readers
pub mod Writers
pub mod Merging
pub mod Storing
pub mod Audio
pub mod Regions
pub mod Checks
pub mod Errors
use bosch_shc_camera_client.Common.{
  ℕ, Bool, true, false, not, ◌&&◌, ◌||◌, List, [], ◌∷◌, ◌++◌, Option, none, some, String, leb, ltb,
  ◌==◌, if◌then◌else◌, is_empty, all, any, length,
}
use bosch_shc_camera_client.Common.Texts.{Text, codes, split}
use bosch_shc_camera_client.Common.Dict.{string_key, Dict, update}
use bosch_shc_camera_client.Net.{value_error, timed_out, client_error}
use bosch_shc_camera_client.Cloud.Json.{Float, finite, Json, null, real, object, entries, fields_of}
use bosch_shc_camera_client.Cloud.Wire.{
  Method, get_method, put_method, post_method, Payload, empty_body, json_body, Request, read,
  broken, expired, Reading, Answer, Server, Error, auth_error, connection_error, privacy_mode_error,
  invalid_response, fault, Outcome, done, failed, Call, ◌>>=◌, ◌>>◌, pure, fail, give, request,
  relabel, as_connection, value_of, is_rejected, read_error_body, get_request, fetch_json, continue,
}
use bosch_shc_camera_client.Cloud.Actions.{is_ok_status, video_input_url}
use bosch_shc_camera_client.Cloud.States.{object_of}

abbrev pub privacy_status : ℕ
privacy_status = 443

-- HTTP 443 as the privacy mode error.
unfoldable pub as_privacy : Error → Error
as_privacy (connection_error (some status) body) =
    if status == privacy_status
    then privacy_mode_error (some status) body
    else connection_error (some status) body
as_privacy e = e

unfoldable pub fetch : Server → Text → Text → Call Json
unfolding as_privacy
fetch server token url = relabel as_privacy (fetch_json server token url)

-- The error for an answer whose status is none of 200, 201 and 204.
unfoldable pub rejection : ℕ → Option Text → Error
rejection status detail =
    if is_rejected status
    then auth_error (some status) detail
    else if status == privacy_status
    then privacy_mode_error (some status) detail
    else connection_error (some status) detail

pub record SettingWriteResult : Type 0 where
  pub status : ℕ
  pub response : Option (Dict String Json)
  pub sent : Payload

abbrev dict_of : Json → Option (Dict String Json)
dict_of (object fs) = some (entries fs)
dict_of _ = none

-- try: parsed = await resp.json(...) except ValueError: parsed = None
unfoldable pub parsed_of : Reading Json → Call (Option (Dict String Json))
parsed_of (read j) = pure (dict_of j)
parsed_of (broken value_error) = pure none
parsed_of (broken e) = fail (fault e)
parsed_of expired = fail (fault timed_out)

unfoldable pub send_request : Text → Method → Text → Payload → Request
send_request token method url body = record {
  method = method;
  url = url;
  params = [];
  token = token;
  body = body;
  allow_redirects = true;
}

unfoldable pub written : Payload → Answer → Call SettingWriteResult
unfolding parsed_of rejection read_error_body
written body resp =
    if is_ok_status resp.status
    then (do
      parsed ← parsed_of resp.json
      pure (record { status = resp.status; response = parsed; sent = body }))
    else (do detail ← read_error_body resp; fail (rejection resp.status detail))

unfoldable pub send : Server → Text → Method → Text → Payload → Call SettingWriteResult
unfolding written send_request as_connection
send server token method url body =
    relabel as_connection
      (do resp ← request server (send_request token method url body); written body resp)

-- isinstance(v, float) and not math.isfinite(v)
abbrev pub is_unfit : String × Json → Bool
is_unfit (k, real (finite s m e)) = false
is_unfit (k, real x) = true
is_unfit _ = false

-- [A-Za-z_]
unfoldable pub is_word : ℕ → Bool
is_word c = leb b'A' c && leb c b'Z' || leb b'a' c && leb c b'z' || c == b'_'

-- [A-Za-z0-9_-]
unfoldable pub is_id : ℕ → Bool
unfolding is_word
is_id c = is_word c || leb b'0' c && leb c b'9' || c == b'-'

-- p+
abbrev pub is_run : (ℕ → Bool) → Text → Bool
is_run p s = not (is_empty s) && all p s

-- ENDPOINT_PATTERN.fullmatch: one to three names between slashes.
unfoldable pub is_endpoint : Text → Bool
unfolding is_word split
is_endpoint s = leb (length (split b'/' s)) 3 && all (is_run is_word) (split b'/' s)

unfoldable pub is_camera_id : Text → Bool
unfolding is_id
is_camera_id s = is_run is_id s

unfoldable pub check_endpoint : Text → Text → Call Unit
unfolding is_endpoint is_camera_id
check_endpoint endpoint cam_id =
    if is_camera_id cam_id && is_endpoint endpoint then pure tt else fail (fault value_error)

pub record RawResponse : Type 0 where
  pub status : ℕ
  pub body : Json

-- The body of an answer with status 200; one that is not JSON is None.
unfoldable pub raw_body : Reading Json → Call RawResponse
raw_body (read j) = pure (record { status = 200; body = j })
raw_body (broken value_error) = pure (record { status = 200; body = null })
raw_body (broken e) = fail (fault e)
raw_body expired = fail (fault timed_out)

unfoldable pub raw_answer : Answer → Call RawResponse
unfolding raw_body
raw_answer resp =
    if resp.status == 200
    then raw_body resp.json
    else pure (record { status = resp.status; body = null })

-- except (TimeoutError, aiohttp.ClientError): return RawResponse(0, None)
unfoldable pub or_zero : Outcome RawResponse → Outcome RawResponse
or_zero (failed (fault timed_out)) = done (record { status = 0; body = null })
or_zero (failed (fault client_error)) = done (record { status = 0; body = null })
or_zero r = r

-- method not in ("PUT", "POST")
abbrev check_method : Method → Call Unit
check_method get_method = fail (fault value_error)
check_method put_method = pure tt
check_method post_method = pure tt

module _ (server : Server) (token api_url cam_id : Text) where
  unfoldable pub get_setting : Text → Call (Dict String Json)
  unfolding fetch video_input_url
  get_setting endpoint = do
    payload ← fetch server token (video_input_url api_url cam_id endpoint)
    give (object_of payload)

  unfoldable pub put_merged : Text → Dict String Json → Dict String Json → Call SettingWriteResult
  unfolding send video_input_url update fields_of
  put_merged endpoint current changes =
      if is_empty current
      then fail invalid_response
      else send server token put_method (video_input_url api_url cam_id endpoint)
          (json_body (object (fields_of (update current changes))))

  unfoldable pub merge_put : Text → Dict String Json → Call SettingWriteResult
  unfolding get_setting put_merged
  merge_put endpoint changes =
      if any is_unfit changes
      then fail (fault value_error)
      else (do current ← get_setting endpoint; put_merged endpoint current changes)

  unfoldable pub raw_call : Text → Call RawResponse
  unfolding raw_answer or_zero get_request video_input_url
  raw_call endpoint sent =
      let r =
        (do
          resp ← request server (get_request token (video_input_url api_url cam_id endpoint))
          raw_answer resp)
          sent in
      (or_zero r.0, r.1)

  unfoldable pub get_setting_raw : Text → Call RawResponse
  unfolding check_endpoint raw_call
  get_setting_raw endpoint = do check_endpoint endpoint cam_id; raw_call endpoint

  unfoldable pub put_setting : Text → Payload → Method → Call SettingWriteResult
  unfolding check_endpoint send video_input_url
  put_setting endpoint body method = do
    check_endpoint endpoint cam_id
    check_method method
    send server token method (video_input_url api_url cam_id endpoint) body
