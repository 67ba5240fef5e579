-- ===== src/Cloud/Actions.antt =====
-- actions.py: resets, the panic alarm, and the pings. Every call is one request.
use bosch_shc_camera_client.Common.{
  ℕ, Bool, true, false, ◌||◌, [], ◌∷◌, ◌++◌, Option, none, some, ◌==◌, if◌then◌else◌, is_empty,
}
use bosch_shc_camera_client.Common.Texts.{Text, codes, starts_with, strip}
use bosch_shc_camera_client.Rcp.Parse.Catalogs.{is_space}
use bosch_shc_camera_client.Cloud.Json.{string, object, fields_of}
use bosch_shc_camera_client.Cloud.Wire.{
  put_method, Payload, empty_body, json_body, Request, Answer, Server, connection_error, fault,
  invalid_response, Outcome, done, failed, Call, ◌>>=◌, ◌>>◌, pure, fail, request, relabel,
  as_connection, value_of, read_error_body, raise_if_token_rejected, get_request,
}
use bosch_shc_camera_client.Net.{timed_out, client_error}

-- _OK_STATUSES
abbrev pub is_ok_status : ℕ → Bool
is_ok_status status = status == 200 || status == 201 || status == 204

pub record ActionResult : Type 0 where
  pub ok : Bool
  pub status : ℕ

unfoldable pub video_input_url : Text → Text → Text → Text
video_input_url api_url camera_id action =
    api_url ++ codes "/v11/video_inputs/" ++ camera_id ++ codes "/" ++ action

unfoldable pub put_request : Text → Text → Payload → Request
put_request token url body = record {
  method = put_method;
  url = url;
  params = [];
  token = token;
  body = body;
  allow_redirects = true;
}

abbrev session_limit : Text
session_limit = codes "SESSION_LIMIT"

-- text.strip().strip('"')
unfoldable pub unquoted : Text → Text
unfolding is_space
unquoted text = strip (λ c. c == b'"') (strip is_space text)

-- "UPDATING" if text.startswith("UPDATING") else text
unfoldable pub merged : Text → Text
unfolding starts_with
merged text = if starts_with text (codes "UPDATING") then codes "UPDATING" else text

-- The status of a ping, before the check of an empty one: `none` is an answer with HTTP 444.
unfoldable pub ping_text : Answer → Call (Option Text)
unfolding raise_if_token_rejected read_error_body value_of unquoted
ping_text resp = do
  raise_if_token_rejected resp
  if resp.status == 444
      then pure none
      else if resp.status == 200
      then (do text ← value_of resp.text; pure (some (unquoted text)))
      else (do body ← read_error_body resp; fail (connection_error (some resp.status) body))

unfoldable pub ping_status : Option Text → Call Text
unfolding merged
ping_status none = pure session_limit
ping_status (some text) = if is_empty text then fail invalid_response else pure (merged text)

unfoldable pub raw_answer : Answer → Call (Text × Bool)
unfolding value_of unquoted merged
raw_answer resp =
    if resp.status == 444
    then pure (session_limit, true)
    else if resp.status == 200
    then (do text ← value_of resp.text; pure (merged (unquoted text), true))
    else pure ([], false)

-- except (TimeoutError, aiohttp.ClientError): return "", False
unfoldable pub or_unanswered : Outcome (Text × Bool) → Outcome (Text × Bool)
or_unanswered (failed (fault timed_out)) = done ([], false)
or_unanswered (failed (fault client_error)) = done ([], false)
or_unanswered r = r

module _ (server : Server) (token : Text) where
  unfoldable pub put_action : Text → Payload → Call ActionResult
  unfolding put_request raise_if_token_rejected as_connection
  put_action url body = relabel as_connection (do
    resp ← request server (put_request token url body)
    raise_if_token_rejected resp
    pure (record { ok = is_ok_status resp.status; status = resp.status }))

  unfoldable pub soft_reset : Text → Text → Call ActionResult
  unfolding put_action video_input_url
  soft_reset api_url camera_id =
      put_action (video_input_url api_url camera_id (codes "soft_reset")) empty_body

  unfoldable pub hard_reset : Text → Text → Call ActionResult
  unfolding put_action video_input_url
  hard_reset api_url camera_id =
      put_action (video_input_url api_url camera_id (codes "hard_reset")) empty_body

  unfoldable pub panic_alarm : Text → Text → Bool → Call ActionResult
  unfolding put_action video_input_url fields_of
  panic_alarm api_url camera_id enabled =
      put_action (video_input_url api_url camera_id (codes "panic_alarm")) (
        json_body (
          object
            (fields_of (("status", string (if enabled then codes "ON" else codes "OFF")) ∷ []))))

  unfoldable pub ping : Text → Text → Call Text
  unfolding ping_text ping_status video_input_url get_request as_connection
  ping api_url camera_id = do
    text ← relabel as_connection (do
      resp ← request server (get_request token (video_input_url api_url camera_id (codes "ping")))
      ping_text resp)
    ping_status text

  unfoldable pub ping_raw : Text → Text → Call (Text × Bool)
  unfolding raw_answer or_unanswered video_input_url get_request
  ping_raw api_url camera_id sent =
      let r =
        (do
          resp ←
              request server (get_request token (video_input_url api_url camera_id (codes "ping")))
          raw_answer resp)
          sent in
      (or_unanswered r.0, r.1)
