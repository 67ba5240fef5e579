-- ===== src/Cloud/Settings/Merging.antt =====
-- settings.py: what `_merge_put` sends.
use bosch_shc_camera_client.Common.{
  false, List, [], ◌∷◌, ◌++◌, none, some, String, ◌≡◌, refl, is_empty, any, arith,
}
use bosch_shc_camera_client.Common.Texts.{Text}
use bosch_shc_camera_client.Common.Dict.{string_key, Dict, get, update, Distinct, get-update}
use bosch_shc_camera_client.Net.{timed_out, client_error, value_error, other_error}
use bosch_shc_camera_client.Cloud.Json.{Json, Fields, object, entries, fields_of}
use bosch_shc_camera_client.Cloud.Wire.{
  put_method, json_body, Method, Payload, Request, Reading, read, broken, expired, Answer, Server,
  Outcome, done, continue, ◌>>=◌, pure, fail, give, renamed, read_error_body, get_request,
  fetch_json,
}
use bosch_shc_camera_client.Cloud.Wire.Fetch.{carried, fetch_json_done}
use bosch_shc_camera_client.Cloud.Wire.Quiet.{
  Quiet, Quiet-give, Quiet-if, Quiet-bind, Quiet-error, bind-sent, fetch_json-sent,
}
use bosch_shc_camera_client.Cloud.Actions.{is_ok_status, video_input_url}
use bosch_shc_camera_client.Cloud.States.{object_of}
use bosch_shc_camera_client.Cloud.Settings.{
  as_privacy, fetch, rejection, parsed_of, send_request, written, send, is_unfit, get_setting,
  put_merged, merge_put,
}

Quiet-parsed_of : (r : Reading Json) → Quiet (parsed_of r)
unfolding parsed_of
Quiet-parsed_of (read j) = record { at = λ sent. refl }
Quiet-parsed_of (broken value_error) = record { at = λ sent. refl }
Quiet-parsed_of (broken timed_out) = record { at = λ sent. refl }
Quiet-parsed_of (broken client_error) = record { at = λ sent. refl }
Quiet-parsed_of (broken other_error) = record { at = λ sent. refl }
Quiet-parsed_of expired = record { at = λ sent. refl }

Quiet-written : (body : Payload) (resp : Answer) → Quiet (written body resp)
unfolding written
Quiet-written body resp =
    Quiet-if (is_ok_status resp.status)
      (parsed_of resp.json >>= λ parsed.
        pure (record { status = resp.status; response = parsed; sent = body }))
      (read_error_body resp >>= λ detail. fail (rejection resp.status detail))
      (Quiet-bind (parsed_of resp.json)
        (λ parsed. pure (record { status = resp.status; response = parsed; sent = body }))
        (Quiet-parsed_of resp.json)
        (λ parsed.
          Quiet-give (done (record { status = resp.status; response = parsed; sent = body }))))
      (Quiet-error resp (λ detail. rejection resp.status detail))

-- A write sends one request, whatever comes back.
pub send-sent :
    (server : Server) (token : Text) (method : Method) (url : Text) (body : Payload)
    (sent : List Request)
    → (send server token method url body sent).1 ≡ sent ++ send_request token method url body ∷ []
unfolding send
send-sent server token method url body sent =
    bind-sent server (send_request token method url body) (written body) sent (Quiet-written body)

object_read :
    (fs : Fields) (r : Outcome Json × List Request) (log : List Request)
    → r.0 ≡ done (object fs)
    → r.1 ≡ log
    → continue (renamed as_privacy r.0) (λ payload. give (object_of payload)) r.1
      ≡ (done (entries fs), log)
object_read fs (o, s) log h k = rw (h, k)

module _ (server : Server) (token api_url cam_id endpoint : Text) where
  -- The request that reads the object, and the one that writes it.
  abbrev pub read_request : Request
  read_request = get_request token (video_input_url api_url cam_id endpoint)

  abbrev pub write_request : Dict String Json → Request
  write_request d =
      send_request token put_method (video_input_url api_url cam_id endpoint)
        (json_body (object (fields_of d)))

  put_merged-sent :
      (current changes : Dict String Json) (sent : List Request)
      → is_empty current ≡ false
      → (put_merged server token api_url cam_id endpoint current changes sent).1
        ≡ sent ++ write_request (update current changes) ∷ []
  unfolding put_merged
  put_merged-sent [] changes sent h = grind arith
  put_merged-sent (entry ∷ current) changes sent h =
      send-sent server token put_method (video_input_url api_url cam_id endpoint)
        (json_body (object (fields_of (update (entry ∷ current) changes)))) sent

  pub get_setting-done :
      (fs : Fields) (sent : List Request)
      → carried (server sent read_request) ≡ some (object fs)
      → get_setting server token api_url cam_id endpoint sent
        ≡ (done (entries fs), sent ++ read_request ∷ [])
  unfolding get_setting fetch
  get_setting-done fs sent h =
      object_read fs (fetch_json server token (video_input_url api_url cam_id endpoint) sent)
        (sent ++ read_request ∷ [])
        (fetch_json_done server token (video_input_url api_url cam_id endpoint) sent (object fs) h)
        (fetch_json-sent server token (video_input_url api_url cam_id endpoint) sent)

  -- A merge whose keys are distinct and whose values are finite, and whose GET is answered with status 200 and an object that is
  -- not empty, sends this GET and then one PUT; the object of the PUT has the given changes, each at
  -- its key, and keeps the value of every other key of the object that was read.
  pub merge_put_lem :
      (changes : Dict String Json) (fs : Fields) (sent : List Request)
      → any is_unfit changes ≡ false
      → Distinct changes
      → carried (server sent read_request) ≡ some (object fs)
      → is_empty (entries fs) ≡ false
      → ((merge_put server token api_url cam_id endpoint changes sent).1
          ≡ (sent ++ read_request ∷ []) ++ write_request (update (entries fs) changes) ∷ [])
        × ((key : String)
            → get key (update (entries fs) changes)
              ≡ (elim (get key changes) [ none ↦ get key (entries fs) | some v ↦ some v ]))
  unfolding merge_put
  merge_put_lem changes fs sent fit distinct h nonempty = (
    rw (fit, get_setting-done fs sent h)
        (put_merged-sent (entries fs) changes (sent ++ read_request ∷ []) nonempty),
    λ key. get-update key (entries fs) changes distinct,
  )
