-- ===== src/Cloud/Settings/Errors.antt =====
-- settings.py: what the errors of the writes say of the answer.
use bosch_shc_camera_client.Common.{
  ℕ, ◌≤◌, Bool, true, false, Option, none, some, ◌≡◌, refl, ◌==◌, if◌then◌else◌, arith, length,
  length-take,
}
use bosch_shc_camera_client.Common.Texts.{Text}
use bosch_shc_camera_client.Net.{
  Result, ok, raise, timed_out, client_error, value_error, other_error,
}
use bosch_shc_camera_client.Cloud.Json.{Json}
use bosch_shc_camera_client.Cloud.Wire.{
  Method, Payload, Reading, read, broken, expired, Answer, Server, Error, auth_error,
  connection_error, privacy_mode_error, invalid_response, fault, Call, ◌>>=◌, pure, fail, request,
  answer_of, as_connection, value_if_any, shortened, read_error_body, is_rejected,
}
use bosch_shc_camera_client.Cloud.Wire.Rules.{
  FailsWith, Raises, Returns, Raises-pure, Raises-fail, Raises-relabel, Raises-bind, Raises-after,
  Returns-bind, Returns-pure, Returns-any,
}
use bosch_shc_camera_client.Cloud.Actions.{is_ok_status}
use bosch_shc_camera_client.Cloud.Settings.{
  rejection, SettingWriteResult, dict_of, parsed_of, send_request, written, send,
}

-- A text of an answer, cut to 200 characters.
abbrev pub IsShort : Option Text → Type 0
IsShort none = Unit
IsShort (some t) = length t ≤ 200

-- What a write may fail with. The class of an error that carries a status tells which it is; a
-- ValueError or an exception of another kind gets through as it is.
abbrev pub IsWriteError : Error → Type 0
IsWriteError (auth_error none body) = ⊥
IsWriteError (auth_error (some status) body) = (is_rejected status ≡ true) × IsShort body
IsWriteError (privacy_mode_error none body) = ⊥
IsWriteError (privacy_mode_error (some status) body) = (status ≡ 443) × IsShort body
IsWriteError (connection_error none body) = body ≡ none
IsWriteError (connection_error (some status) body) =
    (is_ok_status status ≡ false)
    × (is_rejected status ≡ false)
    × ((status == 443) ≡ false)
    × IsShort body
IsWriteError invalid_response = ⊥
IsWriteError (fault timed_out) = ⊥
IsWriteError (fault client_error) = ⊥
IsWriteError (fault value_error) = Unit
IsWriteError (fault other_error) = Unit

-- The same before the handler of the network's errors.
abbrev IsInnerError : Error → Type 0
IsInnerError (fault e) = Unit
IsInnerError e = IsWriteError e

as_connection-IsWriteError : (e : Error) → IsInnerError e → IsWriteError (as_connection e)
unfolding as_connection
as_connection-IsWriteError (auth_error none b) h = h
as_connection-IsWriteError (auth_error (some s) b) h = h
as_connection-IsWriteError (privacy_mode_error none b) h = h
as_connection-IsWriteError (privacy_mode_error (some s) b) h = h
as_connection-IsWriteError (connection_error none b) h = h
as_connection-IsWriteError (connection_error (some s) b) h = h
as_connection-IsWriteError invalid_response h = h
as_connection-IsWriteError (fault timed_out) h = refl
as_connection-IsWriteError (fault client_error) h = refl
as_connection-IsWriteError (fault value_error) h = tt
as_connection-IsWriteError (fault other_error) h = tt

rejection-IsInnerError :
    (status : ℕ) (body : Option Text)
    → is_ok_status status ≡ false
    → IsShort body
    → IsInnerError (rejection status body)
unfolding rejection
rejection-IsInnerError status body bad short = cases (is_rejected status) (status == 443) refl refl
  where
    cases :
        (b c : Bool)
        → is_rejected status ≡ b
        → (status == 443) ≡ c
        → IsInnerError (
            if b
            then auth_error (some status) body
            else if c
            then privacy_mode_error (some status) body
            else connection_error (some status) body)
    cases true c h k = (h, short)
    cases false true h k = (ground (arith, k), short)
    cases false false h k = (bad, h, k, short)

shortened-IsShort : (t : Option Text) → IsShort (shortened t)
unfolding shortened
shortened-IsShort none = tt
shortened-IsShort (some t) = ground (arith, length-take 200 t)

value_if_any-Raises : {A : Type 0} (r : Reading A) → Raises IsInnerError (value_if_any r)
unfolding value_if_any
value_if_any-Raises (read a) = Raises-pure (some a)
value_if_any-Raises (broken e) = Raises-pure none
value_if_any-Raises expired = Raises-fail (fault timed_out) tt

read_error_body-Raises : (resp : Answer) → Raises IsInnerError (read_error_body resp)
unfolding read_error_body
read_error_body-Raises resp =
    Raises-bind (value_if_any resp.text) (λ text. pure (shortened text))
      (value_if_any-Raises resp.text) (λ text. Raises-pure (shortened text))

read_error_body-Returns : (resp : Answer) → Returns IsShort (read_error_body resp)
unfolding read_error_body
read_error_body-Returns resp =
    Returns-bind (value_if_any resp.text) (λ text. pure (shortened text))
      (Returns-any (value_if_any resp.text))
      (λ text _. Returns-pure (shortened text) (shortened-IsShort text))

parsed_of-Raises : (r : Reading Json) → Raises IsInnerError (parsed_of r)
unfolding parsed_of
parsed_of-Raises (read j) = Raises-pure (dict_of j)
parsed_of-Raises (broken value_error) = Raises-pure none
parsed_of-Raises (broken timed_out) = Raises-fail (fault timed_out) tt
parsed_of-Raises (broken client_error) = Raises-fail (fault client_error) tt
parsed_of-Raises (broken other_error) = Raises-fail (fault other_error) tt
parsed_of-Raises expired = Raises-fail (fault timed_out) tt

written-Raises : (body : Payload) (resp : Answer) → Raises IsInnerError (written body resp)
unfolding written
written-Raises body resp = cases (is_ok_status resp.status) refl
  where
    accepted : Call SettingWriteResult
    accepted = parsed_of resp.json >>= λ parsed.
        pure (record { status = resp.status; response = parsed; sent = body })

    rejected : Call SettingWriteResult
    rejected = read_error_body resp >>= λ detail. fail (rejection resp.status detail)

    cases :
        (b : Bool)
        → is_ok_status resp.status ≡ b
        → Raises IsInnerError (if b then accepted else rejected)
    cases true h =
        Raises-bind (parsed_of resp.json)
          (λ parsed. pure (record { status = resp.status; response = parsed; sent = body }))
          (parsed_of-Raises resp.json)
          (λ parsed. Raises-pure (record { status = resp.status; response = parsed; sent = body }))
    cases false h =
        Raises-after (read_error_body resp) (λ detail. fail (rejection resp.status detail))
          (read_error_body-Raises resp) (read_error_body-Returns resp)
          (λ detail short.
            Raises-fail (rejection resp.status detail)
              (rejection-IsInnerError resp.status detail h short))

answer_of-FailsWith : (r : Result Answer) → FailsWith IsInnerError (answer_of r)
answer_of-FailsWith (ok a) = tt
answer_of-FailsWith (raise e) = tt

-- A write that fails does so with one of these: an error of the token, with status 401 or 403; an error
-- of privacy mode, with status 443; a connection error with any other status than these and 200, 201
-- and 204; a connection error with neither a status nor a body; or an exception that is neither a
-- TimeoutError nor an aiohttp.ClientError. The body of an error has at most 200 characters.
pub send-IsWriteError :
    (server : Server) (token : Text) (method : Method) (url : Text) (body : Payload)
    → Raises IsWriteError (send server token method url body)
unfolding send
send-IsWriteError server token method url body =
    Raises-relabel IsInnerError IsWriteError as_connection
      (request server (send_request token method url body) >>= λ resp. written body resp)
      as_connection-IsWriteError
      (Raises-bind (request server (send_request token method url body)) (λ resp. written body resp)
        (record {
          at = λ sent. answer_of-FailsWith (server sent (send_request token method url body));
        })
        (written-Raises body))
