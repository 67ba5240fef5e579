-- ===== src/Cloud/Wire.antt =====
-- Requests, answers and errors of the cloud API, and `fetch_json` with its helpers. The state of a
-- call is what it has sent; the cloud is a function of what was sent before and the request at hand.
pub mod Rules
pub mod Fetch
pub mod Quiet
pub mod Each
use bosch_shc_camera_client.Common.{
  ℕ, Bool, true, false, not, ◌||◌, List, [], ◌∷◌, ◌++◌, Option, none, some, ◌==◌, if◌then◌else◌,
  take,
}
use bosch_shc_camera_client.Common.Texts.{Text, Bytes, codes}
use bosch_shc_camera_client.Net.{
  Fault, Result, ok, raise, timed_out, client_error, value_error, other_error,
}
use bosch_shc_camera_client.Cloud.Json.{Json}

pub data Method : Type 0 where
  get_method put_method post_method : Method

-- No body at all, the empty body `data=""`, or JSON.
pub data Payload : Type 0 where
  no_body empty_body : Payload
  json_body : Json → Payload

pub record Request : Type 0 where
  pub method : Method
  pub url : Text
  pub params : List (Text × Text)
  -- What the Authorization header bears.
  pub token : Text
  pub body : Payload
  pub allow_redirects : Bool

-- What a read of a part of an answer does: it gives a value, raises, or runs into the deadline of the
-- whole call, which no handler inside the call catches.
pub data Reading (A : Type 0) : Type 0 where
  read : A → Reading A
  broken : Fault → Reading A
  expired : Reading A

pub record Answer : Type 0 where
  pub status : ℕ
  pub json : Reading Json
  pub text : Reading Text
  -- The chunks of the body, and the exception that ends their reads, if one does.
  pub chunks : List Bytes
  pub ending : Option Fault

abbrev pub Server : Type 0
Server = List Request → Request → Result Answer

-- The errors of the client, with the status and the body that they carry, and other exceptions.
pub data Error : Type 0 where
  auth_error : Option ℕ → Option Text → Error
  connection_error : Option ℕ → Option Text → Error
  privacy_mode_error : Option ℕ → Option Text → Error
  invalid_response : Error
  fault : Fault → Error

pub data Outcome (A : Type 0) : Type 0 where
  done : A → Outcome A
  failed : Error → Outcome A

abbrev pub Call : Type 0 → Type 0
Call A = List Request → Outcome A × List Request

abbrev pub continue : {A B : Type 0} → Outcome A → (A → Call B) → Call B
continue (done a) f sent = f a sent
continue (failed e) f sent = (failed e, sent)

infixl 5 ◌>>=◌ ◌>>◌
abbrev pub ◌>>=◌ : {A B : Type 0} → Call A → (A → Call B) → Call B
◌>>=◌ m f sent = continue (m sent).0 f (m sent).1

abbrev pub ◌>>◌ : {A B : Type 0} → Call A → Call B → Call B
m >> n = m >>= λ _. n

abbrev pub pure : {A : Type 0} → A → Call A
pure a sent = (done a, sent)

abbrev pub fail : {A : Type 0} → Error → Call A
fail e sent = (failed e, sent)

abbrev pub answer_of : Result Answer → Outcome Answer
answer_of (ok a) = done a
answer_of (raise e) = failed (fault e)

abbrev pub request : Server → Request → Call Answer
request server q sent = (answer_of (server sent q), sent ++ q ∷ [])

abbrev pub prepended : {B : Type 0} → Outcome B → Outcome (List B) → Outcome (List B)
prepended (failed e) rs = failed e
prepended (done y) (failed e) = failed e
prepended (done y) (done ys) = done (y ∷ ys)

-- [f(x) for x in xs], up to the first f(x) that raises
unfoldable pub each : {A B : Type 0} → (A → Outcome B) → List A → Outcome (List B)
each f [] = done []
each f (x ∷ xs) = prepended (f x) (each f xs)

abbrev pub give : {A : Type 0} → Outcome A → Call A
give r sent = (r, sent)

-- `except ... as err: raise ... from err`
abbrev pub renamed : {A : Type 0} → (Error → Error) → Outcome A → Outcome A
renamed f (done a) = done a
renamed f (failed e) = failed (f e)

abbrev pub relabel : {A : Type 0} → (Error → Error) → Call A → Call A
relabel f m sent = (renamed f (m sent).0, (m sent).1)

-- except (TimeoutError, aiohttp.ClientError) as err: raise BoschCameraConnectionError(...) from err
unfoldable pub as_connection : Error → Error
as_connection (fault timed_out) = connection_error none none
as_connection (fault client_error) = connection_error none none
as_connection e = e

-- except ValueError as err: raise BoschCameraInvalidResponseError(...) from err
unfoldable pub as_invalid : Error → Error
as_invalid (fault value_error) = invalid_response
as_invalid e = e

-- await resp.json(), await resp.text()
unfoldable pub value_of : {A : Type 0} → Reading A → Call A
value_of (read a) = pure a
value_of (broken e) = fail (fault e)
value_of expired = fail (fault timed_out)

-- The same under `except Exception: pass`
unfoldable pub value_if_any : {A : Type 0} → Reading A → Call (Option A)
value_if_any (read a) = pure (some a)
value_if_any (broken e) = pure none
value_if_any expired = fail (fault timed_out)

-- text[:200]
unfoldable pub shortened : Option Text → Option Text
shortened none = none
shortened (some t) = some (take 200 t)

unfoldable pub read_error_body : Answer → Call (Option Text)
unfolding value_if_any shortened
read_error_body resp = do text ← value_if_any resp.text; pure (shortened text)

abbrev pub is_rejected : ℕ → Bool
is_rejected status = status == 401 || status == 403

unfoldable pub raise_if_token_rejected : Answer → Call Unit
unfolding read_error_body
raise_if_token_rejected resp =
    if is_rejected resp.status
    then (do body ← read_error_body resp; fail (auth_error (some resp.status) body))
    else pure tt

unfoldable pub get_request : Text → Text → Request
get_request token url = record {
  method = get_method;
  url = url;
  params = [];
  token = token;
  body = no_body;
  allow_redirects = true;
}

-- The body of an answer that must have status 200.
unfoldable pub json_of : Answer → Call Json
unfolding read_error_body value_of
json_of resp =
    if resp.status == 200
    then value_of resp.json
    else (do body ← read_error_body resp; fail (connection_error (some resp.status) body))

-- The body of the `try` of `fetch_json`.
unfoldable pub fetch_body : Server → Text → Text → Call Json
unfolding raise_if_token_rejected json_of get_request
fetch_body server token url = do
  resp ← request server (get_request token url)
  raise_if_token_rejected resp
  json_of resp

unfoldable pub fetch_json : Server → Text → Text → Call Json
unfolding fetch_body as_connection as_invalid
fetch_json server token url =
    relabel as_invalid (relabel as_connection (fetch_body server token url))
