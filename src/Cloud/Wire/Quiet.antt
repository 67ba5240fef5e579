-- ===== src/Cloud/Wire/Quiet.antt =====
-- Calls that send nothing: the reads of an answer. `fetch_json` sends its one request.
use bosch_shc_camera_client.Common.{
  Bool, true, false, List, [], ◌∷◌, ◌++◌, Option, some, ◌≡◌, refl, ◌∙◌, ◌==◌, if◌then◌else◌,
}
use bosch_shc_camera_client.Common.Texts.{Text}
use bosch_shc_camera_client.Cloud.Wire.{
  Request, Reading, read, broken, expired, Answer, Server, Error, auth_error, connection_error,
  Outcome, done, failed, Call, continue, ◌>>=◌, ◌>>◌, pure, fail, give, request, answer_of,
  value_of, value_if_any, read_error_body, is_rejected, raise_if_token_rejected, get_request,
  json_of, fetch_body, fetch_json, shortened,
}

pub record Quiet {A : Type 0} (m : Call A) : Type 0 where
  pub at : (sent : List Request) → (m sent).1 ≡ sent

module _ {A : Type 0} where
  pub Quiet-give : (r : Outcome A) → Quiet (give r)
  Quiet-give r = record { at = λ sent. refl }

  pub Quiet-if : (b : Bool) (m n : Call A) → Quiet m → Quiet n → Quiet (if b then m else n)
  Quiet-if true m n km kn = km
  Quiet-if false m n km kn = kn

  pub Quiet-value_of : (r : Reading A) → Quiet (value_of r)
  unfolding value_of
  Quiet-value_of (read a) = record { at = λ sent. refl }
  Quiet-value_of (broken e) = record { at = λ sent. refl }
  Quiet-value_of expired = record { at = λ sent. refl }

  Quiet-value_if_any : (r : Reading A) → Quiet (value_if_any r)
  unfolding value_if_any
  Quiet-value_if_any (read a) = record { at = λ sent. refl }
  Quiet-value_if_any (broken e) = record { at = λ sent. refl }
  Quiet-value_if_any expired = record { at = λ sent. refl }

module _ {A B : Type 0} where
  continue-Quiet :
      (r : Outcome A) (f : A → Call B) (sent : List Request)
      → ((a : A) → Quiet (f a))
      → (continue r f sent).1 ≡ sent
  continue-Quiet (done a) f sent k = (k a).at sent
  continue-Quiet (failed e) f sent k = refl

  pub Quiet-bind :
      (m : Call A) (f : A → Call B) → Quiet m → ((a : A) → Quiet (f a)) → Quiet (m >>= f)
  Quiet-bind m f km kf = record {
    at = λ sent. continue-Quiet (m sent).0 f (m sent).1 kf ∙ km.at sent;
  }

-- The error that an answer's body goes into.
pub Quiet-error :
    {A : Type 0} (resp : Answer) (e : Option Text → Error)
    → Quiet (read_error_body resp >>= λ body. fail {A = A} (e body))
unfolding read_error_body
Quiet-error {A = A} resp e =
    Quiet-bind (value_if_any resp.text >>= λ text. pure (shortened text))
      (λ body. fail {A = A} (e body))
      (Quiet-bind (value_if_any resp.text) (λ text. pure (shortened text))
        (Quiet-value_if_any resp.text) (λ text. Quiet-give (done (shortened text))))
      (λ body. Quiet-give (failed (e body)))

-- One request, and an answer that is only read.
pub bind-sent :
    {A : Type 0} (server : Server) (q : Request) (f : Answer → Call A) (sent : List Request)
    → ((resp : Answer) → Quiet (f resp))
    → ((request server q >>= f) sent).1 ≡ sent ++ q ∷ []
bind-sent server q f sent k = continue-Quiet (answer_of (server sent q)) f (sent ++ q ∷ []) k

Quiet-rejected : (resp : Answer) → Quiet (raise_if_token_rejected resp)
unfolding raise_if_token_rejected
Quiet-rejected resp =
    Quiet-if (is_rejected resp.status)
      (read_error_body resp >>= λ body. fail (auth_error (some resp.status) body)) (pure tt)
      (Quiet-error resp (λ body. auth_error (some resp.status) body)) (Quiet-give (done tt))

Quiet-json_of : (resp : Answer) → Quiet (json_of resp)
unfolding json_of
Quiet-json_of resp =
    Quiet-if (resp.status == 200) (value_of resp.json)
      (read_error_body resp >>= λ body. fail (connection_error (some resp.status) body))
      (Quiet-value_of resp.json)
      (Quiet-error resp (λ body. connection_error (some resp.status) body))

-- `fetch_json` sends one GET, whatever comes back.
pub fetch_json-sent :
    (server : Server) (token url : Text) (sent : List Request)
    → (fetch_json server token url sent).1 ≡ sent ++ get_request token url ∷ []
unfolding fetch_json fetch_body
fetch_json-sent server token url sent =
    bind-sent server (get_request token url) (λ resp. raise_if_token_rejected resp >> json_of resp)
      sent
      (λ resp.
        Quiet-bind (raise_if_token_rejected resp) (λ _. json_of resp) (Quiet-rejected resp)
          (λ _. Quiet-json_of resp))
