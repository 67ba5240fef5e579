-- ===== src/Cloud/Wire/Fetch.antt =====
-- When `fetch_json` gives a value, and which.
use bosch_shc_camera_client.Common.{
  ℕ, Bool, true, false, List, [], ◌∷◌, ◌++◌, Option, none, some, ◌≡◌, refl, ◌==◌, if◌then◌else◌,
  arith, ◌∙◌,
}
use bosch_shc_camera_client.Common.Texts.{Text}
use bosch_shc_camera_client.Net.{Result, ok, raise}
use bosch_shc_camera_client.Cloud.Json.{Json}
use bosch_shc_camera_client.Cloud.Wire.{
  Request, Reading, read, broken, expired, Answer, Server, Error, auth_error, connection_error,
  Outcome, done, failed, Call, continue, ◌>>=◌, ◌>>◌, pure, fail, answer_of, renamed, as_connection,
  as_invalid, json_of, raise_if_token_rejected, value_of, value_if_any, read_error_body, shortened,
  get_request, fetch_body, fetch_json, is_rejected,
}

abbrev pub given : {A : Type 0} → Outcome A → Option A
given (done a) = some a
given (failed e) = none

-- What an answer to the request of `fetch_json` brings: its JSON, if its status is 200.
abbrev pub readable : Reading Json → Option Json
readable (read j) = some j
readable (broken e) = none
readable expired = none

abbrev pub carried : Result Answer → Option Json
carried (ok a) = if a.status == 200 then readable a.json else none
carried (raise e) = none

given-renamed : {A : Type 0} (f : Error → Error) (r : Outcome A) → given (renamed f r) ≡ given r
given-renamed f (done a) = refl
given-renamed f (failed e) = refl

given-value_of : (r : Reading Json) (sent : List Request) → given (value_of r sent).0 ≡ readable r
unfolding value_of
given-value_of (read j) sent = refl
given-value_of (broken e) sent = refl
given-value_of expired sent = refl

given-error :
    {A : Type 0} (resp : Answer) (e : Option Text → Error) (sent : List Request)
    → given ((read_error_body resp >>= λ body. fail {A = A} (e body)) sent).0 ≡ none
unfolding read_error_body value_if_any
given-error {A = A} resp e sent = cases resp.text
  where
    cases :
        (t : Reading Text)
        → given
            ((value_if_any t >>= (λ text. pure (shortened text)) >>= λ body. fail {A = A} (e body))
              sent).0
          ≡ none
    cases (read t) = refl
    cases (broken x) = refl
    cases expired = refl

given-if :
    {A : Type 0} (b : Bool) (m n : Call A) (sent : List Request) (x y : Option A)
    → given (m sent).0 ≡ x
    → given (n sent).0 ≡ y
    → given ((if b then m else n) sent).0 ≡ (if b then x else y)
given-if true m n sent x y hm hn = hm
given-if false m n sent x y hm hn = hn

given-json_of :
    (resp : Answer) (sent : List Request)
    → given (json_of resp sent).0 ≡ (if resp.status == 200 then readable resp.json else none)
unfolding json_of
given-json_of resp sent =
    given-if (resp.status == 200) (value_of resp.json)
      (read_error_body resp >>= λ body. fail (connection_error (some resp.status) body)) sent
      (readable resp.json) none (given-value_of resp.json sent)
      (given-error resp (λ b. connection_error (some resp.status) b) sent)

rejected_none :
    (resp : Answer) (sent : List Request)
    → given
        (((read_error_body resp >>= λ body. fail {A = Unit} (auth_error (some resp.status) body))
            >> json_of resp)
          sent).0
      ≡ none
unfolding read_error_body value_if_any
rejected_none resp sent = cases resp.text
  where
    cases :
        (t : Reading Text)
        → given
            (((value_if_any t >>= (λ text. pure (shortened text)) >>= λ body.
                  fail {A = Unit} (auth_error (some resp.status) body))
                >> json_of resp)
              sent).0
          ≡ none
    cases (read t) = refl
    cases (broken x) = refl
    cases expired = refl

given-rejected :
    (resp : Answer) (sent : List Request)
    → given ((raise_if_token_rejected resp >> json_of resp) sent).0 ≡ (
        if is_rejected resp.status
        then none
        else if resp.status == 200
        then readable resp.json
        else none)
unfolding raise_if_token_rejected
given-rejected resp sent = cases (is_rejected resp.status)
  where
    cases :
        (b : Bool)
        → given
            (((if b
                  then (read_error_body resp >>= λ body.
                      fail {A = Unit} (auth_error (some resp.status) body))
                  else pure tt)
                >> json_of resp)
              sent).0
          ≡ (if b then none else if resp.status == 200 then readable resp.json else none)
    cases true = rejected_none resp sent
    cases false = given-json_of resp sent

rejected_first :
    (status : ℕ) (x : Option Json)
    → (if is_rejected status then none else if status == 200 then x else none)
      ≡ (if status == 200 then x else none)
rejected_first status x = ground arith

given-after :
    (r : Result Answer) (sent : List Request)
    → given (continue (answer_of r) (λ resp. raise_if_token_rejected resp >> json_of resp) sent).0
      ≡ carried r
given-after (ok a) sent = given-rejected a sent ∙ rejected_first a.status (readable a.json)
given-after (raise e) sent = refl

-- `fetch_json` returns a value exactly when the cloud answers its one request with status 200 and
-- JSON that can be read, and then returns that JSON.
pub fetch_json-carried :
    (server : Server) (token url : Text) (sent : List Request)
    → given (fetch_json server token url sent).0 ≡ carried (server sent (get_request token url))
unfolding fetch_json fetch_body
fetch_json-carried server token url sent =
    given-renamed as_invalid (renamed as_connection (fetch_body server token url sent).0)
    ∙ given-renamed as_connection (fetch_body server token url sent).0
    ∙ given-after (server sent (get_request token url)) (sent ++ get_request token url ∷ [])

given_done : {A : Type 0} (r : Outcome A) (a : A) → given r ≡ some a → r ≡ done a
given_done (done b) a h = grind arith
given_done (failed e) a h = grind arith

pub fetch_json_done :
    (server : Server) (token url : Text) (sent : List Request) (j : Json)
    → carried (server sent (get_request token url)) ≡ some j
    → (fetch_json server token url sent).0 ≡ done j
fetch_json_done server token url sent j h =
    given_done (fetch_json server token url sent).0 j (fetch_json-carried server token url sent ∙ h)
