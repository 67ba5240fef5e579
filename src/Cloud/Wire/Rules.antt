-- ===== src/Cloud/Wire/Rules.antt =====
-- Rules for the calls: a predicate on the errors that leave a call, one on the values that it returns,
-- and one on the requests that it has sent. Then `fetch_json` by them.
use bosch_shc_camera_client.Common.{
  Bool, true, false, List, [], ◌∷◌, if◌then◌else◌, All, All-append,
}
use bosch_shc_camera_client.Common.Texts.{Text}
use bosch_shc_camera_client.Net.{timed_out, client_error, value_error, other_error}
use bosch_shc_camera_client.Cloud.Wire.{
  Request, Reading, read, broken, expired, Server, Error, auth_error, connection_error,
  privacy_mode_error, invalid_response, fault, Outcome, done, failed, Call, continue, ◌>>=◌, pure,
  fail, give, request, renamed, relabel, as_connection, as_invalid, value_of, fetch_body,
  fetch_json,
}

-- The error of a call that fails satisfies `E`.
abbrev pub FailsWith : {A : Type 0} → (Error → Type 0) → Outcome A → Type 0
FailsWith E (done a) = Unit
FailsWith E (failed e) = E e

-- The value of a call that returns satisfies `P`.
abbrev pub Gives : {A : Type 0} → (A → Type 0) → Outcome A → Type 0
Gives P (done a) = P a
Gives P (failed e) = Unit

pub record Raises {A : Type 0} (E : Error → Type 0) (m : Call A) : Type 0 where
  pub at : (sent : List Request) → FailsWith E (m sent).0

pub record Returns {A : Type 0} (P : A → Type 0) (m : Call A) : Type 0 where
  pub at : (sent : List Request) → Gives P (m sent).0

pub record Sends {A : Type 0} (P : Request → Type 0) (m : Call A) : Type 0 where
  pub at : (sent : List Request) → All P sent → All P (m sent).1

module _ {A : Type 0} {E : Error → Type 0} where
  pub Raises-pure : (a : A) → Raises E (pure a)
  Raises-pure a = record { at = λ sent. tt }

  pub Raises-fail : (e : Error) → E e → Raises E (fail {A = A} e)
  Raises-fail e h = record { at = λ sent. h }

  pub Raises-give : (r : Outcome A) → FailsWith E r → Raises E (give r)
  Raises-give r h = record { at = λ sent. h }

  pub Raises-if :
      (b : Bool) (m n : Call A) → Raises E m → Raises E n → Raises E (if b then m else n)
  Raises-if true m n km kn = km
  Raises-if false m n km kn = kn

module _ {A : Type 0} (F E : Error → Type 0) where
  renamed-FailsWith :
      (f : Error → Error) (r : Outcome A)
      → ((e : Error) → F e → E (f e))
      → FailsWith F r
      → FailsWith E (renamed f r)
  renamed-FailsWith f (done a) k h = tt
  renamed-FailsWith f (failed e) k h = k e h

  pub Raises-relabel :
      (f : Error → Error) (m : Call A)
      → ((e : Error) → F e → E (f e))
      → Raises F m
      → Raises E (relabel f m)
  Raises-relabel f m k km = record { at = λ sent. renamed-FailsWith f (m sent).0 k (km.at sent) }

pub Raises-any : {A : Type 0} (m : Call A) → Raises (λ e. Unit) m
Raises-any m = record { at = λ sent. any (m sent).0 }
  where
    any : {B : Type 0} (r : Outcome B) → FailsWith (λ e. Unit) r
    any (done a) = tt
    any (failed e) = tt

module _ {A B : Type 0} {E : Error → Type 0} where
  continue-FailsWith :
      (r : Outcome A) (f : A → Call B) (sent : List Request)
      → FailsWith E r
      → ((a : A) → Raises E (f a))
      → FailsWith E (continue r f sent).0
  continue-FailsWith (done a) f sent h k = (k a).at sent
  continue-FailsWith (failed e) f sent h k = h

  pub Raises-bind :
      (m : Call A) (f : A → Call B) → Raises E m → ((a : A) → Raises E (f a)) → Raises E (m >>= f)
  Raises-bind m f km kf = record {
    at = λ sent. continue-FailsWith (m sent).0 f (m sent).1 (km.at sent) kf;
  }

module _ {A B : Type 0} {Q : A → Type 0} {E : Error → Type 0} where
  continue-after :
      (r : Outcome A) (f : A → Call B) (sent : List Request)
      → FailsWith E r
      → Gives Q r
      → ((a : A) → Q a → Raises E (f a))
      → FailsWith E (continue r f sent).0
  continue-after (done a) f sent h g k = (k a g).at sent
  continue-after (failed e) f sent h g k = h

  pub Raises-after :
      (m : Call A) (f : A → Call B)
      → Raises E m
      → Returns Q m
      → ((a : A) → Q a → Raises E (f a))
      → Raises E (m >>= f)
  Raises-after m f km rm kf = record {
    at = λ sent. continue-after (m sent).0 f (m sent).1 (km.at sent) (rm.at sent) kf;
  }

module _ {A B : Type 0} {Q : A → Type 0} {P : B → Type 0} where
  continue-Gives :
      (r : Outcome A) (f : A → Call B) (sent : List Request)
      → Gives Q r
      → ((a : A) → Q a → Returns P (f a))
      → Gives P (continue r f sent).0
  continue-Gives (done a) f sent h k = (k a h).at sent
  continue-Gives (failed e) f sent h k = tt

  pub Returns-bind :
      (m : Call A) (f : A → Call B)
      → Returns Q m
      → ((a : A) → Q a → Returns P (f a))
      → Returns P (m >>= f)
  Returns-bind m f km kf = record {
    at = λ sent. continue-Gives (m sent).0 f (m sent).1 (km.at sent) kf;
  }

module _ {A : Type 0} {P : A → Type 0} where
  pub Returns-pure : (a : A) → P a → Returns P (pure a)
  Returns-pure a h = record { at = λ sent. h }

  pub Returns-fail : (e : Error) → Returns P (fail {A = A} e)
  Returns-fail e = record { at = λ sent. tt }

  pub Returns-give : (r : Outcome A) → Gives P r → Returns P (give r)
  Returns-give r h = record { at = λ sent. h }

pub Returns-any : {A : Type 0} (m : Call A) → Returns (λ a. Unit {0}) m
Returns-any m = record { at = λ sent. any (m sent).0 }
  where
    any : {B : Type 0} (r : Outcome B) → Gives (λ a. Unit {0}) r
    any (done a) = tt
    any (failed e) = tt

module _ {A B : Type 0} {P : Request → Type 0} where
  continue-All :
      (r : Outcome A) (f : A → Call B) (sent : List Request)
      → All P sent
      → ((a : A) → Sends P (f a))
      → All P (continue r f sent).1
  continue-All (done a) f sent h k = (k a).at sent h
  continue-All (failed e) f sent h k = h

  pub Sends-bind :
      (m : Call A) (f : A → Call B) → Sends P m → ((a : A) → Sends P (f a)) → Sends P (m >>= f)
  Sends-bind m f km kf = record {
    at = λ sent h. continue-All (m sent).0 f (m sent).1 (km.at sent h) kf;
  }

module _ {A : Type 0} {P : Request → Type 0} where
  pub Sends-pure : (a : A) → Sends P (pure a)
  Sends-pure a = record { at = λ sent h. h }

  pub Sends-fail : (e : Error) → Sends P (fail {A = A} e)
  Sends-fail e = record { at = λ sent h. h }

  pub Sends-relabel : (f : Error → Error) (m : Call A) → Sends P m → Sends P (relabel f m)
  Sends-relabel f m km = record { at = λ sent h. km.at sent h }

  pub Sends-if : (b : Bool) (m n : Call A) → Sends P m → Sends P n → Sends P (if b then m else n)
  Sends-if true m n km kn = km
  Sends-if false m n km kn = kn

pub Sends-request :
    {P : Request → Type 0} (server : Server) (q : Request) → P q → Sends P (request server q)
Sends-request {P = P} server q h = record { at = λ sent hs. All-append P sent (q ∷ []) hs (h, tt) }

pub Sends-value_of : {A : Type 0} {P : Request → Type 0} (r : Reading A) → Sends P (value_of r)
unfolding value_of
Sends-value_of (read a) = record { at = λ sent h. h }
Sends-value_of (broken e) = record { at = λ sent h. h }
Sends-value_of expired = record { at = λ sent h. h }

-- The errors that the module promises, and what it does not catch.
abbrev pub IsClientError : Error → Type 0
IsClientError (fault timed_out) = ⊥
IsClientError (fault client_error) = ⊥
IsClientError (fault value_error) = ⊥
IsClientError e = Unit

invalid-IsClientError : (e : Error) → IsClientError (as_invalid (as_connection e))
unfolding as_invalid as_connection
invalid-IsClientError (auth_error s b) = tt
invalid-IsClientError (connection_error s b) = tt
invalid-IsClientError (privacy_mode_error s b) = tt
invalid-IsClientError invalid_response = tt
invalid-IsClientError (fault timed_out) = tt
invalid-IsClientError (fault client_error) = tt
invalid-IsClientError (fault value_error) = tt
invalid-IsClientError (fault other_error) = tt

handled-FailsWith :
    {A : Type 0} (r : Outcome A)
    → FailsWith IsClientError (renamed as_invalid (renamed as_connection r))
handled-FailsWith (done a) = tt
handled-FailsWith (failed e) = invalid-IsClientError e

-- A call under both handlers fails with no timeout, no aiohttp.ClientError and no ValueError.
pub handled-Raises :
    {A : Type 0} (m : Call A) → Raises IsClientError (relabel as_invalid (relabel as_connection m))
handled-Raises m = record { at = λ sent. handled-FailsWith (m sent).0 }

-- Whatever the cloud does, `fetch_json` fails with an error of the client or with an exception that
-- is neither a timeout, an aiohttp.ClientError nor a ValueError.
pub fetch_json-Raises :
    (server : Server) (token url : Text) → Raises IsClientError (fetch_json server token url)
unfolding fetch_json
fetch_json-Raises server token url = handled-Raises (fetch_body server token url)
