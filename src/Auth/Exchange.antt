-- ===== src/Auth/Exchange.antt =====
-- auth_utils.py: the requests of `async_digest_request`. The state is what was sent.
use bosch_shc_camera_client.Common.{ℕ, List, [], Option, none, some, ◌==◌, if◌then◌else◌, is_empty}
use bosch_shc_camera_client.Common.Texts.{Text, codes, same}
use bosch_shc_camera_client.Common.Dict.{text_key, Dict, get, put}
use bosch_shc_camera_client.Net.{
  Result, raise, value_error, Server, Io, ◌>>=◌, ◌>>◌, pure, lift, request,
}
use bosch_shc_camera_client.Auth.{
  Primitives, directive, parse_digest_challenge, build_digest_header,
}

pub record DigestRequest : Type 0 where
  pub method : Text
  pub url : Text
  pub body : Option Text
  pub headers : Dict Text Text

pub record DigestAnswer : Type 0 where
  pub status : ℕ
  pub www_authenticate : Option Text
  -- await resp.read()
  pub read : Result (Unit {0})

abbrev pub Target : Type 0
Target = Server DigestRequest DigestAnswer

abbrev pub Exchange : Type 0 → Type 0
Exchange = Io DigestRequest Unit

-- resp.headers.get("WWW-Authenticate", "")
abbrev pub challenge_text : DigestAnswer → Text
challenge_text resp = elim resp.www_authenticate [ none ↦ [] | some t ↦ t ]

-- What a call was given, with the platform's functions and `secrets.token_hex(8)`.
pub record Login : Type 0 where
  pub primitives : Primitives
  pub token_hex : List DigestRequest → Text
  pub method : Text
  pub url : Text
  pub user : Text
  pub password : Text
  pub body : Option Text
  pub headers : Dict Text Text

module _ (login : Login) where
  unfoldable pub plain_request : DigestRequest
  plain_request = record {
    method = login.method;
    url = login.url;
    body = login.body;
    headers = login.headers;
  }

  unfoldable pub authorized_request : Text → DigestRequest
  unfolding put
  authorized_request header = record {
    method = login.method;
    url = login.url;
    body = login.body;
    headers = put (codes "Authorization") header login.headers;
  }

module _ (server : Target) (login : Login) where
  -- The header is built, then the request is sent again with it.
  unfoldable pub send_authorized : Dict Text Text → Exchange DigestAnswer
  unfolding authorized_request build_digest_header
  send_authorized challenge w =
      (lift (
            build_digest_header login.primitives login.method login.url login.user login.password
              challenge (login.token_hex w.sent))
          >>= λ header. request server (authorized_request login header))
        w

  -- A second 401 that says stale=true is answered once more.
  unfoldable pub retry_stale : DigestAnswer → Exchange DigestAnswer
  unfolding parse_digest_challenge send_authorized get
  retry_stale second = if is_empty (challenge_text second) then pure second else (do
    challenge ← lift (parse_digest_challenge login.primitives (challenge_text second))
    if same (login.primitives.lower (directive "stale" [] challenge)) (codes "true")
        then (do lift second.read; send_authorized challenge)
        else pure second)

  -- The answer to a first 401.
  unfoldable pub answer_challenge : DigestAnswer → Exchange DigestAnswer
  unfolding parse_digest_challenge send_authorized retry_stale
  answer_challenge first = do
    lift first.read
    challenge ← lift (
        if is_empty (challenge_text first)
        then raise value_error
        else parse_digest_challenge login.primitives (challenge_text first))
    second ← send_authorized challenge
    if second.status == 401 then retry_stale second else pure second

  unfoldable pub async_digest_request : Exchange DigestAnswer
  unfolding plain_request answer_challenge
  async_digest_request = do
    first ← request server (plain_request login)
    if first.status == 401 then answer_challenge first else pure first
