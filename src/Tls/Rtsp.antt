-- ===== src/Tls/Rtsp.antt =====
-- The RTSP exchanges through a local proxy: what its clients do, `_digest_auth`, and the two requests.
-- MD5 is a parameter. A proxy answers each action, as a function of what was done before; what it
-- sends is given as decoded text.
pub mod Keepalive
pub mod Warm
pub mod Opened
pub mod Bounds
pub mod Rounds
pub mod Closing
use bosch_shc_camera_client.Common.{
  ℕ, zero, suc, ◌+◌, Bool, true, false, List, [], ◌∷◌, ◌++◌, Option, none, some, ◌==◌,
  if◌then◌else◌, not,
}
use bosch_shc_camera_client.Common.Texts.{Text, codes, contains}
use bosch_shc_camera_client.Common.Decimal.{decimal}
use bosch_shc_camera_client.Net.{
  Server, Io, ok, World, is_exception, ◌>>=◌, ◌>>◌, pure, request, except,
}
use bosch_shc_camera_client.Rcp.Markup.{search_tag}

-- What a coroutine does with its connection and with the clock.
pub data Action : Type 0 where
  connect : ℕ → Action
  send : Text → Action
  receive : ℕ → Action
  close : Action
  wait_closed : Action
  sleep : ℕ → Action

abbrev pub Proxy : Type 0
Proxy = Server Action Text

abbrev pub Rtsp : Type 0 → Type 0
Rtsp = Io Action Unit

abbrev quote : Text
quote = b'"' ∷ []

abbrev not_quote : ℕ → Bool
not_quote c = not (c == b'"')

abbrev same_char : ℕ → ℕ
same_char c = c

-- re.search(r'nonce="([^"]+)"', s) and the same for the realm
unfoldable pub search_quoted : Text → Text → Option Text
unfolding search_tag
search_quoted name = search_tag same_char not_quote (name ++ codes "=" ++ quote) quote

-- Nonce and realm, if the text has both.
unfoldable pub challenge_of : Text → Option (Text × Text)
unfolding search_quoted
challenge_of s = elim (search_quoted (codes "nonce") s) [
  | none ↦ none
  | some nonce ↦ elim (search_quoted (codes "realm") s) [
    | none ↦ none
    | some realm ↦ some (nonce, realm)
  ]
]

-- '{name}="{value}"'
abbrev field : Text → Text → Text
field name value = name ++ codes "=" ++ quote ++ value ++ quote

abbrev crlf : Text
crlf = 13 ∷ 10 ∷ []

module _ (md5 : Text → Text) where
  -- `_digest_auth`
  unfoldable pub digest_auth : Text → Text → Text → Text → Text → Text → Text
  digest_auth user password method uri realm nonce =
      let ha1 = md5 (user ++ codes ":" ++ realm ++ codes ":" ++ password) in
      let ha2 = md5 (method ++ codes ":" ++ uri) in
      let resp = md5 (ha1 ++ codes ":" ++ nonce ++ codes ":" ++ ha2) in
      codes "Digest "
      ++ field (codes "username") user
      ++ codes ","
      ++ field (codes "realm") realm
      ++ codes ","
      ++ field (codes "nonce") nonce
      ++ codes ","
      ++ field (codes "uri") uri
      ++ codes ","
      ++ field (codes "response") resp

-- writer.close(), then writer.wait_closed() whose exceptions are dropped
unfoldable pub close_writer : Proxy → Rtsp Unit
close_writer proxy = do
  request proxy close
  except is_exception (do request proxy wait_closed; pure tt) (pure tt)

-- In an exception handler: both calls, with the exceptions of both dropped.
unfoldable pub close_quietly : Proxy → Rtsp Unit
close_quietly proxy =
    except is_exception (do request proxy close; request proxy wait_closed; pure tt) (pure tt)

unfoldable pub is_ok : Text → Bool
is_ok s = contains s (codes "200 OK")

-- The head of a request: method, URI, CSeq, and the headers that every request of the kind has.
unfoldable pub request_text : Text → Text → Text → Text → Option Text → Text
request_text method uri cseq headers auth =
    method
    ++ codes " "
    ++ uri
    ++ codes " RTSP/1.0"
    ++ crlf
    ++ codes "CSeq: "
    ++ cseq
    ++ crlf
    ++ headers
    ++ (elim auth [ none ↦ [] | some a ↦ codes "Authorization: " ++ a ++ crlf ])
    ++ crlf

abbrev accept_sdp : Text
accept_sdp = codes "Accept: application/sdp" ++ crlf

-- Send a request and read the answer.
unfoldable pub exchange : Proxy → Text → ℕ → Rtsp Text
exchange proxy text size = do request proxy (send text); request proxy (receive size)

pub record Login : Type 0 where
  pub user : Text
  pub password : Text

module _ (md5 : Text → Text) (proxy : Proxy) (login : Login) where
  -- The second request, with the answer to the challenge.
  unfoldable pub authenticated : Text → Text → Text → ℕ → Text × Text → Rtsp Text
  unfolding request_text exchange digest_auth
  authenticated method uri headers size (nonce, realm) =
      exchange proxy
        (request_text method uri (codes "2") headers
          (some (digest_auth md5 login.user login.password method uri realm nonce)))
        size

-- asyncio.sleep, which does not fail
unfoldable pub pause : ℕ → Rtsp Unit
pause seconds w = (ok tt, record w { sent = w.sent ++ sleep seconds ∷ [] })
