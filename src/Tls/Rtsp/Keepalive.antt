-- ===== src/Tls/Rtsp/Keepalive.antt =====
-- `rtsp_keepalive`: an OPTIONS request, with the answer to a challenge if there is one.
use bosch_shc_camera_client.Common.{ℕ, Bool, false, [], ◌++◌, Option, none, some}
use bosch_shc_camera_client.Common.Texts.{Text, codes}
use bosch_shc_camera_client.Common.Decimal.{decimal}
use bosch_shc_camera_client.Net.{is_exception, ◌>>=◌, ◌>>◌, pure, request, except}
use bosch_shc_camera_client.Tls.Rtsp.{
  Proxy, Rtsp, Login, connect, request_text, exchange, authenticated, challenge_of, close_writer,
  close_quietly, is_ok,
}

unfoldable pub keepalive_uri : ℕ → Text
keepalive_uri port = codes "rtsp://127.0.0.1:" ++ decimal port ++ codes "/rtsp_tunnel"

module _ (md5 : Text → Text) (proxy : Proxy) (login : Login) where
  -- `rtsp_keepalive` behind the first answer.
  unfoldable pub keepalive_answer : Text → Text → Option (Text × Text) → Rtsp Bool
  unfolding authenticated close_writer
  keepalive_answer uri first none = do close_writer proxy; pure (is_ok first)
  keepalive_answer uri first (some challenge) = do
    second ← authenticated md5 proxy login (codes "OPTIONS") uri [] 4096 challenge
    close_writer proxy
    pure (is_ok second)

  unfoldable pub keepalive_session : ℕ → Rtsp Bool
  unfolding keepalive_answer keepalive_uri
  keepalive_session port = do
    let uri = keepalive_uri port
    first ← exchange proxy (request_text (codes "OPTIONS") uri (codes "1") [] none) 4096
    keepalive_answer uri first (challenge_of first)

  unfoldable pub rtsp_keepalive : ℕ → Rtsp Bool
  unfolding keepalive_session close_quietly
  rtsp_keepalive port =
      except is_exception
        (do
          request proxy (connect port)
          except is_exception (keepalive_session port) (do close_quietly proxy; pure false))
        (pure false)
