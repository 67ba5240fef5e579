-- ===== src/Tls/Rtsp/Warm.antt =====
-- `pre_warm_rtsp` and `confirm_encoder_ready`: DESCRIBE requests that wake the camera's encoder.
use bosch_shc_camera_client.Common.{ℕ, zero, suc, Bool, true, false, ◌++◌, Option, none, some, ◌==◌}
use bosch_shc_camera_client.Common.Texts.{Text, codes}
use bosch_shc_camera_client.Common.Decimal.{decimal}
use bosch_shc_camera_client.Net.{is_exception, ◌>>=◌, ◌>>◌, pure, request, except}
use bosch_shc_camera_client.Tls.Rtsp.{
  Proxy, Rtsp, Login, connect, accept_sdp, request_text, exchange, authenticated, challenge_of,
  close_writer, close_quietly, is_ok, pause,
}

-- How one attempt of `pre_warm_rtsp` ends: with a result, or going on to the next attempt.
pub data WarmAttempt : Type 0 where
  finished : Bool → WarmAttempt
  again : WarmAttempt

-- The URI of the DESCRIBE requests.
unfoldable pub describe_uri : ℕ → ℕ → Text
describe_uri port duration =
    codes "rtsp://127.0.0.1:"
    ++ decimal port
    ++ codes "/rtsp_tunnel?inst=1&enableaudio=1&fmtp=1&maxSessionDuration="
    ++ decimal duration

-- `attempt < max_attempts` is `is_last` negated.
unfoldable pub retry : Bool → ℕ → Rtsp WarmAttempt
retry true wait = pure (finished false)
retry false wait = do pause wait; pure again

module _ (md5 : Text → Text) (proxy : Proxy) (login : Login) where
  unfoldable pub describe_answer : Text → Bool → ℕ → ℕ → Option (Text × Text) → Rtsp WarmAttempt
  unfolding authenticated close_writer retry
  describe_answer uri is_last retry_wait post_wait none = do
    close_writer proxy
    retry is_last retry_wait
  describe_answer uri is_last retry_wait post_wait (some challenge) = do
    second ← authenticated md5 proxy login (codes "DESCRIBE") uri accept_sdp 8192 challenge
    close_writer proxy
    pause post_wait
    pure (finished (is_ok second))

  unfoldable pub describe_session : ℕ → ℕ → Bool → ℕ → ℕ → Rtsp WarmAttempt
  unfolding describe_answer describe_uri
  describe_session port duration is_last retry_wait post_wait = do
    let uri = describe_uri port duration
    first ← exchange proxy (request_text (codes "DESCRIBE") uri (codes "1") accept_sdp none) 4096
    describe_answer uri is_last retry_wait post_wait (challenge_of first)

  -- One round of the loop, its exception handler included.
  unfoldable pub warm_attempt : ℕ → ℕ → Bool → ℕ → ℕ → Rtsp WarmAttempt
  unfolding describe_session close_quietly
  warm_attempt port duration is_last retry_wait post_wait =
      except is_exception
        (do
          request proxy (connect port)
          except is_exception (describe_session port duration is_last retry_wait post_wait)
              (do close_quietly proxy; retry is_last retry_wait))
        (retry is_last retry_wait)

  -- The rounds that are left; the last one is followed by `return False`.
  unfoldable pub pre_warm_rtsp : ℕ → ℕ → ℕ → ℕ → ℕ → Rtsp Bool
  unfolding warm_attempt
  pre_warm_rtsp zero port duration retry_wait post_wait = pure false
  pre_warm_rtsp (suc left) port duration retry_wait post_wait = do
    outcome ← warm_attempt port duration (left == 0) retry_wait post_wait
    elim outcome [
      | finished result ↦ pure result
      | again ↦ pre_warm_rtsp left port duration retry_wait post_wait
    ]

  -- `confirm_encoder_ready` behind the first answer.
  unfoldable pub confirm_answer : Text → Option (Text × Text) → Rtsp Bool
  unfolding authenticated
  confirm_answer uri none = pure false
  confirm_answer uri (some challenge) = do
    second ← authenticated md5 proxy login (codes "DESCRIBE") uri accept_sdp 8192 challenge
    pure (is_ok second)

  unfoldable pub confirm_session : ℕ → ℕ → Rtsp Bool
  unfolding confirm_answer describe_uri
  confirm_session port duration = do
    let uri = describe_uri port duration
    first ← exchange proxy (request_text (codes "DESCRIBE") uri (codes "1") accept_sdp none) 4096
    confirm_answer uri (challenge_of first)

  -- With the handler, and then `finally`.
  unfoldable pub confirm_encoder_ready : ℕ → ℕ → Rtsp Bool
  unfolding confirm_session close_quietly
  confirm_encoder_ready port duration =
      except is_exception
        (do
          request proxy (connect port)
          ready ← except is_exception (confirm_session port duration) (pure false)
          close_quietly proxy
          pure ready)
        (pure false)
