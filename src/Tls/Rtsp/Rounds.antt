-- ===== src/Tls/Rtsp/Rounds.antt =====
-- The bounds of `Open` through each of the RTSP exchanges.
use mathlib.Core.Path.{subst}
use bosch_shc_camera_client.Common.{
  ℕ, zero, suc, ◌+◌, ◌≡◌, Bool, false, [], Option, none, some, arith, ◌==◌,
}
use bosch_shc_camera_client.Common.Texts.{Text, codes}
use bosch_shc_camera_client.Net.{World, pure}
use bosch_shc_camera_client.Net.Triples.{
  Triple, Triple-pure, Triple-weaken, Triple-except, Triple-bind,
}
use bosch_shc_camera_client.Tls.Rtsp.{Action, Proxy, Rtsp, Login, authenticated, challenge_of}
use bosch_shc_camera_client.Tls.Rtsp.Opened.{Open}
use bosch_shc_camera_client.Tls.Rtsp.Keepalive.{
  keepalive_uri, keepalive_answer, keepalive_session, rtsp_keepalive,
}
use bosch_shc_camera_client.Tls.Rtsp.Warm.{
  WarmAttempt, finished, again, describe_uri, describe_answer, describe_session, warm_attempt,
  pre_warm_rtsp, confirm_answer, confirm_session, confirm_encoder_ready,
}
use bosch_shc_camera_client.Tls.Rtsp.Bounds.{
  Never, Open-le, exchange-Open, close_quietly-Open, close_writer-Open, pause-Open, connect-Open,
  retry-Open,
}

module _ (md5 : Text → Text) (proxy : Proxy) (login : Login) (n : ℕ) where
  authenticated-Open :
      (method uri headers : Text) (size : ℕ) (challenge : Text × Text)
      → Triple
          (Open proxy 1 n)
          (authenticated md5 proxy login method uri headers size challenge)
          (λ _. Open proxy 1 n)
          (Open proxy 1 n)
  unfolding authenticated
  authenticated-Open method uri headers size (nonce, realm) = exchange-Open proxy n 1 _ size

  keepalive_answer-Open :
      (uri first : Text) (challenge : Option (Text × Text))
      → Triple
          (Open proxy 1 n)
          (keepalive_answer md5 proxy login uri first challenge)
          (λ _. Open proxy 0 n)
          (Open proxy 1 n)
  unfolding keepalive_answer
  keepalive_answer-Open uri first none =
      Triple-bind _ _ (close_writer-Open proxy n) (λ _. Triple-pure _ (λ w o. o))
  keepalive_answer-Open uri first (some challenge) =
      Triple-bind _ _ (authenticated-Open (codes "OPTIONS") uri [] 4096 challenge)
        (λ _. Triple-bind _ _ (close_writer-Open proxy n) (λ _. Triple-pure _ (λ w o. o)))

  describe_answer-Open :
      (uri : Text) (is_last : Bool) (retry_wait post_wait : ℕ) (challenge : Option (Text × Text))
      → Triple
          (Open proxy 1 n)
          (describe_answer md5 proxy login uri is_last retry_wait post_wait challenge)
          (λ _. Open proxy 0 n)
          (Open proxy 1 n)
  unfolding describe_answer
  describe_answer-Open uri is_last retry_wait post_wait none =
      Triple-bind _ _ (close_writer-Open proxy n) (λ _. retry-Open proxy n is_last retry_wait)
  describe_answer-Open uri is_last retry_wait post_wait (some challenge) =
      Triple-bind _ _ (authenticated-Open (codes "DESCRIBE") uri _ 8192 challenge) (λ _.
        Triple-bind _ _ (close_writer-Open proxy n)
          (λ _. Triple-bind _ _ (pause-Open proxy n post_wait) (λ _. Triple-pure _ (λ w o. o))))

  confirm_answer-Open :
      (uri : Text) (challenge : Option (Text × Text))
      → Triple
          (Open proxy 1 n)
          (confirm_answer md5 proxy login uri challenge)
          (λ _. Open proxy 1 n)
          (Open proxy 1 n)
  unfolding confirm_answer
  confirm_answer-Open uri none = Triple-pure _ (λ w o. o)
  confirm_answer-Open uri (some challenge) =
      Triple-bind _ _ (authenticated-Open (codes "DESCRIBE") uri _ 8192 challenge)
        (λ _. Triple-pure _ (λ w o. o))

module _ (md5 : Text → Text) (proxy : Proxy) (login : Login) (n port : ℕ) where
  pub keepalive-Open :
      Triple
        (Open proxy 0 n)
        (rtsp_keepalive md5 proxy login port)
        (λ _. Open proxy 0 (1 + n))
        Never
  unfolding rtsp_keepalive keepalive_session
  keepalive-Open =
      Triple-except _ _
        (Triple-bind _ _ (connect-Open proxy n port) (λ _.
          Triple-except _ _
            (Triple-bind _ _ (exchange-Open proxy (1 + n) 1 _ 4096) (λ first.
              keepalive_answer-Open md5 proxy login (1 + n) (keepalive_uri port) first
                (challenge_of first)))
            (Triple-bind _ _ (Triple-weaken _ (λ w. absurd) (close_quietly-Open proxy (1 + n)))
              (λ _. Triple-pure false (λ w o. o)))))
        (Triple-pure false (λ w o. o))

  pub confirm-Open :
      (duration : ℕ)
      → Triple
          (Open proxy 0 n)
          (confirm_encoder_ready md5 proxy login port duration)
          (λ _. Open proxy 0 (1 + n))
          Never
  unfolding confirm_encoder_ready confirm_session
  confirm-Open duration =
      Triple-except _ _
        (Triple-bind _ _ (connect-Open proxy n port) (λ _.
          Triple-bind _ _
            (Triple-except {Raised = Open proxy 0 (1 + n)} _ _
              (Triple-bind _ _ (exchange-Open proxy (1 + n) 1 _ 4096) (λ first.
                confirm_answer-Open md5 proxy login (1 + n) (describe_uri port duration)
                  (challenge_of first)))
              (Triple-pure false (λ w o. o)))
            (λ ready.
              Triple-bind _ _ (Triple-weaken _ (λ w. absurd) (close_quietly-Open proxy (1 + n)))
                (λ _. Triple-pure ready (λ w o. o)))))
        (Triple-pure false (λ w o. o))

  warm_attempt-Open :
      (duration : ℕ) (is_last : Bool) (retry_wait post_wait : ℕ)
      → Triple
          (Open proxy 0 n)
          (warm_attempt md5 proxy login port duration is_last retry_wait post_wait)
          (λ _. Open proxy 0 (1 + n))
          Never
  unfolding warm_attempt describe_session
  warm_attempt-Open duration is_last retry_wait post_wait =
      Triple-except _ _
        (Triple-bind _ _ (connect-Open proxy n port) (λ _.
          Triple-except _ _
            (Triple-bind _ _ (exchange-Open proxy (1 + n) 1 _ 4096) (λ first.
              describe_answer-Open md5 proxy login (1 + n) (describe_uri port duration) is_last
                retry_wait post_wait (challenge_of first)))
            (Triple-bind _ _ (Triple-weaken _ (λ w. absurd) (close_quietly-Open proxy (1 + n)))
              (λ _. retry-Open proxy (1 + n) is_last retry_wait))))
        (retry-Open proxy (1 + n) is_last retry_wait)

module _ (md5 : Text → Text) (proxy : Proxy) (login : Login)
    (port duration retry_wait post_wait : ℕ) where
  moved :
      {P : World Action Unit → Type 0} (m : Rtsp Bool) (a b : ℕ)
      → a ≡ b
      → Triple P m (λ _. Open proxy 0 a) Never
      → Triple P m (λ _. Open proxy 0 b) Never
  moved {P} m a b e t = subst (λ k. Triple P m (λ _. Open proxy 0 k) Never) e t

  after_attempt :
      (left n : ℕ) (outcome : WarmAttempt)
      → Triple
          (Open proxy 0 n)
          (pre_warm_rtsp md5 proxy login left port duration retry_wait post_wait)
          (λ _. Open proxy 0 (left + n))
          Never
      → Triple
          (Open proxy 0 n)
          (elim outcome [
            | finished result ↦ pure result
            | again ↦ pre_warm_rtsp md5 proxy login left port duration retry_wait post_wait
          ])
          (λ _. Open proxy 0 (left + n))
          Never
  after_attempt left n (finished result) t =
      Triple-pure result (λ w. Open-le proxy 0 0 n (left + n) w (omega arith) (omega arith))
  after_attempt left n again t = t

  pub warm-Open :
      (left n : ℕ)
      → Triple
          (Open proxy 0 n)
          (pre_warm_rtsp md5 proxy login left port duration retry_wait post_wait)
          (λ _. Open proxy 0 (left + n))
          Never
  unfolding pre_warm_rtsp
  warm-Open zero n =
      Triple-pure false (λ w. Open-le proxy 0 0 n (0 + n) w (omega arith) (omega arith))
  warm-Open (suc left) n =
      Triple-bind _ _
        (warm_attempt-Open md5 proxy login n port duration (left == 0) retry_wait post_wait)
        (λ outcome.
          moved _ (left + (1 + n)) (suc left + n) (omega arith)
            (after_attempt left (1 + n) outcome (warm-Open left (1 + n))))
