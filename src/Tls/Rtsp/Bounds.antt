-- ===== src/Tls/Rtsp/Bounds.antt =====
-- What each action of a client does to the bounds of `Open`.
use bosch_shc_camera_client.Common.{ℕ, ◌+◌, ◌≤◌, Bool, true, false, [], ◌∷◌, ◌++◌, arith}
use bosch_shc_camera_client.Common.Texts.{Text}
use bosch_shc_camera_client.Net.{World, Result, ok, raise, request}
use bosch_shc_camera_client.Net.Triples.{
  Ended, Triple, Triple-pure, Triple-weaken, Triple-except, Triple-bind, Triple-request,
}
use bosch_shc_camera_client.Tls.Rtsp.{
  Action, connect, send, receive, close, wait_closed, sleep, Proxy, exchange, close_writer,
  close_quietly, pause,
}
use bosch_shc_camera_client.Tls.Rtsp.Opened.{Open, Open-append, opens, accepted}
use bosch_shc_camera_client.Tls.Rtsp.Warm.{retry}

-- No exception.
abbrev pub Never : World Action Unit → Type 0
Never w = ⊥

-- Any bound above.
pub Open-le :
    (proxy : Proxy) (k k' n n' : ℕ) (w : World Action Unit)
    → k ≤ k'
    → n ≤ n'
    → Open proxy k n w
    → Open proxy k' n' w
Open-le proxy k k' n n' w h h' o = record {
  balance = omega (arith, o.balance);
  tries = omega (arith, o.tries);
}

module _ (proxy : Proxy) (n : ℕ) where
  pub send-Open :
      (k : ℕ) (t : Text)
      → Triple (Open proxy k n) (request proxy (send t)) (λ _. Open proxy k n) (Open proxy k n)
  unfolding opens
  send-Open k t =
      Triple-request proxy (send t)
        (λ w. Open-append proxy k k n n (send t) w (omega arith) (omega arith))

  pub receive-Open :
      (k size : ℕ)
      → Triple
          (Open proxy k n)
          (request proxy (receive size))
          (λ _. Open proxy k n)
          (Open proxy k n)
  unfolding opens
  receive-Open k size =
      Triple-request proxy (receive size)
        (λ w. Open-append proxy k k n n (receive size) w (omega arith) (omega arith))

  pub wait_closed-Open :
      (k : ℕ)
      → Triple (Open proxy k n) (request proxy wait_closed) (λ _. Open proxy k n) (Open proxy k n)
  unfolding opens
  wait_closed-Open k =
      Triple-request proxy wait_closed
        (λ w. Open-append proxy k k n n wait_closed w (omega arith) (omega arith))

  pub close-Open :
      Triple (Open proxy 1 n) (request proxy close) (λ _. Open proxy 0 n) (Open proxy 0 n)
  unfolding opens
  close-Open =
      Triple-request proxy close
        (λ w. Open-append proxy 1 0 n n close w (omega arith) (omega arith))

  pub exchange-Open :
      (k : ℕ) (t : Text) (size : ℕ)
      → Triple (Open proxy k n) (exchange proxy t size) (λ _. Open proxy k n) (Open proxy k n)
  unfolding exchange
  exchange-Open k t size = Triple-bind _ _ (send-Open k t) (λ _. receive-Open k size)

  pub close_quietly-Open : Triple (Open proxy 1 n) (close_quietly proxy) (λ _. Open proxy 0 n) Never
  unfolding close_quietly
  close_quietly-Open =
      Triple-except _ _
        (Triple-bind _ _ close-Open
          (λ _. Triple-bind _ _ (wait_closed-Open 0) (λ _. Triple-pure tt (λ w o. o))))
        (Triple-pure tt (λ w o. o))

  pub close_writer-Open :
      Triple (Open proxy 1 n) (close_writer proxy) (λ _. Open proxy 0 n) (Open proxy 1 n)
  unfolding close_writer
  close_writer-Open =
      Triple-bind _ _
        (Triple-weaken _ (λ w. Open-le proxy 0 1 n n w (omega arith) (omega arith)) close-Open)
        (λ _.
          Triple-except _ _ (Triple-bind _ _ (wait_closed-Open 0) (λ _. Triple-pure tt (λ w o. o)))
            (Triple-pure tt (λ w o. o)))

  pub pause-Open :
      (seconds : ℕ) {R : World Action Unit → Type 0}
      → Triple (Open proxy 0 n) (pause seconds) (λ _. Open proxy 0 n) R
  unfolding pause opens
  pause-Open seconds = record {
    at = λ w. Open-append proxy 0 0 n n (sleep seconds) w (omega arith) (omega arith);
  }

  -- Only an accepted connection is open.
  pub connect-Open :
      (port : ℕ)
      → Triple
          (Open proxy 0 n)
          (request proxy (connect port))
          (λ _. Open proxy 1 (1 + n))
          (Open proxy 0 (1 + n))
  unfolding opens
  connect-Open port = record {
    at = λ w o.
        connected w (proxy w.sent (connect port))
          (λ k h. Open-append proxy 0 k n (1 + n) (connect port) w h (omega arith) o);
  }
    where
      connected :
          (w : World Action Unit) (r : Result Text)
          → ((k : ℕ)
              → accepted r + 0 ≤ 0 + k
              → Open proxy k (1 + n) (record w { sent = w.sent ++ connect port ∷ [] }))
          → Ended
              (λ _. Open proxy 1 (1 + n))
              (Open proxy 0 (1 + n))
              (r, record w { sent = w.sent ++ connect port ∷ [] })
      connected w (ok t) h = h 1 (omega arith)
      connected w (raise e) h = h 0 (omega arith)

  pub retry-Open :
      (is_last : Bool) (wait : ℕ) {R : World Action Unit → Type 0}
      → Triple (Open proxy 0 n) (retry is_last wait) (λ _. Open proxy 0 n) R
  unfolding retry
  retry-Open true wait = Triple-pure _ (λ w o. o)
  retry-Open false wait = Triple-bind _ _ (pause-Open wait) (λ _. Triple-pure _ (λ w o. o))
