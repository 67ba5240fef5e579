-- ===== src/Tls/Rtsp/Opened.antt =====
-- How many connections a client of the proxy has opened, and how many it has closed.
use mathlib.Core.List.{append_assoc, append-nil}
use bosch_shc_camera_client.Common.{ℕ, ◌+◌, ◌≤◌, ◌≡◌, ap, ◌∙◌, List, [], ◌∷◌, ◌++◌, arith}
use bosch_shc_camera_client.Common.Texts.{Text}
use bosch_shc_camera_client.Net.{World, Result, ok, raise}
use bosch_shc_camera_client.Tls.Rtsp.{
  Action, connect, send, receive, close, wait_closed, sleep, Proxy,
}

abbrev pub accepted : Result Text → ℕ
accepted (ok t) = 1
accepted (raise e) = 0

-- Whether the action opens a connection, after what was done before.
unfoldable pub opens : Proxy → List Action → Action → ℕ
opens proxy past (connect port) = accepted (proxy past (connect port))
opens proxy past (send t) = 0
opens proxy past (receive n) = 0
opens proxy past close = 0
opens proxy past wait_closed = 0
opens proxy past (sleep n) = 0

-- The connections that the proxy accepted.
unfoldable pub opened : Proxy → List Action → List Action → ℕ
unfolding opens
opened proxy past [] = 0
opened proxy past (a ∷ later) = opens proxy past a + opened proxy (past ++ a ∷ []) later

abbrev pub is_close : Action → ℕ
is_close (connect port) = 0
is_close (send t) = 0
is_close (receive n) = 0
is_close close = 1
is_close wait_closed = 0
is_close (sleep n) = 0

unfoldable pub closed : List Action → ℕ
closed [] = 0
closed (a ∷ later) = is_close a + closed later

abbrev pub is_connect : Action → ℕ
is_connect (connect port) = 1
is_connect (send t) = 0
is_connect (receive n) = 0
is_connect close = 0
is_connect wait_closed = 0
is_connect (sleep n) = 0

-- The attempts to open a connection.
unfoldable pub tried : List Action → ℕ
tried [] = 0
tried (a ∷ later) = is_connect a + tried later

opened-append :
    (proxy : Proxy) (past done : List Action) (a : Action)
    → opened proxy past (done ++ a ∷ []) ≡ opened proxy past done + opens proxy (past ++ done) a
unfolding opened
opened-append proxy past [] a = rw (append-nil past) (omega arith)
opened-append proxy past (b ∷ done) a =
    ap (λ n. opens proxy past b + n)
      (opened-append proxy (past ++ b ∷ []) done a
        ∙ ap (λ p. opened proxy (past ++ b ∷ []) done + opens proxy p a)
            (append_assoc past (b ∷ []) done))
    ∙ omega arith

closed-append :
    (done : List Action) (a : Action) → closed (done ++ a ∷ []) ≡ closed done + is_close a
unfolding closed
closed-append [] a = omega arith
closed-append (b ∷ done) a = omega (arith, closed-append done a)

tried-append :
    (done : List Action) (a : Action) → tried (done ++ a ∷ []) ≡ tried done + is_connect a
unfolding tried
tried-append [] a = omega arith
tried-append (b ∷ done) a = omega (arith, tried-append done a)

-- At most k connections are open, and at most n were tried.
pub record Open (proxy : Proxy) (k n : ℕ) (w : World Action Unit) : Type 0 where
  pub balance : opened proxy [] w.sent ≤ closed w.sent + k
  pub tries : tried w.sent ≤ n

-- What an action does to the bounds.
pub Open-append :
    (proxy : Proxy) (k k' n n' : ℕ) (a : Action) (w : World Action Unit)
    → opens proxy w.sent a + k ≤ is_close a + k'
    → is_connect a + n ≤ n'
    → Open proxy k n w
    → Open proxy k' n' (record w { sent = w.sent ++ a ∷ [] })
Open-append proxy k k' n n' a w h h' o = record {
  balance = omega (arith, opened-append proxy [] w.sent a, closed-append w.sent a, o.balance);
  tries = omega (arith, tried-append w.sent a, o.tries);
}
