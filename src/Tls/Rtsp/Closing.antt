-- ===== src/Tls/Rtsp/Closing.antt =====
-- What the RTSP exchanges leave behind.
use bosch_shc_camera_client.Common.{ℕ, ◌+◌, ◌≤◌, ◌≡◌, refl, Bool, [], arith}
use bosch_shc_camera_client.Common.Texts.{Text}
use bosch_shc_camera_client.Net.{World, Result, ok, raise}
use bosch_shc_camera_client.Net.Triples.{Ended}
use bosch_shc_camera_client.Tls.Rtsp.{Action, Proxy, Login}
use bosch_shc_camera_client.Tls.Rtsp.Opened.{Open, opened, closed, tried}
use bosch_shc_camera_client.Tls.Rtsp.Keepalive.{rtsp_keepalive}
use bosch_shc_camera_client.Tls.Rtsp.Warm.{pre_warm_rtsp, confirm_encoder_ready}
use bosch_shc_camera_client.Tls.Rtsp.Bounds.{Never}
use bosch_shc_camera_client.Tls.Rtsp.Rounds.{keepalive-Open, confirm-Open, warm-Open}

-- Ends with a result, with no connection left open and at most n attempts to connect more.
abbrev pub Closes : Proxy → ℕ → World Action Unit → Result Bool × World Action Unit → Type 0
Closes proxy n w (r, w') =
    ((b : Bool) × (r ≡ ok b))
    × (opened proxy [] w'.sent ≤ closed w'.sent)
    × (tried w'.sent ≤ tried w.sent + n)

Closes-of :
    (proxy : Proxy) (n : ℕ) (w : World Action Unit) (r : Result Bool) (w' : World Action Unit)
    → Ended (λ _. Open proxy 0 (n + tried w.sent)) Never (r, w')
    → Closes proxy n w (r, w')
Closes-of proxy n w (ok b) w' o = ((b, refl), omega (arith, o.balance), omega (arith, o.tries))
Closes-of proxy n w (raise e) w' o = absurd o

idle-Open :
    (proxy : Proxy) (w : World Action Unit)
    → opened proxy [] w.sent ≤ closed w.sent
    → Open proxy 0 (tried w.sent) w
idle-Open proxy w h = record { balance = omega arith; tries = omega arith }

-- `rtsp_keepalive` always returns a Boolean, whatever the proxy does and whatever fails; it tries to
-- connect at most once, and if no connection was open before, none is open afterwards.
pub rtsp_keepalive-Closes :
    (md5 : Text → Text) (proxy : Proxy) (login : Login) (port : ℕ) (w : World Action Unit)
    → opened proxy [] w.sent ≤ closed w.sent
    → Closes proxy 1 w (rtsp_keepalive md5 proxy login port w)
rtsp_keepalive-Closes md5 proxy login port w h =
    Closes-of proxy 1 w _ _
      ((keepalive-Open md5 proxy login (tried w.sent) port).at w (idle-Open proxy w h))

-- `pre_warm_rtsp` always returns a Boolean, whatever the proxy does and whatever fails; it tries to
-- connect at most `max_attempts` times, and if no connection was open before, none is open afterwards.
pub pre_warm_rtsp-Closes :
    (md5 : Text → Text) (proxy : Proxy) (login : Login)
    (max_attempts port duration retry_wait post_wait : ℕ) (w : World Action Unit)
    → opened proxy [] w.sent ≤ closed w.sent
    → Closes proxy max_attempts w
        (pre_warm_rtsp md5 proxy login max_attempts port duration retry_wait post_wait w)
pre_warm_rtsp-Closes md5 proxy login max_attempts port duration retry_wait post_wait w h =
    Closes-of proxy max_attempts w _ _ (
      (warm-Open md5 proxy login port duration retry_wait post_wait max_attempts (tried w.sent)).at
        w (idle-Open proxy w h))

-- `confirm_encoder_ready` always returns a Boolean, whatever the proxy does and whatever fails; it
-- tries to connect at most once, and if no connection was open before, none is open afterwards.
pub confirm_encoder_ready-Closes :
    (md5 : Text → Text) (proxy : Proxy) (login : Login) (port duration : ℕ) (w : World Action Unit)
    → opened proxy [] w.sent ≤ closed w.sent
    → Closes proxy 1 w (confirm_encoder_ready md5 proxy login port duration w)
confirm_encoder_ready-Closes md5 proxy login port duration w h =
    Closes-of proxy 1 w _ _
      ((confirm-Open md5 proxy login (tried w.sent) port duration).at w (idle-Open proxy w h))
