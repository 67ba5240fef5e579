-- ===== src/Tests/Exchanges.antt =====
-- Runs of the RTSP exchanges of tls_proxy.py with a camera that accepts, challenges and confirms.
use bosch_shc_camera_client.Common.{◌≤◌, [], arith}
use bosch_shc_camera_client.Common.Texts.{Text, codes}
use bosch_shc_camera_client.Net.{World, Result, ok, raise, timed_out}
use bosch_shc_camera_client.Tls.Rtsp.{
  Action, connect, send, receive, close, wait_closed, sleep, Proxy, Login,
}
use bosch_shc_camera_client.Tls.Rtsp.Opened.{opened, closed}
use bosch_shc_camera_client.Tls.Rtsp.Warm.{pre_warm_rtsp}
use bosch_shc_camera_client.Tls.Rtsp.Closing.{Closes, pre_warm_rtsp-Closes}

-- The first answer is a challenge; the proxy does not answer the longer second read.
abbrev reply : Action → Result Text
reply (connect port) = ok []
reply (send t) = ok []
reply (receive size) = ok (codes "realm=\"r\" nonce=\"n\" 200 OK")
reply close = ok []
reply wait_closed = raise timed_out
reply (sleep n) = ok []

abbrev demo_proxy : Proxy
demo_proxy past a = reply a

abbrev no_md5 : Text → Text
no_md5 s = s

abbrev login : Login
login = record { user = codes "u"; password = codes "p" }

abbrev idle_world : World Action Unit
idle_world = record { sent = []; store = tt }

none_open : opened demo_proxy [] [] ≤ closed []
unfolding opened closed
none_open = omega arith

pre_warm_rtsp-Closes_example :
    Closes demo_proxy 5 idle_world (pre_warm_rtsp no_md5 demo_proxy login 5 4000 60 3 3 idle_world)
pre_warm_rtsp-Closes_example =
    pre_warm_rtsp-Closes no_md5 demo_proxy login 5 4000 60 3 3 idle_world none_open
