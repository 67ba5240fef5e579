-- ===== src/Tests/Proxies.antt =====
-- Runs of the proxies of tls_proxy.py: one that dies of a burst of failures, and its pipe.
use bosch_shc_camera_client.Common.{
  ℕ, ◌+◌, ◌≤◌, ◌<◌, ◌≡◌, ◌==◌, if◌then◌else◌, refl, inl, true, false, ◌&&◌, List, [], ◌∷◌, ◌++◌,
  none, some, arith, leb, length,
}
use bosch_shc_camera_client.Common.Texts.{Text, codes, contains}
use bosch_shc_camera_client.Common.Dict.{string_key, get, put}
use bosch_shc_camera_client.Tls.Breaker.{
  closed, Attempt, failed, connected, trips_at, trips_in, run,
}
use bosch_shc_camera_client.Tls.Breaker.History.{
  streak, oldest, failures_at, trips_at_iff, stale_streak_never_trips,
}
use bosch_shc_camera_client.Tls.Registry.{
  Proxy, State, register, connect_failed, count, call_back, Step, is_some, starts, fails,
  calls_back, initial, Reach, start, next,
}
use bosch_shc_camera_client.Tls.Registry.Current.{Serves}
use bosch_shc_camera_client.Tls.Registry.Reached.{registered-Serves}
use bosch_shc_camera_client.Tls.Registry.Callbacks.{died_at_most_once}
use bosch_shc_camera_client.Tls.Registry.Bursts.{fail_at, Down, burst-Down}
use bosch_shc_camera_client.Tls.Handling.{Connection, handle_client}
use bosch_shc_camera_client.Tls.Handling.Relaying.{IsNeutral, handle_client-relays}
use bosch_shc_camera_client.Tls.Transport.{
  chunk, idle, undrained, drained, after_transport, forward,
}
use bosch_shc_camera_client.Tls.Transport.Setup.{
  Header, header_text, IsHeader, channels, forward-header,
}
use bosch_shc_camera_client.Common.Utf8.{encode_utf8}
use bosch_shc_camera_client.Rcp.Markup.{is_nonspace_str}
use bosch_shc_camera_client.Tls.Transport.Rewriting.{until_end, IsStart, NoTransport}

abbrev past : List Attempt
past = failed 10 ∷ connected ∷ failed 20 ∷ failed 30 ∷ []

trips_at_iff_example : trips_at (run closed past) (failed 40) ≡ (
    leb 5 (length (streak [] past ++ 40 ∷ []))
    && (elim (oldest (streak [] past ++ 40 ∷ [])) [ none ↦ false | some t ↦ leb 40 (t + 30000) ]))
trips_at_iff_example = trips_at_iff past 40

-- Two failures, and eight more in the second after the window has passed.
stale_streak_never_trips_example :
    trips_in
      (record { fail_count = 2; first_fail_at = some 0 })
      (failures_at (30001 ∷ 30002 ∷ 30003 ∷ 30004 ∷ 30005 ∷ 30006 ∷ []))
    ≡ false
stale_streak_never_trips_example =
    stale_streak_never_trips (record { fail_count = 2; first_fail_at = some 0 }) 0
      (30001 ∷ 30002 ∷ 30003 ∷ 30004 ∷ 30005 ∷ 30006 ∷ []) refl (omega arith)
      (omega arith, (omega arith, (omega arith, (omega arith, (omega arith, (omega arith, tt))))))

abbrev new_proxy : Proxy
new_proxy = record { cam_id = "a"; breaker = closed; died_fired = false; is_listening = true }

abbrev started : State
started = register "a" 4000 initial

abbrev failing : State
failing = connect_failed 0 4 (connect_failed 0 3 (connect_failed 0 2 (connect_failed 0 1 started)))

abbrev tripped : State
tripped = connect_failed 0 5 failing

started-Reach : Reach started
started-Reach = next start (starts "a" 4000 initial)

failing-Reach : Reach failing
failing-Reach =
    next (next (next (next started-Reach (fails 0 1 _)) (fails 0 2 _)) (fails 0 3 _)) (fails 0 4 _)

abbrev called : State
called = call_back 0 tripped

called-Reach : Reach called
unfolding connect_failed register get put call_back count
called-Reach = next (next failing-Reach (fails 0 5 failing)) (calls_back 0 tripped (omega arith))

registered-Serves_example : Serves "a" 0 failing × (is_some (get "a" failing.port_cache) ≡ true)
unfolding connect_failed register get put
registered-Serves_example = registered-Serves {s = failing} "a" 0 failing-Reach refl

died_at_most_once_example : count 0 called.dying + count 0 called.died ≤ 1
died_at_most_once_example = died_at_most_once {s = called} 0 called-Reach

-- A second proxy for the camera, while the first one is failing.
abbrev replaced : State
replaced = register "a" 4001 failing

abbrev old_proxy : Proxy
old_proxy = record {
  cam_id = "a";
  breaker = record { fail_count = 4; first_fail_at = some 1 };
  died_fired = false;
  is_listening = true;
}

plain-NoTransport : NoTransport (codes "CSeq: 3")
unfolding after_transport
plain-NoTransport = (refl, (refl, (refl, (refl, (refl, (refl, (refl, tt)))))))

-- A request in two lines, with the white space and the profile that some players send.
abbrev udp : Header
udp = record { space = codes " "; profile = codes "/UDP"; ports = codes "5000-5001" }

abbrev setup_line : Text
setup_line = codes "SETUP u\n"

udp-IsHeader : IsHeader udp
unfolding is_nonspace_str
udp-IsHeader = record {
  white = (refl, tt);
  plain = (refl, (refl, (refl, (refl, tt))));
  named = refl;
  one_line = (refl, (refl, (refl, (refl, (refl, (refl, (refl, (refl, (refl, tt)))))))));
}

forward-header_example :
    forward true 4 (encode_utf8 (setup_line ++ header_text udp (codes "\r\n")))
    ≡ (6, encode_utf8 (setup_line ++ (channels 4 ++ codes "\r\n")))
unfolding contains encode_utf8 after_transport
forward-header_example =
    forward-header 4 setup_line (codes "\r\n") udp refl refl
      (refl, (refl, (refl, (refl, (refl, (refl, (refl, (refl, tt)))))))) udp-IsHeader refl
      (refl, (refl, tt))

burst-Down_example :
    let t = fail_at 0 (1 ∷ 2 ∷ 3 ∷ 30001 ∷ 30001 ∷ 30001 ∷ []) started in
    Down 0 "a" [] t × Step t (call_back 0 t)
unfolding register get put
burst-Down_example =
    burst-Down {s = started} "a" 0 1 new_proxy (2 ∷ 3 ∷ 30001 ∷ 30001 ∷ 30001 ∷ []) started-Reach
      refl refl refl (omega arith, (omega arith, (omega arith, (omega arith, (omega arith, tt)))))
      (omega arith)

-- The client is gone at the second chunk of the camera.
abbrev relayed : Connection
relayed = record {
  client_reads = chunk (codes "OPTIONS") ∷ idle ∷ [];
  camera_reads = chunk (codes "RTSP/1.0 200 OK") ∷ chunk (codes "$") ∷ [];
  client_writes = λ k. if k == 0 then drained else undrained;
  camera_writes = λ k. drained;
}

setup_free : IsNeutral (codes "OPTIONS")
unfolding contains
setup_free = inl refl

only_first : (k : ℕ) → k < 1 → relayed.client_writes k ≡ drained
only_first k below = ground (arith, below)

handle_client-relays_example :
    let result = handle_client 0 9 (some relayed) started in
    IsStart 1 (until_end relayed.camera_reads) result.1.to_client
    × IsStart 1 (until_end relayed.client_reads) result.1.to_camera
    × (result.0.proxies 0 ≡ some (record new_proxy { breaker = closed }))
unfolding register until_end contains
handle_client-relays_example =
    handle_client-relays 0 9 1 1 relayed new_proxy started refl (setup_free, tt)
      (omega arith, only_first) (omega arith, λ k below. refl)
