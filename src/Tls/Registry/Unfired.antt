-- ===== src/Tls/Registry/Unfired.antt =====
-- A server that listens has not fired, in every reachable state.
use bosch_shc_camera_client.Common.{
  ℕ, ◌≡◌, refl, Bool, true, not, ◌&&◌, Option, none, some, String, arith,
}
use bosch_shc_camera_client.Common.Dict.{string_key}
use bosch_shc_camera_client.Tls.Registry.{
  Proxy, State, stop_tls_proxy, stop_existing, register, connect_failed, connect_done, clear,
  call_back, Step, stops, begins, starts, fails, connects, clears, calls_back, Reach, start, next,
}

-- A proxy that listens has not fired.
abbrev pub unfired : Option Proxy → Bool
unfired none = true
unfired (some p) = not (p.is_listening && p.died_fired)

abbrev pub Unfired : State → Type 0
Unfired s = (n : ℕ) → unfired (s.proxies n) ≡ true

stop_tls_proxy-Unfired : (cam : String) (s : State) → Unfired s → Unfired (stop_tls_proxy cam s)
unfolding stop_tls_proxy
stop_tls_proxy-Unfired cam s h j = ground (arith, h j)

connect_failed-Unfired : (n now : ℕ) (s : State) → Unfired s → Unfired (connect_failed n now s)
unfolding connect_failed
connect_failed-Unfired n now s h j = ground (arith, h j, h n)

Step-Unfired : {s t : State} → Step s t → Unfired s → Unfired t
unfolding stop_existing register connect_done clear call_back
Step-Unfired (stops cam s) h = stop_tls_proxy-Unfired cam s h
Step-Unfired (begins cam s) h = λ j. ground (arith, h j, stop_tls_proxy-Unfired cam s h j)
Step-Unfired (starts cam port s) h = λ j. ground (arith, h j)
Step-Unfired (fails n now s) h = connect_failed-Unfired n now s h
Step-Unfired (connects n s) h = λ j. ground (arith, h j, h n)
Step-Unfired (clears s) h = h
Step-Unfired (calls_back n s due) h = h

pub Reach-Unfired : {s : State} → Reach s → Unfired s
Reach-Unfired start = λ n. refl
Reach-Unfired (next r st) = Step-Unfired st (Reach-Unfired r)
