-- ===== src/Tls/Registry/Callbacks.antt =====
-- How often `on_proxy_died` is called for a server.
use bosch_shc_camera_client.Common.{
  ℕ, ◌+◌, ◌≤◌, ◌<◌, ◌≡◌, ==_iff, inl, inr, Bool-cases, true, List, [], ◌∷◌, Option, none, some,
  String, arith, ◌==◌, if◌then◌else◌,
}
use bosch_shc_camera_client.Common.Dict.{string_key}
use bosch_shc_camera_client.Tls.Registry.Current.{Inv}
use bosch_shc_camera_client.Tls.Registry.Reached.{Reach-Inv}
use bosch_shc_camera_client.Tls.Registry.{
  Proxy, State, stop_tls_proxy, stop_existing, register, connect_failed, connect_done, clear, count,
  without, call_back, Step, stops, begins, starts, fails, connects, clears, calls_back, Reach,
  start, next,
}

-- Calls of the server's callback, those that are due included.
abbrev pub calls : ℕ → State → ℕ
calls n s = count n s.dying + count n s.died

-- How many calls the proxy of a server allows for: one, once it has fired.
abbrev pub allowed : Option Proxy → ℕ
allowed none = 0
allowed (some p) = if p.died_fired then 1 else 0

abbrev pub AtMostOnce : State → Type 0
AtMostOnce s = (n : ℕ) → calls n s ≤ allowed (s.proxies n)

stop_tls_proxy-AtMostOnce :
    (cam : String) (s : State) → AtMostOnce s → AtMostOnce (stop_tls_proxy cam s)
unfolding stop_tls_proxy
stop_tls_proxy-AtMostOnce cam s h j = ground (arith, h j)

-- Taking a number out once lowers its own count by one, and no other.
count-without :
    (n j : ℕ) (ms : List ℕ)
    → 0 < count n ms
    → count j (without n ms) + (if n == j then 1 else 0) ≡ count j ms
unfolding count without
count-without n j [] h = omega (arith, h)
count-without n j (m ∷ ms) h = elim (Bool-cases (m == n)) [
  | inl e ↦ ground (arith, e, (==_iff m n).0 e)
  | inr e ↦ ground (arith, e, h, count-without n j ms)
]

connect_failed-AtMostOnce :
    (n now : ℕ) (s : State) → AtMostOnce s → AtMostOnce (connect_failed n now s)
unfolding connect_failed count
connect_failed-AtMostOnce n now s h j = ground (arith, h j, h n)

Step-AtMostOnce : {s t : State} → Step s t → Inv s → AtMostOnce s → AtMostOnce t
unfolding stop_existing register connect_done clear call_back count
Step-AtMostOnce (stops cam s) v h = stop_tls_proxy-AtMostOnce cam s h
Step-AtMostOnce (begins cam s) v h = λ j. ground (arith, h j, stop_tls_proxy-AtMostOnce cam s h j)
Step-AtMostOnce (starts cam port s) v h = λ j. ground (arith, h j, v.fresh j)
Step-AtMostOnce (fails n now s) v h = connect_failed-AtMostOnce n now s h
Step-AtMostOnce (connects n s) v h = λ j. ground (arith, h j)
Step-AtMostOnce (clears s) v h = h
Step-AtMostOnce (calls_back n s due) v h = λ j. ground (arith, h j, count-without n j s.dying due)

Reach-AtMostOnce : {s : State} → Reach s → AtMostOnce s
unfolding count
Reach-AtMostOnce start = λ n. omega arith
Reach-AtMostOnce (next r st) = Step-AtMostOnce st (Reach-Inv r) (Reach-AtMostOnce r)

-- In every reachable state, the calls of a server's callback, made or due, are at most one.
pub died_at_most_once : {s : State} (n : ℕ) → Reach s → count n s.dying + count n s.died ≤ 1
died_at_most_once {s} n r = let h = Reach-AtMostOnce r n in ground (arith, h)

-- In every reachable state, if a server's callback was called, then the server's breaker has fired.
pub died_fired :
    {s : State} (n : ℕ)
    → Reach s
    → 0 < count n s.died
    → (p : Proxy) × (s.proxies n ≡ some p) × (p.died_fired ≡ true)
died_fired {s} n r called = let h = Reach-AtMostOnce r n in ground (arith, h)
