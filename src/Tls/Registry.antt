-- ===== src/Tls/Registry.antt =====
-- The proxies of all cameras: the dictionaries that the caller owns, the servers, and the callbacks.
-- Each step is what the code does between two points where it awaits, so that the steps of several
-- coroutines may follow one another in any order.
pub mod Current
pub mod Steps
pub mod Reached
pub mod Callbacks
pub mod Unfired
pub mod Bursts
use bosch_shc_camera_client.Common.{
  ℕ, suc, ◌+◌, ◌<◌, Bool, true, false, not, ◌&&◌, ◌||◌, List, [], ◌∷◌, Option, none, some, String,
  ◌==◌, if◌then◌else◌,
}
use bosch_shc_camera_client.Common.Dict.{Key, string_key, Dict, get, put, pop}
use bosch_shc_camera_client.Tls.Breaker.{Breaker, closed, count_failure, trips}

-- One call of `start_tls_proxy`: its server, and the variables of its closures.
pub record Proxy : Type 0 where
  pub cam_id : String
  pub breaker : Breaker
  pub died_fired : Bool
  pub is_listening : Bool

-- A server is the number of its proxy, in the order of their start.
pub record State : Type 0 where
  pub port_cache : Dict String ℕ
  pub server_cache : Dict String ℕ
  pub proxies : ℕ → Option Proxy
  pub next_server : ℕ
  -- Servers whose `on_proxy_died` is due, once they have closed.
  pub dying : List ℕ
  -- The calls of `on_proxy_died`, latest first.
  pub died : List ℕ

-- proxies[n] = p
unfoldable pub set_proxy : ℕ → Proxy → State → State
set_proxy n p s = record s { proxies = λ m. if m == n then some p else s.proxies m }

-- server.close() and close_clients()
unfoldable pub close_server : ℕ → State → State
unfolding set_proxy
close_server n s = elim (s.proxies n) [
  | none ↦ s
  | some p ↦ set_proxy n (record p { is_listening = false }) s
]

-- Both dictionaries forget the camera.
unfoldable pub forget : String → State → State
forget cam s = record s { port_cache = pop cam s.port_cache; server_cache = pop cam s.server_cache }

-- `stop_tls_proxy`; waiting for the server to close is bounded and changes nothing here.
unfoldable pub stop_tls_proxy : String → State → State
unfolding close_server forget
stop_tls_proxy cam s = elim (get cam s.server_cache) [
  | none ↦ forget cam s
  | some n ↦ close_server n (forget cam s)
]

abbrev pub is_some {ℓ} : {A : Type ℓ} → Option A → Bool
is_some none = false
is_some (some a) = true

-- The first part of `start_tls_proxy`.
unfoldable pub stop_existing : String → State → State
unfolding stop_tls_proxy
stop_existing cam s =
    if is_some (get cam s.port_cache) || is_some (get cam s.server_cache)
    then stop_tls_proxy cam s
    else s

-- The last part, once `asyncio.start_server` has given a server on the port.
unfoldable pub register : String → ℕ → State → State
unfolding set_proxy
register cam port s =
    set_proxy s.next_server
      (record { cam_id = cam; breaker = closed; died_fired = false; is_listening = true })
      (record s {
        port_cache = put cam port s.port_cache;
        server_cache = put cam s.next_server s.server_cache;
        next_server = suc s.next_server;
      })

-- server_cache.get(cam_id) is server
abbrev pub is_current : ℕ → String → State → Bool
is_current n cam s = elim (get cam s.server_cache) [ none ↦ false | some m ↦ m == n ]

-- `_fire_on_proxy_died` up to its wait: only the current server leaves the dictionaries and has its
-- callback called afterwards.
unfoldable pub fire : ℕ → Proxy → State → State
unfolding close_server forget set_proxy
fire n p s =
    if p.died_fired
    then s
    else let marked = set_proxy n (record p { died_fired = true }) s in
      if is_current n p.cam_id s
      then close_server n (record (forget p.cam_id marked) { dying = n ∷ s.dying })
      else close_server n marked

-- `_handle_client` of server n, when the connection to the camera fails at this time.
unfoldable pub connect_failed : ℕ → ℕ → State → State
unfolding fire count_failure trips
connect_failed n now s = elim (s.proxies n) [
  | none ↦ s
  | some p ↦
      let b = count_failure now p.breaker in
      let q = record p { breaker = b } in
      let counted = set_proxy n q s in if trips now b then fire n q counted else counted
]

-- `_handle_client` of server n, when the connection succeeds.
unfoldable pub connect_done : ℕ → State → State
unfolding set_proxy
connect_done n s = elim (s.proxies n) [
  | none ↦ s
  | some p ↦ set_proxy n (record p { breaker = closed }) s
]

-- The loop of `stop_all_proxies` over the keys that it copied first.
unfoldable pub stop_each : List String → State → State
unfolding stop_tls_proxy
stop_each [] s = s
stop_each (cam ∷ cams) s = stop_each cams (stop_tls_proxy cam s)

abbrev pub keys : {V : Type 0} → Dict String V → List String
keys [] = []
keys ((k, v) ∷ d) = k ∷ keys d

-- port_cache.clear() and server_cache.clear()
unfoldable pub clear : State → State
clear s = record s { port_cache = []; server_cache = [] }

-- A run of `stop_all_proxies` in which no other coroutine gets a turn. It awaits for each camera, so
-- that in general it is a step `stops` for each key that it copied and a step `clears`, with steps of
-- others anywhere between them.
unfoldable pub stop_all_proxies : State → State
unfolding stop_each clear
stop_all_proxies s = clear (stop_each (keys s.server_cache) s)

unfoldable pub count : ℕ → List ℕ → ℕ
count n [] = 0
count n (m ∷ ms) = (if m == n then 1 else 0) + count n ms

-- The list without the first place at which the number stands.
unfoldable pub without : ℕ → List ℕ → List ℕ
without n [] = []
without n (m ∷ ms) = let rest = without n ms in if m == n then ms else m ∷ rest

-- The rest of `_fire_on_proxy_died` of server n, once its own wait is over: the callback.
unfoldable pub call_back : ℕ → State → State
unfolding without
call_back n s = record s { dying = without n s.dying; died = n ∷ s.died }

-- What may happen next. The callback of any server that is due may be the next one, and the
-- dictionaries may be cleared at any time.
pub data Step : State → State → Type 0 where
  stops : (cam : String) (s : State) → Step s (stop_tls_proxy cam s)
  begins : (cam : String) (s : State) → Step s (stop_existing cam s)
  starts : (cam : String) (port : ℕ) (s : State) → Step s (register cam port s)
  fails : (n now : ℕ) (s : State) → Step s (connect_failed n now s)
  connects : (n : ℕ) (s : State) → Step s (connect_done n s)
  clears : (s : State) → Step s (clear s)
  calls_back : (n : ℕ) (s : State) → 0 < count n s.dying → Step s (call_back n s)

abbrev pub initial : State
initial = record {
  port_cache = [];
  server_cache = [];
  proxies = λ n. none;
  next_server = 0;
  dying = [];
  died = [];
}

pub data Reach : State → Type 0 where
  start : Reach initial
  next : {s t : State} → Reach s → Step s t → Reach t
