-- ===== src/Tls/Registry/Bursts.antt =====
-- What a burst of failures of a registered server leads to.
use bosch_shc_camera_client.Common.{
  ℕ, ◌+◌, ◌≤◌, ◌<◌, ◌≡◌, refl, ap, ◌∙◌, inl, inr, leb, Bool-cases, Bool, true, false, List, [], ◌∷◌,
  none, some, String, arith, All, length, ◌==◌, if◌then◌else◌,
}
use mathlib.Core.Path.{subst}
use bosch_shc_camera_client.Common.Dict.{string_key, get, get-pop_self}
use bosch_shc_camera_client.Tls.Breaker.{
  Breaker, closed, count_failure, trips, max_burst, burst_window,
}
use bosch_shc_camera_client.Tls.Registry.Reached.{registered-Serves}
use bosch_shc_camera_client.Tls.Registry.{
  Proxy, State, connect_failed, count, call_back, Step, calls_back, Reach,
}
use bosch_shc_camera_client.Tls.Registry.Unfired.{Reach-Unfired}

-- The server fails to connect at each of these times.
unfoldable pub fail_at : ℕ → List ℕ → State → State
unfolding connect_failed
fail_at n [] s = s
fail_at n (now ∷ times) s = fail_at n times (connect_failed n now s)

-- The server is down: it has fired and is closed, its camera is in neither dictionary, and besides the
-- callbacks that were due before its own is due.
pub record Down (n : ℕ) (cam : String) (due : List ℕ) (s : State) : Type 0 where
  pub proxy : Proxy
  pub found : s.proxies n ≡ some proxy
  pub fired : proxy.died_fired ≡ true
  pub quiet : proxy.is_listening ≡ false
  pub no_port : get cam s.port_cache ≡ none
  pub no_server : get cam s.server_cache ≡ none
  pub queued : (j : ℕ) → count j s.dying ≡ (if n == j then 1 else 0) + count j due

-- Server n is its camera's, has not fired, and its breaker is this one.
pub record Up (n : ℕ) (cam : String) (due : List ℕ) (b : Breaker) (s : State) : Type 0 where
  pub proxy : Proxy
  pub found : s.proxies n ≡ some proxy
  pub owner : proxy.cam_id ≡ cam
  pub calm : proxy.died_fired ≡ false
  pub breaker : proxy.breaker ≡ b
  pub registered : get cam s.server_cache ≡ some n
  pub due_before : s.dying ≡ due

-- Further failures of a server that is down change nothing of it.
connect_failed-Down :
    {n : ℕ} {cam : String} {due : List ℕ} {s : State} (now : ℕ)
    → Down n cam due s
    → Down n cam due (connect_failed n now s)
unfolding connect_failed
connect_failed-Down {n} {cam} {due} {s} now d = record {
  proxy = record d.proxy { breaker = count_failure now d.proxy.breaker };
  found = ground (arith, d.found, d.fired);
  fired = d.fired;
  quiet = d.quiet;
  no_port = ground (arith, d.found, d.fired, d.no_port);
  no_server = ground (arith, d.found, d.fired, d.no_server);
  queued = λ j. ground (arith, d.found, d.fired, d.queued j);
}

module _ {n : ℕ} {cam : String} {due : List ℕ} {b : Breaker} {s : State} (now : ℕ)
    (u : Up n cam due b s) where
  breaker_at :
      (v : Bool)
      → trips now (count_failure now b) ≡ v
      → trips now (count_failure now u.proxy.breaker) ≡ v
  breaker_at v h = ap (λ c. trips now (count_failure now c)) u.breaker ∙ h

  connect_failed-Up :
      trips now (count_failure now b) ≡ false
      → Up n cam due (count_failure now b) (connect_failed n now s)
  unfolding connect_failed
  connect_failed-Up h =
      let calm = breaker_at false h in
      record {
        proxy = record u.proxy { breaker = count_failure now u.proxy.breaker };
        found = ground (arith, u.found, calm);
        owner = u.owner;
        calm = u.calm;
        breaker = ap (count_failure now) u.breaker;
        registered = ground (arith, u.found, calm, u.registered);
        due_before = ground (arith, u.found, calm, u.due_before);
      }

  connect_failed-trips :
      trips now (count_failure now b) ≡ true → Down n cam due (connect_failed n now s)
  unfolding connect_failed count
  connect_failed-trips h =
      let tripped = breaker_at true h in
      record {
        proxy = record u.proxy {
          breaker = count_failure now u.proxy.breaker;
          died_fired = true;
          is_listening = false;
        };
        found = ground (arith, u.found, tripped, u.calm, u.owner, u.registered);
        fired = refl;
        quiet = refl;
        no_port =
            ground (
              arith,
              u.found,
              tripped,
              u.calm,
              u.owner,
              u.registered,
              get-pop_self cam s.port_cache,
            );
        no_server = ground (
          arith,
          u.found,
          tripped,
          u.calm,
          u.owner,
          u.registered,
          get-pop_self cam s.server_cache,
        );
        queued = λ j. ground (arith, u.found, tripped, u.calm, u.owner, u.registered, u.due_before);
      }

fail_at-Down :
    {n : ℕ} {cam : String} {due : List ℕ} (times : List ℕ) {s : State}
    → Down n cam due s
    → Down n cam due (fail_at n times s)
unfolding fail_at
fail_at-Down {n} {cam} {due} [] d = d
fail_at-Down {n} {cam} {due} (now ∷ times) d = fail_at-Down times (connect_failed-Down now d)

-- A breaker that counts so many failures, the first of them at this time.
abbrev counting : ℕ → ℕ → Breaker
counting k first = record { fail_count = k; first_fail_at = some first }

count_failure-counting :
    (k first now : ℕ) → 0 < k → count_failure now (counting k first) ≡ counting (k + 1) first
unfolding count_failure
count_failure-counting k first now h = ground (arith, h)

trips-counting :
    (k first now : ℕ) → now ≤ first + burst_window → trips now (counting k first) ≡ leb max_burst k
unfolding trips
trips-counting k first now h = ground (arith, h)

counted :
    (k first now : ℕ)
    → 0 < k
    → now ≤ first + burst_window
    → trips now (count_failure now (counting k first)) ≡ leb max_burst (k + 1)
counted k first now begun within =
    ap (trips now) (count_failure-counting k first now begun)
    ∙ trips-counting (k + 1) first now within

impossible : (k : ℕ) → 0 < k → k < max_burst → max_burst ≤ k + 0 → ⊥
impossible k h few enough = omega (arith, few, enough)

burst_from :
    {n : ℕ} {cam : String} {due : List ℕ} (times : List ℕ) {s : State} (k first : ℕ)
    → 0 < k
    → k < max_burst
    → All (λ t. t ≤ first + burst_window) times
    → max_burst ≤ k + length times
    → Up n cam due (counting k first) s
    → Down n cam due (fail_at n times s)
unfolding fail_at
burst_from [] k first begun few within enough u = elim (impossible k begun few enough) [ ]
burst_from {n} {cam} {due} (now ∷ times) {s} k first begun few within enough u =
    elim (Bool-cases (leb max_burst (k + 1))) [
      | inl e ↦
          fail_at-Down times (connect_failed-trips now u (counted k first now begun within.0 ∙ e))
      | inr e ↦
          burst_from times (k + 1) first (omega arith) (ground (arith, e)) within.1
            (omega (arith, enough))
            (subst (λ b. Up n cam due b (connect_failed n now s))
              (count_failure-counting k first now begun)
              (connect_failed-Up now u (counted k first now begun within.0 ∙ e)))
    ]

registered_Up :
    {s : State} (cam : String) (n : ℕ) (p : Proxy)
    → Reach s
    → get cam s.server_cache ≡ some n
    → s.proxies n ≡ some p
    → p.breaker ≡ closed
    → Up n cam s.dying closed s
registered_Up {s} cam n p r registered found fresh =
    let ((q, here, owner, listens), _) = registered-Serves cam n r registered in
    record {
      proxy = p;
      found = found;
      owner = ground (arith, here, found, owner);
      calm = ground (arith, here, found, listens, Reach-Unfired r n);
      breaker = fresh;
      registered = registered;
      due_before = refl;
    }

-- The callback of a server that is down may be called.
Down-calls_back :
    {n : ℕ} {cam : String} {due : List ℕ} {s : State} → Down n cam due s → Step s (call_back n s)
Down-calls_back {n} {cam} {due} {s} d = calls_back n s (ground (arith, d.queued n))

-- In a reachable state, let server n be its camera's and its breaker closed. If it then fails to connect
-- five times or more, the later failures at most 30 seconds after the first one, then it is down: its
-- breaker has fired, it does not listen, its camera is in neither dictionary, and its callback is due,
-- besides the callbacks that were due before, and may be called next.
pub burst-Down :
    {s : State} (cam : String) (n first : ℕ) (p : Proxy) (times : List ℕ)
    → Reach s
    → get cam s.server_cache ≡ some n
    → s.proxies n ≡ some p
    → p.breaker ≡ closed
    → All (λ t. t ≤ first + burst_window) times
    → max_burst ≤ 1 + length times
    → let t = fail_at n (first ∷ times) s in Down n cam s.dying t × Step t (call_back n t)
unfolding fail_at
burst-Down {s} cam n first p times r registered found fresh within enough =
    let down =
      burst_from times 1 first (omega arith) (omega arith) within enough
        (connect_failed-Up first (registered_Up cam n p r registered found fresh) refl) in
    (down, Down-calls_back down)
