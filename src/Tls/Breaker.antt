-- ===== src/Tls/Breaker.antt =====
-- The circuit breaker of one proxy: `fail_count` and `first_fail_at` of `start_tls_proxy`, as
-- `_handle_client` moves them. Times are milliseconds of the monotonic clock.
pub mod History
use bosch_shc_camera_client.Common.{
  ℕ, ◌+◌, ◌-◌, ◌≤◌, Bool, true, false, ◌&&◌, List, [], ◌∷◌, Option, none, some, leb, ◌==◌,
  if◌then◌else◌,
}

abbrev pub max_burst : ℕ
max_burst = 5

abbrev pub burst_window : ℕ
burst_window = 30000

-- `none` is the initial -inf.
pub record Breaker : Type 0 where
  pub fail_count : ℕ
  pub first_fail_at : Option ℕ

abbrev pub closed : Breaker
closed = record { fail_count = 0; first_fail_at = none }

-- `if fail_count == 0: first_fail_at = now` and `fail_count += 1`
unfoldable pub count_failure : ℕ → Breaker → Breaker
count_failure now b = record {
  fail_count = b.fail_count + 1;
  first_fail_at = if b.fail_count == 0 then some now else b.first_fail_at;
}

-- fail_count >= _MAX_BURST and (now - first_fail_at) <= _BURST_WINDOW
unfoldable pub trips : ℕ → Breaker → Bool
trips now b =
    leb max_burst b.fail_count
    && (elim b.first_fail_at [ none ↦ false | some t ↦ leb now (t + burst_window) ])

-- The outcome of one attempt to connect to the camera.
pub data Attempt : Type 0 where
  failed : ℕ → Attempt
  connected : Attempt

unfoldable pub attempt : Breaker → Attempt → Breaker
unfolding count_failure
attempt b (failed now) = count_failure now b
attempt b connected = closed

-- Whether this attempt trips the breaker.
unfoldable pub trips_at : Breaker → Attempt → Bool
unfolding trips attempt
trips_at b (failed now) = trips now (attempt b (failed now))
trips_at b connected = false

unfoldable pub run : Breaker → List Attempt → Breaker
unfolding attempt
run b [] = b
run b (a ∷ more) = run (attempt b a) more

-- Whether some attempt of the list trips it.
unfoldable pub trips_in : Breaker → List Attempt → Bool
unfolding trips_at
trips_in b [] = false
trips_in b (a ∷ more) = if trips_at b a then true else trips_in (attempt b a) more
