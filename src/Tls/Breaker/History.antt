-- ===== src/Tls/Breaker/History.antt =====
-- The breaker against the history of attempts.
use bosch_shc_camera_client.Common.{
  ℕ, ◌+◌, ◌<◌, ◌≡◌, refl, ap, ◌∙◌, false, ◌&&◌, List, [], ◌∷◌, ◌++◌, Option, none, some, arith, leb,
  length, All,
}
use bosch_shc_camera_client.Tls.Breaker.{
  Breaker, closed, count_failure, trips, Attempt, failed, connected, attempt, trips_at, run,
  trips_in, burst_window,
}

-- The times of the failures since the last connection, oldest first.
unfoldable pub streak : List ℕ → List Attempt → List ℕ
streak times [] = times
streak times (failed now ∷ more) = streak (times ++ now ∷ []) more
streak times (connected ∷ more) = streak [] more

abbrev pub oldest : List ℕ → Option ℕ
oldest [] = none
oldest (t ∷ ts) = some t

-- The breaker that a streak stands for.
abbrev pub summary : List ℕ → Breaker
summary times = record { fail_count = length times; first_fail_at = oldest times }

length-snoc : (ts : List ℕ) (t : ℕ) → length (ts ++ t ∷ []) ≡ length ts + 1
length-snoc [] t = refl
length-snoc (u ∷ ts) t = omega (arith, length-snoc ts t)

summary-snoc : (ts : List ℕ) (t : ℕ) → count_failure t (summary ts) ≡ summary (ts ++ t ∷ [])
unfolding count_failure
summary-snoc [] t = refl
summary-snoc (u ∷ ts) t = ground (arith, length-snoc ts t)

run-summary_from :
    (times : List ℕ) (past : List Attempt) → run (summary times) past ≡ summary (streak times past)
unfolding run streak
run-summary_from times [] = refl
run-summary_from times (failed now ∷ more) =
    rw (summary-snoc times now) (run-summary_from (times ++ now ∷ []) more)
run-summary_from times (connected ∷ more) = run-summary_from [] more

-- After any history of attempts, `fail_count` is the number of failures since the last connection and
-- `first_fail_at` the time of the first of them.
pub run-summary : (past : List Attempt) → run closed past ≡ summary (streak [] past)
run-summary past = run-summary_from [] past

-- The breaker trips on a failure exactly if the failures since the last connection are five or more
-- and this one is at most 30 seconds after the first.
pub trips_at_iff :
    (past : List Attempt) (now : ℕ)
    → trips_at (run closed past) (failed now) ≡ (
        leb 5 (length (streak [] past ++ now ∷ [])) && (elim (oldest (streak [] past ++ now ∷ [])) [
          | none ↦ false
          | some t ↦ leb now (t + 30000)
        ]))
unfolding trips_at trips
trips_at_iff past now =
    ap (λ b. trips_at b (failed now)) (run-summary past)
    ∙ ap (trips now) (summary-snoc (streak [] past) now)

abbrev pub failures_at : List ℕ → List Attempt
failures_at [] = []
failures_at (t ∷ ts) = failed t ∷ failures_at ts

-- Failures that all come later than 30 seconds after the first failure of the running streak never trip
-- the breaker, however many they are and however fast they come.
pub stale_streak_never_trips :
    (b : Breaker) (first : ℕ) (times : List ℕ)
    → b.first_fail_at ≡ some first
    → 0 < b.fail_count
    → All (λ t. first + burst_window < t) times
    → trips_in b (failures_at times) ≡ false
unfolding trips_in trips_at trips attempt
stale_streak_never_trips b first [] e pos late = refl
stale_streak_never_trips b first (t ∷ times) e pos late =
    ground (arith, stale_streak_never_trips (count_failure t b) first times)
