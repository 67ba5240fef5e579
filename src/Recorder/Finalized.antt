-- ===== src/Recorder/Finalized.antt =====
-- mini_nvr.py: `newest_segment_is_finalized`, which asks ffprobe for the duration of a segment. How the
-- subprocess ends is a parameter; `float` of the bytes that it prints is written out.
use bosch_shc_camera_client.Common.{
  ℕ, ◌+◌, ◌*◌, ◌^◌, Bool, true, false, not, ◌&&◌, ◌||◌, List, [], ◌∷◌, ◌++◌, Option, none, some,
  take, drop, map, is_empty, leb, ltb, ◌==◌, if◌then◌else◌,
}
use bosch_shc_camera_client.Common.Texts.{Text, Bytes, codes, same, strip, lstrip, rstrip, lower}
use bosch_shc_camera_client.Common.Decimal.{read_decimal}
use bosch_shc_camera_client.Common.Integers.{ℤ, pos, negsuc}
use bosch_shc_camera_client.Recorder.{run_length}

abbrev is_digit : ℕ → Bool
is_digit c = leb b'0' c && leb c b'9'

-- The text without its underscores, each of which must stand between two digits; `last` is the
-- character before it.
unfoldable pub join_digits : ℕ → Text → Option Text
join_digits last [] = if last == b'_' then none else some []
join_digits last (c ∷ s) =
    let rest = join_digits c s in
    if c == b'_'
    then (if is_digit last then rest else none)
    else if last == b'_' && not (is_digit c)
    then none
    else (elim rest [ none ↦ none | some t ↦ some (c ∷ t) ])

abbrev sign_of : Text → Bool × Text
sign_of [] = (false, [])
sign_of (c ∷ s) = if c == b'-' then (true, s) else if c == b'+' then (false, s) else (false, c ∷ s)

-- Digits up to the end, at least one.
abbrev digits_only : Bool × Text → Option (Bool × ℕ)
digits_only (negative, s) =
    if leb 1 (run_length is_digit s) && is_empty (drop (run_length is_digit s) s)
    then some (negative, read_decimal 0 s)
    else none

-- The exponent at the end of a number: whether it is negative, and its absolute value.
abbrev exponent : Text → Option (Bool × ℕ)
exponent [] = some (false, 0)
exponent (c ∷ s) = if lower c == b'e' then digits_only (sign_of s) else none

-- Whether mantissa / 10 ^ places, times the power of ten, is a double above zero: it is unless it is
-- rounded to zero, at half the least double or below.
abbrev above_zero : ℕ → ℕ → Option (Bool × ℕ) → Option Bool
above_zero mantissa places none = none
above_zero mantissa places (some (negative, e)) = some (
    if negative
    then ltb (10 ^ (places + e)) (mantissa * 2 ^ 1075)
    else ltb (10 ^ places) (mantissa * 10 ^ e * 2 ^ 1075))

-- The digits after a point, if there is one.
abbrev fraction : Text → Text
fraction [] = []
fraction (c ∷ s) = if c == b'.' then take (run_length is_digit s) s else []

abbrev after_fraction : Text → Text
after_fraction [] = []
after_fraction (c ∷ s) = if c == b'.' then drop (run_length is_digit s) s else c ∷ s

-- Whether a number with no sign is above zero; `none` is a ValueError.
unfoldable pub number_above_zero : Text → Option Bool
unfolding run_length read_decimal lower
number_above_zero s =
    let whole = take (run_length is_digit s) s in
    let rest = drop (run_length is_digit s) s in
    if is_empty (whole ++ fraction rest)
    then none
    else above_zero (read_decimal 0 (whole ++ fraction rest)) (run_length is_digit (fraction rest))
        (exponent (after_fraction rest))

-- The same of a number with its sign, an infinity or nan.
unfoldable pub signed_above_zero : Bool × Text → Option Bool
unfolding number_above_zero same lower
signed_above_zero (negative, s) =
    let word = map lower s in
    if same word (codes "inf") || same word (codes "infinity")
    then some (not negative)
    else if same word (codes "nan")
    then some false
    else (elim (number_above_zero s) [ none ↦ none | some b ↦ some (b && not negative) ])

-- float(stdout_bytes.strip()) > 0; `none` is a ValueError.
unfoldable pub float_above_zero : Bytes → Option Bool
unfolding join_digits signed_above_zero lstrip rstrip
float_above_zero raw = elim (join_digits 0 (strip (λ c. c == 32 || leb 9 c && leb c 13) raw)) [
  | none ↦ none
  | some s ↦ signed_above_zero (sign_of s)
]

-- The command that is started.
unfoldable pub probe_args : Text → List Text
probe_args path =
    map codes (
      "ffprobe" ∷ "-v" ∷ "error" ∷ "-show_entries" ∷ "format=duration" ∷ "-of"
      ∷ "default=noprint_wrappers=1:nokey=1" ∷ [])
    ++ path ∷ []

-- `proc.communicate()` within its time: the exit status and the output, or a TimeoutError.
pub data Communicated : Type 0 where
  finished : ℤ → Bytes → Communicated
  expired : Communicated

-- What is done to a process that does not end.
pub data Ending : Type 0 where
  kill wait : Ending

abbrev is_success : ℤ → Bool
is_success (pos n) = n == 0
is_success (negsuc n) = false

-- Of a process that was started, or `none` where starting it raises an OSError: what is returned, and
-- what is done to the process. Neither a kill that finds no process nor a wait that expires raises.
unfoldable pub newest_segment_is_finalized : Option Communicated → Bool × List Ending
unfolding float_above_zero
newest_segment_is_finalized none = (false, [])
newest_segment_is_finalized (some expired) = (false, kill ∷ wait ∷ [])
newest_segment_is_finalized (some (finished returncode stdout)) =
    if is_success returncode
    then (elim (float_above_zero stdout) [ none ↦ (false, []) | some b ↦ (b, []) ])
    else (false, [])
