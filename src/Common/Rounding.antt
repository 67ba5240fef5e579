-- ===== src/Common/Rounding.antt =====
-- `round(num / den, 1)` of Python: the quotient is rounded to a double (53 bits, ties to even), and
-- the exact value of that double to the nearest tenth (ties to even). The result is in tenths.
use bosch_shc_camera_client.Common.Tests.{leb, ltb, if◌then◌else◌}
use Prim.Native.Nat.{ℕ, zero, suc, ◌+◌, ◌*◌, ◌/◌, ◌%◌, ◌^◌}

-- num / den to the nearest integer, ties to even
unfoldable pub nearest : ℕ → ℕ → ℕ
nearest num den =
    let q = num / den in
    let r = num % den in if ltb (2 * r) den then q else if ltb den (2 * r) then q + 1 else q + q % 2

-- The least k, up to the fuel, for which num * 2 ^ k / den has 53 bits.
unfoldable pub scale_from : ℕ → ℕ → ℕ → ℕ
scale_from zero num den = 0
scale_from (suc fuel) num den =
    let more = suc (scale_from fuel (2 * num) den) in if leb (2 ^ 52 * den) num then 0 else more

-- Enough for quotients between 2 ^ -1022 and 2 ^ 53.
abbrev pub scale_fuel : ℕ
scale_fuel = 1075

unfoldable pub round_tenths : ℕ → ℕ → ℕ
unfolding nearest scale_from
round_tenths zero den = 0
round_tenths (suc n) den =
    let k = scale_from scale_fuel (suc n) den in nearest (10 * nearest (suc n * 2 ^ k) den) (2 ^ k)
