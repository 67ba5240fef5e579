-- ===== src/Common/Decimal.antt =====
-- str(n) of a natural number, and int(s) of a text of ASCII digits.
use bosch_shc_camera_client.Common.Tests.{ltb, if◌then◌else◌}
use bosch_shc_camera_client.Common.Texts.{Text}
use Prim.Native.Nat.{ℕ, zero, suc, ◌+◌, ◌-◌, ◌*◌, ◌/◌, ◌%◌, ◌<◌}
use mathlib.Core.Path.{◌≡◌, refl}
use mathlib.Core.List.{[], ◌∷◌, ◌++◌}
use native.Mathlib.Omega.{arith}

-- The digits of `n`, with fuel: more of it than the value of `n` is enough.
unfoldable pub decimal_from : ℕ → ℕ → Text
decimal_from zero n = []
decimal_from (suc fuel) n =
    let rest = decimal_from fuel (n / 10) in
    if ltb n 10 then (b'0' + n) ∷ [] else rest ++ (b'0' + n % 10) ∷ []

unfoldable pub decimal : ℕ → Text
unfolding decimal_from
decimal n = decimal_from (suc n) n

unfoldable pub read_decimal : ℕ → Text → ℕ
read_decimal acc [] = acc
read_decimal acc (c ∷ s) = read_decimal (acc * 10 + (c - b'0')) s

read_decimal-append :
    (acc : ℕ) (s t : Text) → read_decimal acc (s ++ t) ≡ read_decimal (read_decimal acc s) t
unfolding read_decimal
read_decimal-append acc [] t = refl
read_decimal-append acc (c ∷ s) t = read_decimal-append (acc * 10 + (c - b'0')) s t

digit_back : (n : ℕ) → read_decimal n ((b'0' + n % 10) ∷ []) ≡ n * 10 + n % 10
unfolding read_decimal
digit_back n = omega arith

read_decimal-decimal_from : (fuel n : ℕ) → n < fuel → read_decimal 0 (decimal_from fuel n) ≡ n
unfolding decimal_from read_decimal
read_decimal-decimal_from zero n h = elim h [ ]
read_decimal-decimal_from (suc fuel) n h = ground (
  arith,
  read_decimal-append 0 (decimal_from fuel (n / 10)) ((b'0' + n % 10) ∷ []),
  read_decimal-decimal_from fuel (n / 10),
)

-- Reading what was printed gives the number back.
pub read_decimal-decimal : (n : ℕ) → read_decimal 0 (decimal n) ≡ n
unfolding decimal
read_decimal-decimal n = read_decimal-decimal_from (suc n) n (omega arith)
