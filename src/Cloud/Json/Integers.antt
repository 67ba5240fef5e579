-- ===== src/Cloud/Json/Integers.antt =====
-- Whole numbers that a float holds exactly.
use bosch_shc_camera_client.Common.{ℕ, suc, ◌^◌, ◌<◌, ◌≡◌, refl, some, arith}
use bosch_shc_camera_client.Common.Integers.{pos, signed}
use bosch_shc_camera_client.Common.Rounding.{nearest}
use bosch_shc_camera_client.Cloud.Json.{
  int, halvings_from, double_of, float_of_int, number_of, rounded, integer_of,
}

halvings_none : (fuel n : ℕ) → n < 2 ^ 53 → halvings_from (suc fuel) n ≡ 0
unfolding halvings_from
halvings_none fuel n h = ground (arith, h)

nearest_one : (n : ℕ) → nearest n 1 ≡ n
unfolding nearest
nearest_one n = ground arith

double_of_small : (n : ℕ) → n < 2 ^ 53 → double_of n ≡ some n
unfolding double_of
double_of_small n h = rw (halvings_none 1023 n h, nearest_one n) (ground (arith, h))

pub integer_of_small : (n : ℕ) → n < 2 ^ 53 → integer_of (int (pos n)) ≡ some (pos n)
unfolding integer_of number_of float_of_int rounded signed
integer_of_small n h =
    rw (integer_of, number_of, float_of_int, double_of_small n h, rounded, nearest_one n) refl
