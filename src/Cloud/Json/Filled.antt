-- ===== src/Cloud/Json/Filled.antt =====
-- The texts that the readers of JSON objects take: those that are not empty.
use bosch_shc_camera_client.Common.{◌≤◌, [], ◌∷◌, Option, none, some, arith, length}
use bosch_shc_camera_client.Common.Texts.{Text}
use bosch_shc_camera_client.Cloud.Json.{Json, null, bool, int, real, string, array, object, text_of}

-- A text that is used is not empty.
abbrev pub IsFilled : Option Text → Type 0
IsFilled none = Unit
IsFilled (some t) = 1 ≤ length t

pub text_of-IsFilled : (v : Json) → IsFilled (text_of v)
unfolding text_of
text_of-IsFilled (string []) = tt
text_of-IsFilled (string (c ∷ s)) = omega arith
text_of-IsFilled null = tt
text_of-IsFilled (bool b) = tt
text_of-IsFilled (int n) = tt
text_of-IsFilled (real x) = tt
text_of-IsFilled (array xs) = tt
text_of-IsFilled (object fs) = tt
