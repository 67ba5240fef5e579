-- ===== src/Rcp/Markup.antt =====
-- The regular expressions of rcp.py, `<tag>(class+)</tag>` with IGNORECASE, and `bytes.fromhex`.
-- A greedy class+ takes as many characters as it can and gives back until the closing tag fits.
pub mod Search
use bosch_shc_camera_client.Common.{
  ℕ, ◌+◌, ◌-◌, ◌*◌, Bool, true, false, not, ◌&&◌, ◌||◌, List, [], ◌∷◌, Option, none, some, leb,
  ◌==◌, if◌then◌else◌, any,
}
use bosch_shc_camera_client.Common.Texts.{Text, Bytes, codes, lower}

-- s[:len(p)] == p under the folding `fold`, for `p` in lower case
unfoldable pub begins : (ℕ → ℕ) → Text → Text → Bool
begins fold [] s = true
begins fold (d ∷ p) [] = false
begins fold (d ∷ p) (c ∷ s) = fold c == d && begins fold p s

-- (class+)close at the head of the text
unfoldable pub greedy : (ℕ → ℕ) → (ℕ → Bool) → Text → Text → Option Text
unfolding begins
greedy fold class close [] = none
greedy fold class close (c ∷ s) =
    if class c
    then (elim (greedy fold class close s) [
      | some g ↦ some (c ∷ g)
      | none ↦ if begins fold close s then some (c ∷ []) else none
    ])
    else none

-- What follows the prefix `p`, if the text has it.
unfoldable pub after_prefix : (ℕ → ℕ) → Text → Text → Option Text
after_prefix fold [] s = some s
after_prefix fold (d ∷ p) [] = none
after_prefix fold (d ∷ p) (c ∷ s) = if fold c == d then after_prefix fold p s else none

-- A match of open(class+)close at the head of the text.
unfoldable pub match_here : (ℕ → ℕ) → (ℕ → Bool) → Text → Text → Text → Option Text
unfolding greedy after_prefix
match_here fold class open_tag close s = elim (after_prefix fold open_tag s) [
  | none ↦ none
  | some rest ↦ greedy fold class close rest
]

-- re.search: group 1 of the first match
unfoldable pub search_tag : (ℕ → ℕ) → (ℕ → Bool) → Text → Text → Text → Option Text
unfolding match_here
search_tag fold class open_tag close [] = none
search_tag fold class open_tag close (c ∷ s) = elim (match_here fold class open_tag close (c ∷ s)) [
  | some g ↦ some g
  | none ↦ search_tag fold class open_tag close s
]

-- \S of a bytes pattern
unfoldable pub is_nonspace : ℕ → Bool
is_nonspace c = not (c == 32 || leb 9 c && leb c 13)

-- \S of a str pattern: not `str.isspace`
unfoldable pub is_nonspace_str : ℕ → Bool
is_nonspace_str c = not (
    leb 9 c && leb c 13
    || leb 28 c && leb c 32
    || c == 0x85
    || c == 0xa0
    || c == 0x1680
    || leb 0x2000 c && leb c 0x200a
    || c == 0x2028
    || c == 0x2029
    || c == 0x202f
    || c == 0x205f
    || c == 0x3000)

-- [0-9a-fA-F]
unfoldable pub is_hex : ℕ → Bool
is_hex c = leb b'0' c && leb c b'9' || leb b'a' c && leb c b'f' || leb b'A' c && leb c b'F'

-- The letters that IGNORECASE of a str pattern takes for an ASCII letter: its other case, and the
-- long s, the two Turkish i and the Kelvin sign.
unfoldable pub fold_str : ℕ → ℕ
unfolding lower
fold_str c =
    if c == 0x17f
    then b's'
    else if c == 0x130 || c == 0x131
    then b'i'
    else if c == 0x212a
    then b'k'
    else lower c

-- re.search(rb"<err>(\S+)</err>", raw, re.IGNORECASE)
unfoldable pub search_err : Bytes → Option Bytes
unfolding search_tag is_nonspace lower
search_err = search_tag lower is_nonspace (codes "<err>") (codes "</err>")

-- re.search(rb"<str>(...)</str>", raw, ...) or re.search(rb"<payload>(...)</payload>", raw, ...)
unfoldable pub search_payload : Bytes → Option Bytes
unfolding search_tag is_hex lower
search_payload raw = elim (search_tag lower is_hex (codes "<str>") (codes "</str>") raw) [
  | some g ↦ some g
  | none ↦ search_tag lower is_hex (codes "<payload>") (codes "</payload>") raw
]

-- re.search(r"<sessionid>(\S+)</sessionid>", text, re.IGNORECASE)
unfoldable pub search_sessionid : Text → Option Text
unfolding search_tag is_nonspace_str fold_str
search_sessionid = search_tag fold_str is_nonspace_str (codes "<sessionid>") (codes "</sessionid>")

unfoldable pub hex_value : ℕ → ℕ
hex_value c =
    if leb b'0' c && leb c b'9'
    then c - b'0'
    else if leb b'a' c && leb c b'f'
    then c - b'a' + 10
    else c - b'A' + 10

-- bytes.fromhex on hexadecimal digits; `none` is its ValueError, on an odd number of them.
unfoldable pub from_hex : Bytes → Option Bytes
unfolding hex_value
from_hex [] = some []
from_hex (a ∷ []) = none
from_hex (a ∷ b ∷ s) = elim (from_hex s) [
  | none ↦ none
  | some bs ↦ some ((hex_value a * 16 + hex_value b) ∷ bs)
]

unfoldable pub hex_digit : ℕ → ℕ
hex_digit n = if leb n 9 then b'0' + n else b'a' + n - 10
