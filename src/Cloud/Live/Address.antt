-- ===== src/Cloud/Live/Address.antt =====
-- live.py: addresses. A host and a port that were joined by a colon are read back.
use bosch_shc_camera_client.Common.{
  ℕ, zero, suc, and_true, ◌+◌, ◌*◌, ◌/◌, ◌%◌, ◌≤◌, ◌<◌, Bool, true, false, List, [], ◌∷◌, ◌++◌, ◌≡◌,
  refl, ltb, lt→ltb, le→leb, ◌==◌, if◌then◌else◌, arith, is_empty, all, length, length-append,
}
use bosch_shc_camera_client.Common.Texts.{Text, split, split_onto}
use bosch_shc_camera_client.Common.Splitting.{Without}
use bosch_shc_camera_client.Common.Decimal.{decimal, decimal_from, read_decimal-decimal}
use bosch_shc_camera_client.Cloud.Wire.{done}
use bosch_shc_camera_client.Cloud.Live.{
  is_label_char, is_label, is_host, is_digit, partition_colon, port_of, checked_address,
}

partition_colon-append : (s t : Text) → Without b':' s → partition_colon (s ++ b':' ∷ t) ≡ (s, t)
unfolding partition_colon
partition_colon-append [] t h = refl
partition_colon-append (c ∷ s) t (h, hs) = rw (partition_colon-append s t hs, h) refl

all-append : (p : ℕ → Bool) (s t : Text) → all p s ≡ true → all p t ≡ true → all p (s ++ t) ≡ true
all-append p [] t hs ht = ht
all-append p (c ∷ s) t hs ht =
    let parts = and_true (p c) (all p s) hs in rw (parts.0) (all-append p s t parts.1 ht)

-- Labels without a colon.
abbrev plain : List Text → Bool
plain = all (all is_label_char)

label_plain : (s : Text) → is_label s ≡ true → all is_label_char s ≡ true
unfolding is_label
label_plain s h = ground (arith, h)

labels_plain : (ws : List Text) → all is_label ws ≡ true → plain ws ≡ true
labels_plain [] h = refl
labels_plain (w ∷ ws) h =
    let parts = and_true (is_label w) (all is_label ws) h in
    rw (label_plain w parts.0) (labels_plain ws parts.1)

plain_onto :
    (c : ℕ) (ws : List Text)
    → plain (split_onto c ws) ≡ true
    → (is_label_char c ≡ true) × (plain ws ≡ true)
plain_onto c [] h = ground (arith, h)
plain_onto c (w ∷ ws) h = ground (arith, h)

label_char_plain : (c : ℕ) → is_label_char c ≡ true → (c == b':') ≡ false
unfolding is_label_char
label_char_plain c h = ground (arith, h)

plain-Without : (s : Text) → plain (split b'.' s) ≡ true → Without b':' s
unfolding split
plain-Without [] h = tt
plain-Without (c ∷ s) h = cases (c == b'.') refl h (λ k. plain-Without s k)
  where
    cases :
        (b : Bool)
        → (c == b'.') ≡ b
        → plain (if b then [] ∷ split b'.' s else split_onto c (split b'.' s)) ≡ true
        → (plain (split b'.' s) ≡ true → Without b':' s)
        → ((c == b':') ≡ false) × Without b':' s
    cases true e k rest = (ground (arith, e), rest k)
    cases false e k rest =
        let parts = plain_onto c (split b'.' s) k in (label_char_plain c parts.0, rest parts.1)

digit-decimal_from : (fuel n : ℕ) → all is_digit (decimal_from fuel n) ≡ true
unfolding decimal_from
digit-decimal_from zero n = refl
digit-decimal_from (suc fuel) n = ground (
  arith,
  digit-decimal_from fuel (n / 10),
  all-append is_digit (decimal_from fuel (n / 10)) ((b'0' + n % 10) ∷ []),
)

nonempty-append : (s : Text) (c : ℕ) → is_empty (s ++ c ∷ []) ≡ false
nonempty-append [] c = refl
nonempty-append (d ∷ s) c = refl

nonempty-decimal : (n : ℕ) → is_empty (decimal n) ≡ false
unfolding decimal decimal_from
nonempty-decimal n = cases (ltb n 10)
  where
    cases :
        (b : Bool)
        → is_empty (if b then (b'0' + n) ∷ [] else decimal_from n (n / 10) ++ (b'0' + n % 10) ∷ [])
          ≡ false
    cases true = refl
    cases false = nonempty-append (decimal_from n (n / 10)) (b'0' + n % 10)

-- At most `k` digits for a number below `bound`.
abbrev Digits : ℕ → ℕ → Type 0
Digits k bound = (fuel n : ℕ) → n < bound → length (decimal_from fuel n) ≤ k

one_digit : Digits 1 10
unfolding decimal_from
one_digit zero n h = omega arith
one_digit (suc fuel) n h = ground arith

next_digit : (k bound : ℕ) → Digits k bound → Digits (suc k) (bound * 10)
unfolding decimal_from
next_digit k bound d zero n h = omega arith
next_digit k bound d (suc fuel) n h =
    ground
      (arith, d fuel (n / 10), length-append (decimal_from fuel (n / 10)) ((b'0' + n % 10) ∷ []))

five-Digits : Digits 5 100000
five-Digits = next_digit 4 10000 (next_digit 3 1000 (next_digit 2 100 (next_digit 1 10 one_digit)))

length-decimal : (n : ℕ) → n ≤ 65535 → length (decimal n) ≤ 5
unfolding decimal
length-decimal n h = five-Digits (suc n) n (omega arith)

digit-decimal : (n : ℕ) → all is_digit (decimal n) ≡ true
unfolding decimal
digit-decimal n = digit-decimal_from (suc n) n

port_of-decimal : (n : ℕ) → n ≤ 65535 → port_of (decimal n) ≡ n
unfolding port_of
port_of-decimal n h =
    rw (nonempty-decimal n, digit-decimal n, le→leb (length (decimal n)) 5 (length-decimal n h))
      (read_decimal-decimal n)

host-Without : (host : Text) → is_host host ≡ true → Without b':' host
unfolding is_host
host-Without host h = plain-Without host (labels_plain (split b'.' host) h)

-- A host of labels and a port from 1 to 65535, joined by a colon, are read back as they were.
pub checked_address-join :
    (host : Text) (port : ℕ)
    → is_host host ≡ true
    → 1 ≤ port
    → port ≤ 65535
    → checked_address (partition_colon (host ++ b':' ∷ decimal port)) ≡ done (host, port)
unfolding checked_address
checked_address-join host port h low high =
    rw
      (
        partition_colon-append host (decimal port) (host-Without host h),
        port_of-decimal port high,
        lt→ltb 0 port low,
        le→leb port 65535 high,
        h,
      )
      refl
