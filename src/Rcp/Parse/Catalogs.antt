-- ===== src/Rcp/Parse/Catalogs.antt =====
-- `_parse_iva_catalog`, `_parse_alarm_catalog`, `_parse_network_services`, `_parse_tls_cert`.
use bosch_shc_camera_client.Common.{
  ℕ, zero, suc, ◌+◌, ◌-◌, ◌*◌, ◌/◌, ◌%◌, min, Bool, true, false, not, ◌&&◌, ◌||◌, List, [], ◌∷◌,
  ◌++◌, Option, none, some, String, ltb, leb, ◌==◌, if◌then◌else◌, length, is_empty, map, keep,
  take,
}
use bosch_shc_camera_client.Common.Texts.{Bytes, Text, codes, split, strip, contains, lower}
use bosch_shc_camera_client.Rcp.Parse.Words.{slice, word, hex}

pub record Module : Type 0 where
  pub module_id : ℕ
  pub version : ℕ
  pub flags : ℕ
  pub active : Bool

abbrev pub entry_size : ℕ
entry_size = 6

unfoldable pub module_of : Bytes → Module
unfolding slice word
module_of chunk = record {
  module_id = word (slice chunk 0 2);
  version = word (slice chunk 2 4);
  flags = word (slice chunk 4 6);
  active = word (slice chunk 4 6) % 2 == 1;
}

-- The rounds i, i + 1, ... of the loop; `left` of them are to come.
unfoldable pub modules_from : Bytes → ℕ → ℕ → List Module
unfolding module_of
modules_from raw i zero = []
modules_from raw i (suc left) =
    let chunk = slice raw (i * entry_size) ((i + 1) * entry_size) in
    let rest = modules_from raw (i + 1) left in
    if ltb (length chunk) entry_size
    then []
    else if ltb 0 (module_of chunk).module_id
    then module_of chunk ∷ rest
    else rest

unfoldable pub parse_iva_catalog : Bytes → List Module
unfolding modules_from
parse_iva_catalog raw = modules_from raw 0 (min (length raw / entry_size) 65)

-- str.isspace of one character, which str.strip() strips
unfoldable pub is_space : ℕ → Bool
is_space c =
    leb 9 c && leb c 13
    || leb 28 c && leb c 32
    || c == 0x85
    || c == 0xa0
    || c == 0x1680
    || leb 0x2000 c && leb c 0x200a
    || c == 0x2028
    || c == 0x2029
    || c == 0x202f
    || c == 0x205f
    || c == 0x3000

-- bytes.decode("ascii", errors="replace")
unfoldable pub decode_ascii : Bytes → Text
decode_ascii = map (λ b. if ltb b 128 then b else 0xfffd)

-- bytes.decode("utf-16-be", errors="replace"), by the unit at hand and the one that follows
unfoldable pub decode_utf16 : Bytes → Text
decode_utf16 [] = []
decode_utf16 (a ∷ []) = 0xfffd ∷ []
decode_utf16 (a ∷ b ∷ []) = (if leb 0xd8 a && leb a 0xdf then 0xfffd else a * 256 + b) ∷ []
decode_utf16 (a ∷ b ∷ c ∷ []) =
    if leb 0xd8 a && leb a 0xdb
    then 0xfffd ∷ []
    else (if leb 0xdc a && leb a 0xdf then 0xfffd else a * 256 + b) ∷ 0xfffd ∷ []
decode_utf16 (a ∷ b ∷ c ∷ d ∷ s) =
    let after_pair = decode_utf16 s in
    let after_unit = decode_utf16 (c ∷ d ∷ s) in
    if leb 0xd8 a && leb a 0xdb && leb 0xdc c && leb c 0xdf
    then (0x10000 + ((a - 0xd8) * 256 + b) * 1024 + ((c - 0xdc) * 256 + d)) ∷ after_pair
    else (if leb 0xd8 a && leb a 0xdf then 0xfffd else a * 256 + b) ∷ after_unit

-- [p.strip() for p in text.split("\x00") if p.strip()]
unfoldable pub null_separated : Text → List Text
unfolding is_space
null_separated text = keep (λ p. not (is_empty p)) (map (strip is_space) (split 0 text))

-- "".join(c for c in name if c.isprintable() or c == " "), for the platform's `isprintable`
unfoldable pub clean : (ℕ → Bool) → Text → Text
clean printable = keep (λ c. printable c || c == 32)

-- `if name and len(name) > 1`
abbrev pub is_long : Text → Bool
is_long name = ltb 1 (length name)

unfoldable pub parse_network_services : (ℕ → Bool) → Bytes → List Text
unfolding decode_ascii null_separated clean
parse_network_services printable raw =
    keep is_long (map (clean printable) (null_separated (decode_ascii raw)))

-- str.lower of one character, as far as a search for ASCII words can tell: only these two of the
-- others have an ASCII letter in their lower case.
unfoldable pub lower_chars : ℕ → Text
unfolding lower
lower_chars c =
    if c == 0x212a then b'k' ∷ [] else if c == 0x130 then b'i' ∷ 0x307 ∷ [] else lower c ∷ []

unfoldable pub lower_text : Text → Text
unfolding lower_chars
lower_text [] = []
lower_text (c ∷ s) = lower_chars c ++ lower_text s

unfoldable pub alarm_type : Text → String
unfolding contains
alarm_type name_lower =
    if has "virtual alarm"
    then "virtual"
    else if has "flame"
    then "flame"
    else if has "smoke"
    then "smoke"
    else if has "audio"
    then "audio"
    else if has "signal" || has "loss"
    then "signal"
    else if has "storage" || has "disk"
    then "storage"
    else if has "motion" || has "resilmotion" || has "resimotion"
    then "motion"
    else if has "reference"
    then "reference"
    else if has "config"
    then "config"
    else if has "global"
    then "global_change"
    else if has "task"
    then "task"
    else "unknown"
  where
    has : String → Bool
    has word = contains name_lower (codes word)

pub record Alarm : Type 0 where
  pub id : ℕ
  pub name : Text
  pub type : String

-- The loop over enumerate(parts), from index i on.
unfoldable pub alarms_from : (ℕ → Bool) → ℕ → List Text → List Alarm
unfolding clean lower_text alarm_type
alarms_from printable i [] = []
alarms_from printable i (part ∷ parts) =
    let name = clean printable part in
    let rest = alarms_from printable (i + 1) parts in
    if is_long name
    then record { id = i; name = name; type = alarm_type (lower_text name) } ∷ rest
    else rest

unfoldable pub parse_alarm_catalog : (ℕ → Bool) → Bytes → List Alarm
unfolding decode_utf16 null_separated alarms_from
parse_alarm_catalog printable raw = alarms_from printable 0 (null_separated (decode_utf16 raw))

-- The fields of a certificate, in the order in which they are read.
abbrev cert_fields : List String
cert_fields =
    "issuer" ∷ "subject" ∷ "serial" ∷ "not_before" ∷ "not_after" ∷ "key_size"
    ∷ "signature_algorithm" ∷ []

-- What is known of a certificate; `raw_hex` is the start of the bytes, where `cryptography` is missing
-- or raises. Reading a certificate and each of its fields is a parameter: `none` where it raises.
pub record CertInfo {ℓ} (C : Type ℓ) : Type ℓ where
  pub raw_size : ℕ
  pub fields : List (String × C)
  pub raw_hex : Option Text

-- The fields up to the first that raises, and whether one does.
unfoldable pub fill {ℓ} :
    {C : Type ℓ} → (String → Option C) → List String → List (String × C) × Bool
fill cert [] = ([], false)
fill cert (name ∷ names) =
    let (fields, raised) = fill cert names in
    elim (cert name) [ none ↦ ([], true) | some value ↦ ((name, value) ∷ fields, raised) ]

abbrev raw_start : Bytes → Text
raw_start raw = hex (take 40 raw) ++ codes "..."

unfoldable pub parse_tls_cert {ℓ} :
    {C : Type ℓ} → (Bytes → Option (String → Option C)) → Bytes → CertInfo C
unfolding fill
parse_tls_cert load raw = elim (load raw) [
  | none ↦ record { raw_size = length raw; fields = []; raw_hex = some (raw_start raw) }
  | some cert ↦
      let (fields, raised) = fill cert cert_fields in
      record {
        raw_size = length raw;
        fields = fields;
        raw_hex = if raised then some (raw_start raw) else none;
      }
]
