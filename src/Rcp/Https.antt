-- ===== src/Rcp/Https.antt =====
-- local_rcp.py: reads of /rcp.xml over HTTPS, with XML answers. The network is a parameter, and so are
-- the XML parser (defusedxml) and the value of a Unicode decimal digit. The timeout is the network's.
pub mod Octets
pub mod Values
pub mod Kinds
use bosch_shc_camera_client.Common.{
  ℕ, ◌+◌, ◌*◌, Bool, true, false, not, ◌&&◌, ◌||◌, List, [], ◌∷◌, ◌++◌, Option, none, some, leb,
  ltb, ◌==◌, if◌then◌else◌, is_empty, keep, length,
}
use bosch_shc_camera_client.Common.Texts.{Text, Bytes, codes, same, strip, lstrip, rstrip}
use bosch_shc_camera_client.Common.Utf8.{decode_utf8}
use bosch_shc_camera_client.Common.Integers.{ℤ, signed}
use bosch_shc_camera_client.Rcp.Markup.{is_hex, hex_value, is_nonspace_str}

-- Elements next to one another: the tag, the text and the children of the first, and those after it.
pub data Elements : Type 0 where
  nil : Elements
  element : Text → Option Text → Elements → Elements → Elements

-- ET.fromstring: the children of the root; its ParseError; the ValueError by which defusedxml refuses
-- a document.
pub data Parsed : Type 0 where
  tree : Elements → Parsed
  parse_error : Parsed
  forbidden : Parsed

-- `.//result`: the children of each element `result` below the root, in the order of the document
unfoldable pub results : Elements → List Elements
unfolding same
results nil = []
results (element tag text children rest) =
    let below = results children ++ results rest in
    if same tag (codes "result") then children ∷ below else below

-- The first child with the tag, by its text.
unfoldable pub first_child : Text → Elements → Option (Option Text)
unfolding same
first_child tag nil = none
first_child tag (element t text children rest) =
    let later = first_child tag rest in if same t tag then some text else later

abbrev or_else : Option (Option Text) → Option (Option Text) → Option (Option Text)
or_else none later = later
or_else (some t) later = some t

unfoldable pub first_in : Text → List Elements → Option (Option Text)
unfolding first_child
first_in tag [] = none
first_in tag (r ∷ rs) = or_else (first_child tag r) (first_in tag rs)

-- root.find(".//result/" + tag)
unfoldable pub find : Text → Elements → Option (Option Text)
unfolding results first_in
find tag root = first_in tag (results root)

pub data Value : Type 0 where
  number : ℤ → Value
  characters : Text → Value
  octets : Bytes → Value

abbrev pub onto : ℕ → Option (List ℕ) → Option (List ℕ)
onto d none = none
onto d (some ds) = some (d ∷ ds)

-- Digits with one underscore at most between two of them; `must` tells that a digit has to come.
unfoldable pub digits_of : (ℕ → Option ℕ) → Bool → Text → Option (List ℕ)
digits_of digit must [] = if must then none else some []
digits_of digit must (c ∷ s) = elim (c == b'_') [
  | true ↦ (if must then none else digits_of digit true s)
  | false ↦ (elim (digit c) [ none ↦ none | some d ↦ onto d (digits_of digit false s) ])
]

abbrev sign_of : Text → Bool × Text
sign_of [] = (false, [])
sign_of (c ∷ s) = if c == b'-' then (true, s) else if c == b'+' then (false, s) else (false, c ∷ s)

abbrev pub evaluate : ℕ → List ℕ → ℕ
evaluate n [] = n
evaluate n (d ∷ ds) = evaluate (n * 10 + d) ds

-- sys.int_info.default_max_str_digits
abbrev pub max_str_digits : ℕ
max_str_digits = 4300

abbrev valued : Bool → Option (List ℕ) → Option ℤ
valued negative none = none
valued negative (some ds) =
    if ltb max_str_digits (length ds) then none else some (signed negative (evaluate 0 ds))

-- int(s) of a text with no space around it; `none` is its ValueError.
unfoldable pub int_of : (ℕ → Option ℕ) → Text → Option ℤ
unfolding digits_of signed
int_of digit s = valued (sign_of s).0 (digits_of digit true (sign_of s).1)

-- ASCII white space, which bytes.fromhex skips between two bytes
abbrev pub is_gap : ℕ → Bool
is_gap c = c == 32 || leb 9 c && leb c 13

-- bytes.fromhex(s), behind the first digit of a byte if there is one; `none` is its ValueError.
unfoldable pub from_hex_text : Option ℕ → Text → Option Bytes
unfolding is_hex hex_value
from_hex_text none [] = some []
from_hex_text (some high) [] = none
from_hex_text none (c ∷ s) = elim (is_gap c) [
  | true ↦ from_hex_text none s
  | false ↦ (elim (is_hex c) [ true ↦ from_hex_text (some (hex_value c)) s | false ↦ none ])
]
from_hex_text (some high) (c ∷ s) = elim (is_hex c) [
  | true ↦ onto (high * 16 + hex_value c) (from_hex_text none s)
  | false ↦ none
]

abbrev pub number_in : (ℕ → Option ℕ) → Option (Option Text) → Option Value
number_in digit (some (some text)) =
    if is_empty text
    then none
    else (elim (int_of digit (strip (λ c. not (is_nonspace_str c)) text)) [
      | none ↦ none
      | some n ↦ some (number n)
    ])
number_in digit _ = none

abbrev pub characters_in : Option (Option Text) → Option Value
characters_in (some (some text)) = some (characters text)
characters_in _ = none

abbrev pub spaceless : Text → Text
spaceless = keep (λ c. not (c == 32))

abbrev pub octets_in : Option (Option Text) → Option Value
octets_in (some (some text)) =
    if is_empty text
    then none
    else (elim (from_hex_text none (spaceless text)) [ none ↦ none | some bs ↦ some (octets bs) ])
octets_in _ = none

abbrev pub is_number_type : Text → Bool
is_number_type type =
    same type (codes "T_WORD") || same type (codes "T_DWORD") || same type (codes "T_BYTE")

-- What a document holds, by the type that was asked for.
unfoldable pub value_in : (ℕ → Option ℕ) → Text → Elements → Option Value
unfolding find same int_of from_hex_text lstrip rstrip is_nonspace_str
value_in digit type root = elim (find (codes "err") root) [
  | some text ↦ none
  | none ↦
      (if is_number_type type
        then number_in digit (find (codes "dec") root)
        else if same type (codes "P_STRING")
        then characters_in (find (codes "str") root)
        else if same type (codes "P_OCTET")
        then octets_in (find (codes "str") root)
        else none)
]

-- The exceptions of the network: URLError, any other OSError, ValueError, and all others, such as an
-- HTTPException of http.client.
pub data OpenError : Type 0 where
  url_error os_error value_error other_error : OpenError

pub data Fetched {ℓ} (A : Type ℓ) : Type ℓ where
  got : A → Fetched A
  raised : OpenError → Fetched A

-- The user and password that are registered for the URL, for HTTP Digest.
pub record Opening : Type 0 where
  pub url : Text
  pub credentials : Option (Text × Text)

pub record Opened : Type 0 where
  pub status : ℕ
  pub body : Fetched Bytes

abbrev pub Network : Type 0
Network = Opening → Fetched Opened

unfoldable pub rcp_url : Text → Text → Text → Text
rcp_url host command type =
    codes "https://"
    ++ host
    ++ codes "/rcp.xml?command="
    ++ command
    ++ codes "&type="
    ++ type
    ++ codes "&direction=READ&num=1&payload="

-- except (urllib.error.URLError, OSError, ValueError): return None
abbrev pub caught : Fetched (Option Value) → Fetched (Option Value)
caught (got v) = got v
caught (raised url_error) = got none
caught (raised os_error) = got none
caught (raised value_error) = got none
caught (raised other_error) = raised other_error

module _ (parse : Text → Parsed) (digit : ℕ → Option ℕ) where
  unfoldable pub parse_rcp_xml : Text → Text → Fetched (Option Value)
  unfolding value_in
  parse_rcp_xml text type = elim (parse text) [
    | tree root ↦ got (value_in digit type root)
    | parse_error ↦ got none
    | forbidden ↦ raised value_error
  ]

  unfoldable pub read_text : Text → Fetched Bytes → Fetched (Option Value)
  unfolding parse_rcp_xml decode_utf8
  read_text type (got raw) = parse_rcp_xml (decode_utf8 raw) type
  read_text type (raised e) = raised e

  unfoldable pub read_opened : Text → Fetched Opened → Fetched (Option Value)
  unfolding read_text
  read_opened type (got r) = if r.status == 200 then read_text type r.body else got none
  read_opened type (raised e) = raised e

  module _ (network : Network) where
    unfoldable pub rcp_read_local_sync : Text → Text → Text → Text → Text → Fetched (Option Value)
    unfolding read_opened rcp_url
    rcp_read_local_sync host user pwd command type = caught (
        read_opened type
          (network (record { url = rcp_url host command type; credentials = some (user, pwd) })))

    unfoldable pub rcp_read_remote_sync : Text → Text → Text → Fetched (Option Value)
    unfolding read_opened rcp_url
    rcp_read_remote_sync proxy_url_with_hash command type = caught (
        read_opened type
          (network (record { url = rcp_url proxy_url_with_hash command type; credentials = none })))
