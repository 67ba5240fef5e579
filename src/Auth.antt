-- ===== src/Auth.antt =====
-- auth_utils.py: the challenge of HTTP Digest authentication and the header that answers it. The hash
-- functions, `str.lower`, `str.upper`, the `\w` of regular expressions, `urlparse` and
-- `secrets.token_hex` are parameters.
pub mod Exchange
pub mod Rounds
pub mod Challenges
use bosch_shc_camera_client.Common.{
  ℕ, zero, suc, ◌+◌, ◌-◌, String, Bool, true, false, not, ◌||◌, List, [], ◌∷◌, ◌++◌, Option, none,
  some, ◌==◌, if◌then◌else◌, is_empty, length,
}
use bosch_shc_camera_client.Common.Texts.{Text, codes, same, split, strip, starts_with}
use bosch_shc_camera_client.Common.Dict.{text_key, Dict, get, put}
use bosch_shc_camera_client.Net.{Result, ok, raise, value_error}
use bosch_shc_camera_client.Rcp.Parse.Catalogs.{is_space}

-- The path and the query of `urlparse`.
pub record UrlParts : Type 0 where
  pub path : Text
  pub query : Text

pub record Primitives : Type 0 where
  pub md5 : Text → Text
  pub sha256 : Text → Text
  pub lower : Text → Text
  pub upper : Text → Text
  pub is_word : ℕ → Bool
  pub urlparse : Text → Result UrlParts

-- The longest prefix that `p` accepts, and the rest.
unfoldable pub span : (ℕ → Bool) → Text → Text × Text
span p [] = ([], [])
span p (c ∷ s) = let (head, tail) = span p s in if p c then (c ∷ head, tail) else ([], c ∷ s)

-- s.partition(d), without the separator
unfoldable pub partition : ℕ → Text → Text × Text
partition d [] = ([], [])
partition d (c ∷ s) =
    let (head, tail) = partition d s in if c == d then ([], s) else (c ∷ head, tail)

-- challenge.get(key, default)
abbrev pub directive : String → Text → Dict Text Text → Text
directive key default d = elim (get (codes key) d) [ none ↦ default | some v ↦ v ]

abbrev first_word : List Text → Text
first_word [] = []
first_word (w ∷ ws) = w

unfoldable pub is_session : Text → Bool
is_session algorithm = same algorithm (codes "MD5-SESS") || same algorithm (codes "SHA-256-SESS")

-- Texts with colons between them.
abbrev colons : List Text → Text
colons [] = []
colons (w ∷ []) = w
colons (w ∷ v ∷ ws) = w ++ codes ":" ++ colons (v ∷ ws)

-- The request URI: the path, and the query if there is one.
abbrev uri_of : UrlParts → Text
uri_of u = if is_empty u.query then u.path else u.path ++ codes "?" ++ u.query

abbrev quoted_field : String → Text → Text
quoted_field name value = codes name ++ codes "=\"" ++ value ++ codes "\""

abbrev when : Bool → List Text → List Text
when true ws = ws
when false ws = []

-- ", ".join(parts)
abbrev commas : List Text → Text
commas [] = []
commas (w ∷ []) = w
commas (w ∷ v ∷ ws) = w ++ codes ", " ++ commas (v ∷ ws)

abbrev header_with : (UrlParts → Text) → Result UrlParts → Result Text
header_with f (ok u) = ok (f u)
header_with f (raise e) = raise e

module _ (p : Primitives) where
  -- [\w./+=-]
  unfoldable pub is_value : ℕ → Bool
  is_value c = p.is_word c || c == b'.' || c == b'/' || c == b'+' || c == b'=' || c == b'-'

  -- [^"]*" behind the opening quote: the value, and how much it takes with both quotes.
  unfoldable pub quoted : Text → Option (Text × ℕ)
  unfolding span
  quoted s =
      let (value, rest) = span (λ c. not (c == b'"')) s in
      if is_empty rest then none else some (value, length value + 2)

  unfoldable pub bare : Text → Option (Text × ℕ)
  unfolding span is_value
  bare s =
      let (value, rest) = span is_value s in
      if is_empty value then none else some (value, length value)

  -- The value behind an equals sign.
  unfoldable pub value_at : Text → Option (Text × ℕ)
  unfolding quoted bare
  value_at [] = none
  value_at (c ∷ s) = if c == b'"' then quoted s else bare (c ∷ s)

  abbrev keyed : Text → Option (Text × ℕ) → Option (Text × Text × ℕ)
  keyed key none = none
  keyed key (some (value, n)) = some (key, value, length key + 1 + n)

  unfoldable pub value_after : Text → Text → Option (Text × Text × ℕ)
  unfolding value_at
  value_after key [] = none
  value_after key (c ∷ s) = if c == b'=' then keyed key (value_at s) else none

  -- A match of the pattern at the start of the text: the key, the value and the length of the match.
  unfoldable pub match_param : Text → Option (Text × Text × ℕ)
  unfolding span value_after
  match_param s =
      let (key, rest) = span p.is_word s in if is_empty key then none else value_after key rest

  -- What a match at the front adds, and how far it moves on.
  abbrev pub collected : Option (Text × Text × ℕ) → (ℕ → List (Text × Text)) → List (Text × Text)
  collected none more = more 0
  collected (some (key, value, n)) more = (key, value) ∷ more (n - 1)

  -- `re.finditer`, behind a match of which so many characters are left.
  unfoldable pub params_from : ℕ → Text → List (Text × Text)
  unfolding match_param
  params_from left [] = []
  params_from (suc left) (c ∷ s) = params_from left s
  params_from zero (c ∷ s) = collected (match_param (c ∷ s)) (λ left. params_from left s)

  unfoldable pub add_params : List (Text × Text) → Dict Text Text → Dict Text Text
  unfolding put
  add_params [] d = d
  add_params ((key, value) ∷ found) d = add_params found (put (p.lower key) value d)

  abbrev with_nonce : Dict Text Text → Result (Dict Text Text)
  with_nonce d = elim (get (codes "nonce") d) [ none ↦ raise value_error | some nonce ↦ ok d ]

  unfoldable pub parse_digest_challenge : Text → Result (Dict Text Text)
  unfolding partition params_from add_params is_space get
  parse_digest_challenge www_auth =
      let (scheme, params) = partition 32 www_auth in
      if same (p.lower (strip is_space scheme)) (codes "digest")
      then with_nonce (add_params (params_from 0 params) [])
      else raise value_error

  unfoldable pub qop_value : Text → Text
  unfolding split is_space
  qop_value qop =
      if is_empty qop then [] else p.lower (strip is_space (first_word (split b',' qop)))

  unfoldable pub algorithm_of : Dict Text Text → Text
  unfolding get
  algorithm_of challenge = p.upper (directive "algorithm" (codes "MD5") challenge)

  -- `_hash`
  unfoldable pub hash_of : Text → Text → Text
  unfolding starts_with
  hash_of algorithm s = if starts_with algorithm (codes "SHA-256") then p.sha256 s else p.md5 s

  unfoldable pub ha1_of : Text → Text → Text → Text → Text → Text → Text
  unfolding hash_of is_session
  ha1_of algorithm user realm password nonce cnonce =
      let ha1 = hash_of algorithm (colons (user ∷ realm ∷ password ∷ [])) in
      if is_session algorithm then hash_of algorithm (colons (ha1 ∷ nonce ∷ cnonce ∷ [])) else ha1

  unfoldable pub response_of : Text → Text → Text → Text → Text → Text → Text
  unfolding hash_of
  response_of algorithm ha1 nonce cnonce qop ha2 =
      if same qop (codes "auth")
      then hash_of algorithm (colons (ha1 ∷ nonce ∷ codes "00000001" ∷ cnonce ∷ qop ∷ ha2 ∷ []))
      else hash_of algorithm (colons (ha1 ∷ nonce ∷ ha2 ∷ []))

  -- The directives of the header, for a URI and the two hashes.
  unfoldable pub header_parts : Text → Text → Text → Text → Dict Text Text → Text → List Text
  unfolding qop_value algorithm_of is_session get
  header_parts user uri response cnonce challenge nonce =
      let algorithm = algorithm_of challenge in
      let auth = same (qop_value (directive "qop" [] challenge)) (codes "auth") in
      let opaque_value = directive "opaque" [] challenge in
      quoted_field "username" user
      ∷ quoted_field "realm" (directive "realm" [] challenge)
      ∷ quoted_field "nonce" nonce
      ∷ quoted_field "uri" uri
      ∷ (codes "algorithm=" ++ algorithm)
      ∷ quoted_field "response" response
      ∷ (when (auth || is_session algorithm) (quoted_field "cnonce" cnonce ∷ [])
          ++ when auth (codes "qop=auth" ∷ codes "nc=00000001" ∷ [])
          ++ when (not (is_empty opaque_value)) (quoted_field "opaque" opaque_value ∷ []))

  -- The header for the URI of the request; a challenge has a nonce, as it was parsed.
  unfoldable pub header_for : Text → Text → Text → Text → Dict Text Text → Text → Text
  unfolding header_parts ha1_of response_of hash_of qop_value algorithm_of get
  header_for method uri user password challenge cnonce =
      let algorithm = algorithm_of challenge in
      let nonce = directive "nonce" [] challenge in
      let ha1 = ha1_of algorithm user (directive "realm" [] challenge) password nonce cnonce in
      let ha2 = hash_of algorithm (colons (p.upper method ∷ uri ∷ [])) in
      codes "Digest "
      ++ commas (
          header_parts user uri
            (response_of algorithm ha1 nonce cnonce (qop_value (directive "qop" [] challenge)) ha2)
            cnonce challenge nonce)

  unfoldable pub build_digest_header :
      Text → Text → Text → Text → Dict Text Text → Text → Result Text
  unfolding header_for
  build_digest_header method url user password challenge cnonce =
      header_with (λ u. header_for method (uri_of u) user password challenge cnonce)
        (p.urlparse url)
