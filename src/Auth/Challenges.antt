-- ===== src/Auth/Challenges.antt =====
-- auth_utils.py: the directives of a challenge are found by the pattern.
use mathlib.Core.List.{append_assoc, append-nil}
use bosch_shc_camera_client.Common.{
  ℕ, suc, ◌+◌, ◌-◌, Bool, true, false, not, List, [], ◌∷◌, ◌++◌, some, ◌≡◌, refl, sym, ap, ◌∙◌,
  ◌==◌, ==_iff, Bool-cases, inl, inr, map, is_empty, length, length-append, All, arith,
}
use bosch_shc_camera_client.Common.Texts.{Text}
use bosch_shc_camera_client.Common.Splitting.{Without}
use bosch_shc_camera_client.Auth.{
  Primitives, span, is_value, bare, quoted, value_at, value_after, match_param, params_from,
}

span-append :
    (q : ℕ → Bool) (s : Text) (c : ℕ) (t : Text)
    → All (λ x. q x ≡ true) s
    → q c ≡ false
    → span q (s ++ c ∷ t) ≡ (s, c ∷ t)
unfolding span
span-append q [] c t h k = rw (k) refl
span-append q (x ∷ s) c t (h, hs) k = rw (span-append q s c t hs k, h) refl

-- The text goes on with no character that `q` accepts.
abbrev stops : (ℕ → Bool) → Text → Bool
stops q [] = true
stops q (c ∷ t) = not (q c)

span-stops :
    (q : ℕ → Bool) (s t : Text)
    → All (λ x. q x ≡ true) s
    → stops q t ≡ true
    → span q (s ++ t) ≡ (s, t)
unfolding span
span-stops q [] [] h k = refl
span-stops q [] (c ∷ t) h k = ground (arith, k)
span-stops q (x ∷ s) t (h, hs) k = rw (span-stops q s t hs k, h) refl

-- A directive has quotes or none, a key and a value: key="value" or key=value.
abbrev pub directive_text : Bool × Text × Text → Text
directive_text (true, key, value) = key ++ b'=' ∷ b'"' ∷ (value ++ b'"' ∷ [])
directive_text (false, key, value) = key ++ b'=' ∷ value

-- The directives with ", " between them.
abbrev pub challenge_of : List (Bool × Text × Text) → Text
challenge_of [] = []
challenge_of (d ∷ []) = directive_text d
challenge_of (d ∷ e ∷ ds) = directive_text d ++ b',' ∷ 32 ∷ challenge_of (e ∷ ds)

-- A key of word characters, and a value: with quotes around it, one that holds no quote; without, one
-- or more word characters or ./+=-.
abbrev pub IsDirective : Primitives → Bool × Text × Text → Type 0
IsDirective p (true, key, value) =
    (is_empty key ≡ false) × All (λ c. p.is_word c ≡ true) key × Without b'"' value
IsDirective p (false, key, value) =
    (is_empty key ≡ false)
    × All (λ c. p.is_word c ≡ true) key
    × (is_empty value ≡ false)
    × All (λ c. is_value p c ≡ true) value

-- None of =, the comma, the space and the quote is a word character, as in Python.
abbrev pub Separates : Primitives → Type 0
Separates p =
    (p.is_word b'=' ≡ false)
    × (p.is_word b',' ≡ false)
    × (p.is_word 32 ≡ false)
    × (p.is_word b'"' ≡ false)

not_quote : (value : Text) → Without b'"' value → All (λ c. not (c == b'"') ≡ true) value
not_quote [] h = tt
not_quote (c ∷ value) (h, hs) = (rw (h) refl, not_quote value hs)

quoted-append :
    (p : Primitives) (value rest : Text)
    → Without b'"' value
    → quoted p (value ++ b'"' ∷ rest) ≡ some (value, length value + 2)
unfolding quoted
quoted-append p value rest h =
    rw (span-append (λ c. not (c == b'"')) value b'"' rest (not_quote value h) refl) refl

value_at-bare :
    (p : Primitives) (value rest : Text)
    → p.is_word b'"' ≡ false
    → is_empty value ≡ false
    → All (λ c. is_value p c ≡ true) value
    → stops (is_value p) rest ≡ true
    → value_at p (value ++ rest) ≡ some (value, length value)
unfolding value_at bare
value_at-bare p [] rest quote filled h k = grind arith
value_at-bare p (c ∷ value) rest quote filled h k = elim (Bool-cases (c == b'"')) [
  | inl e ↦
      let wrong : is_value p b'"' ≡ true = ap (is_value p) (sym ((==_iff c b'"').0 e)) ∙ h.0 in
      unfold is_value in ground (arith, wrong, quote)
  | inr e ↦ rw (e, span-stops (is_value p) (c ∷ value) rest h k) refl
]

match_param-equals :
    (p : Primitives) (key rest value : Text) (n : ℕ)
    → p.is_word b'=' ≡ false
    → is_empty key ≡ false
    → All (λ c. p.is_word c ≡ true) key
    → value_at p rest ≡ some (value, n)
    → match_param p (key ++ b'=' ∷ rest) ≡ some (key, value, length key + 1 + n)
unfolding match_param value_after
match_param-equals p key rest value n eq filled words e =
    rw (span-append p.is_word key b'=' rest words eq, filled, e) refl

params_from-skip :
    (p : Primitives) (s t : Text) → params_from p (length s) (s ++ t) ≡ params_from p 0 t
unfolding params_from
params_from-skip p [] [] = refl
params_from-skip p [] (c ∷ t) = refl
params_from-skip p (c ∷ s) t = params_from-skip p s t

suc-minus : (n : ℕ) → suc n - 1 ≡ n
suc-minus n = omega arith

params_from-matched :
    (p : Primitives) (s rest : Text) (key value : Text) (n : ℕ)
    → is_empty s ≡ false
    → length s ≡ n
    → match_param p (s ++ rest) ≡ some (key, value, n)
    → params_from p 0 (s ++ rest) ≡ (key, value) ∷ params_from p 0 rest
unfolding params_from
params_from-matched p [] rest key value n h k e = grind arith
params_from-matched p (c ∷ s) rest key value n h k e =
    rw (e, sym k, suc-minus (length s))
      (ap (λ found. (key, value) ∷ found) (params_from-skip p s rest))

nonempty-directive : (key rest : Text) → is_empty (key ++ b'=' ∷ rest) ≡ false
nonempty-directive [] rest = refl
nonempty-directive (c ∷ key) rest = refl

length-directive :
    (key rest : Text) (n : ℕ) → length rest ≡ n → length (key ++ b'=' ∷ rest) ≡ length key + 1 + n
length-directive key rest n h = ground (arith, length-append key (b'=' ∷ rest), h)

-- A directive in front of a text whose first character is in no bare value.
params_from-directive :
    (p : Primitives) (d : Bool × Text × Text) (rest : Text)
    → Separates p
    → stops (is_value p) rest ≡ true
    → IsDirective p d
    → params_from p 0 (directive_text d ++ rest) ≡ (d.1, d.2) ∷ params_from p 0 rest
params_from-directive p (true, key, value) rest (eq, comma, space, quote) k (filled, words, plain) =
    let tail = b'"' ∷ (value ++ b'"' ∷ []) in
    params_from-matched p (key ++ b'=' ∷ tail) rest key value (length key + 1 + (length value + 2))
      (nonempty-directive key tail)
      (length-directive key tail (length value + 2)
        (ground (arith, length-append value (b'"' ∷ []))))
      (ap (match_param p) (
          append_assoc key (b'=' ∷ tail) rest
          ∙ ap (λ t. key ++ b'=' ∷ b'"' ∷ t) (append_assoc value (b'"' ∷ []) rest))
        ∙ match_param-equals p key (b'"' ∷ (value ++ b'"' ∷ rest)) value (length value + 2) eq
            filled words (unfold value_at in quoted-append p value rest plain))
params_from-directive p (false, key, value) rest (eq, comma, space, quote) k
      (filled, words, some_value, chars) =
    params_from-matched p (key ++ b'=' ∷ value) rest key value (length key + 1 + length value)
      (nonempty-directive key value) (length-directive key value (length value) refl)
      (ap (match_param p) (append_assoc key (b'=' ∷ value) rest)
        ∙ match_param-equals p key (value ++ rest) value (length value) eq filled words
            (value_at-bare p value rest quote some_value chars k))

params_from-separator :
    (p : Primitives) (c : ℕ) (t : Text)
    → p.is_word c ≡ false
    → params_from p 0 (c ∷ t) ≡ params_from p 0 t
unfolding params_from match_param span
params_from-separator p c t h = rw (h) refl

comma_stops : (p : Primitives) (t : Text) → Separates p → stops (is_value p) (b',' ∷ t) ≡ true
unfolding is_value
comma_stops p t (eq, comma, space, quote) = ground (arith, comma)

-- Let a challenge be directives with ", " between them, each of them key="value" where the value holds
-- no quote, or key=value where the value is of word characters and ./+=-, and each key of word
-- characters. If '=', ',', ' ' and '"' are no word characters, then the pattern finds in the challenge
-- the directives in their order, each with its key and its value.
pub params_from-challenge_of :
    (p : Primitives) (directives : List (Bool × Text × Text))
    → Separates p
    → All (IsDirective p) directives
    → params_from p 0 (challenge_of directives) ≡ map (λ d. (d.1, d.2)) directives
unfolding params_from
params_from-challenge_of p [] apart h = refl
params_from-challenge_of p (d ∷ []) apart (h, hs) =
    ap (params_from p 0) (sym (append-nil (directive_text d)))
    ∙ params_from-directive p d [] apart refl h
params_from-challenge_of p (d ∷ e ∷ ds) apart (h, hs) =
    let rest = challenge_of (e ∷ ds) in
    params_from-directive p d (b',' ∷ 32 ∷ rest) apart (comma_stops p (32 ∷ rest) apart) h
    ∙ ap (λ found. (d.1, d.2) ∷ found)
        (params_from-separator p b',' (32 ∷ rest) apart.1
          ∙ params_from-separator p 32 rest apart.2
          ∙ params_from-challenge_of p (e ∷ ds) apart hs)
