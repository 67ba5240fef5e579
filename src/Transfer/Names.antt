-- ===== src/Transfer/Names.antt =====
-- media_transfer.py: `sanitize_filename` gives safe names, and keeps them.
use bosch_shc_camera_client.Common.{
  ℕ, zero, suc, ◌≤◌, ◌≡◌, refl, ap, ◌∙◌, Bool, true, false, not, ◌&&◌, [], ◌∷◌, map, take, all,
  length, length-take, arith, ◌==◌,
}
use bosch_shc_camera_client.Common.Texts.{Text, codes, starts_with, contains}
use bosch_shc_camera_client.Transfer.{
  emit, replace_dots, is_kept, masked, name_length, sanitize_filename,
}

abbrev has_dots : Text → Bool
has_dots s = contains s (codes "..")

emit-dots :
    (waits dot : Bool) (c : ℕ) (rest : Text)
    → (c == b'.') ≡ dot
    → has_dots rest ≡ false
    → has_dots (emit waits dot c rest) ≡ false
unfolding contains starts_with
emit-dots true true c rest h k = k
emit-dots true false c rest h k = ground (arith, h, k)
emit-dots false true c rest h k = k
emit-dots false false c rest h k = ground (arith, h, k)

replace_dots-dots : (waits : Bool) (s : Text) → has_dots (replace_dots waits s) ≡ false
unfolding replace_dots
replace_dots-dots false [] = unfold contains starts_with in refl
replace_dots-dots true [] = unfold contains starts_with in refl
replace_dots-dots waits (c ∷ s) =
    emit-dots waits (c == b'.') c (replace_dots (not waits && c == b'.') s) refl
      (replace_dots-dots (not waits && c == b'.') s)

-- A text without two dots in a row stays, with the waiting dot before it.
abbrev waiting : Bool → Text → Text
waiting true s = b'.' ∷ s
waiting false s = s

replace_dots-none :
    (waits : Bool) (s : Text)
    → has_dots (waiting waits s) ≡ false
    → replace_dots waits s ≡ waiting waits s
unfolding replace_dots contains starts_with
replace_dots-none true [] h = refl
replace_dots-none false [] h = refl
replace_dots-none true (c ∷ s) h = ground (arith, h, replace_dots-none false s)
replace_dots-none false (c ∷ s) h =
    ground (arith, h, replace_dots-none false s, replace_dots-none true s)

module _ (word : ℕ → Bool) where
  masked_dot : (c : ℕ) → (masked word c == b'.') ≡ (c == b'.')
  masked_dot c = ground arith

  map-masked-dots : (s : Text) → has_dots (map (masked word) s) ≡ has_dots s
  unfolding contains starts_with
  map-masked-dots [] = refl
  map-masked-dots (c ∷ []) = ground (arith, masked_dot c)
  map-masked-dots (c ∷ d ∷ s) = ground (arith, masked_dot c, masked_dot d, map-masked-dots (d ∷ s))

  all-take : (p : ℕ → Bool) (n : ℕ) (s : Text) → all p s ≡ true → all p (take n s) ≡ true
  all-take p zero s h = refl
  all-take p (suc n) [] h = refl
  all-take p (suc n) (c ∷ s) h = ground (arith, h, all-take p n s)

  take-dots : (n : ℕ) (s : Text) → has_dots s ≡ false → has_dots (take n s) ≡ false
  unfolding contains starts_with
  take-dots zero s h = refl
  take-dots (suc n) [] h = refl
  take-dots (suc zero) (c ∷ []) h = h
  take-dots (suc (suc n)) (c ∷ []) h = h
  take-dots (suc zero) (c ∷ d ∷ s) h = ground arith
  take-dots (suc (suc n)) (c ∷ d ∷ s) h = ground (arith, h, take-dots (suc n) (d ∷ s))

  masked_kept : (c : ℕ) → is_kept word c ≡ true → masked word c ≡ c
  masked_kept c h = rw (h) refl

  map-masked-kept : (s : Text) → all (is_kept word) s ≡ true → map (masked word) s ≡ s
  map-masked-kept [] h = refl
  map-masked-kept (c ∷ s) h = ground (arith, h, masked_kept c, map-masked-kept s)

  take_all : (n : ℕ) (s : Text) → length s ≤ n → take n s ≡ s
  take_all zero [] h = refl
  take_all zero (c ∷ s) h = grind arith
  take_all (suc n) [] h = refl
  take_all (suc n) (c ∷ s) h = ap (λ t. c ∷ t) (take_all n s (omega (arith, h)))

  -- A name of at most 64 characters without two dots in a row, in which only word characters, dots,
  -- dashes and spaces stand.
  pub record IsSafeName (s : Text) : Type 0 where
    pub short : length s ≤ name_length
    pub no_dots : contains s (codes "..") ≡ false
    pub kept : all (is_kept word) s ≡ true

  module _ (underscore : word b'_' ≡ true) where
    all-masked : (s : Text) → all (is_kept word) (map (masked word) s) ≡ true
    all-masked [] = refl
    all-masked (c ∷ s) = ground (arith, all-masked s, underscore)

    sanitize_filename-safe : (name : Text) → IsSafeName (sanitize_filename word name)
    unfolding sanitize_filename
    sanitize_filename-safe name =
        let replaced = replace_dots false name in
        record {
          short = omega (arith, length-take name_length (map (masked word) replaced));
          no_dots =
              take-dots name_length (map (masked word) replaced)
                (map-masked-dots replaced ∙ replace_dots-dots false name);
          kept =
              all-take (is_kept word) name_length (map (masked word) replaced)
                (all-masked replaced);
        }

    sanitize_filename-same : (name : Text) → IsSafeName name → sanitize_filename word name ≡ name
    unfolding sanitize_filename
    sanitize_filename-same name safe =
        ap (λ s. take name_length (map (masked word) s)) (replace_dots-none false name safe.no_dots)
        ∙ ap (take name_length) (map-masked-kept name safe.kept)
        ∙ take_all name_length name safe.short

    -- If the underscore is a word character, every name is sanitized to one of at most 64 characters
    -- without two dots in a row, in which only word characters, dots, dashes and spaces stand; and
    -- sanitizing this one again leaves it as it is.
    pub sanitize_filename-IsSafeName :
        (name : Text)
        → IsSafeName (sanitize_filename word name)
          × (sanitize_filename word (sanitize_filename word name) ≡ sanitize_filename word name)
    sanitize_filename-IsSafeName name = (
      sanitize_filename-safe name,
      sanitize_filename-same (sanitize_filename word name) (sanitize_filename-safe name),
    )
