-- ===== src/Rcp/Markup/Search.antt =====
-- What the searches of `Markup` find.
use bosch_shc_camera_client.Common.{
  ℕ, ◌≡◌, ◌≢◌, inl, inr, Bool, true, [], ◌∷◌, some, arith, All, Option-cases,
}
use bosch_shc_camera_client.Common.Texts.{Text, codes}
use bosch_shc_camera_client.Rcp.Markup.{
  greedy, after_prefix, search_tag, search_sessionid, is_nonspace_str, fold_str,
}

-- A group that class+ can match: characters of the class, at least one.
abbrev pub IsGroup : (ℕ → Bool) → Text → Type 0
IsGroup class g = (g ≢ []) × All (λ c. class c ≡ true) g

module _ (fold : ℕ → ℕ) (class : ℕ → Bool) (close : Text) where
  greedy-IsGroup : (s g : Text) → greedy fold class close s ≡ some g → IsGroup class g
  unfolding greedy
  greedy-IsGroup [] g h = cc
  greedy-IsGroup (c ∷ s) [] h = ground arith
  greedy-IsGroup (c ∷ s) (d ∷ []) h = (λ e. cc, ground arith)
  greedy-IsGroup (c ∷ s) (d ∷ e ∷ g) h = ((λ q. cc), ground (arith, greedy-IsGroup s (e ∷ g)))

  pub search_tag-IsGroup :
      (open_tag s g : Text) → search_tag fold class open_tag close s ≡ some g → IsGroup class g
  unfolding search_tag
  search_tag-IsGroup open_tag [] g h = cc
  search_tag-IsGroup open_tag (c ∷ s) g h =
      elim (Option-cases (after_prefix fold open_tag (c ∷ s))) [
        | inl e ↦ search_tag-IsGroup open_tag s g (ground arith)
        | inr (rest, e) ↦ elim (Option-cases (greedy fold class close rest)) [
          | inl e2 ↦ search_tag-IsGroup open_tag s g (ground arith)
          | inr (k, e2) ↦ greedy-IsGroup rest g (ground arith)
        ]
      ]

-- A session id is a word of at least one character, without blanks.
pub search_sessionid-IsGroup :
    (text id : Text) → search_sessionid text ≡ some id → IsGroup is_nonspace_str id
unfolding search_sessionid
search_sessionid-IsGroup text id h =
    search_tag-IsGroup fold_str is_nonspace_str (codes "</sessionid>") (codes "<sessionid>") text id
      h
