-- ===== src/Recorder/Pruning.antt =====
-- What pruning leaves of the ring of pre-roll segments.
use mathlib.Core.Path.{subst}
use bosch_shc_camera_client.Common.{
  ℕ, zero, suc, ◌-◌, min, Bool, true, false, not, List, [], ◌∷◌, ◌++◌, Option, none, some, ◌≡◌,
  refl, ap, sym, ◌∙◌, ltb, if◌then◌else◌, arith, All, keep, length, take, drop, take-append-drop,
  length-drop,
}
use bosch_shc_camera_client.Common.Texts.{Text, same, same_refl}
use bosch_shc_camera_client.Recorder.{
  Stat, Entry, Segment, big_enough, min_size, segment_of, onto, segments_in, sort,
  list_preroll_segments, unlink, delete_each, prune_preroll_cache, prune_and_count,
}
use bosch_shc_camera_client.Recorder.Sorting.{Sorted, sort-Sorted, keep-sort}

-- Segments of other files than the one at the path.
abbrev other : Text → Segment → Bool
other path s = not (same path s.path)

-- Each path once.
abbrev pub Distinct : List Segment → Type 0
Distinct [] = Unit
Distinct (s ∷ ts) = All (λ t. same s.path t.path ≡ false) ts × Distinct ts

big_enough_kept :
    (p path : Text) (st : Option Stat) (ts : List Segment)
    → keep (other p) (onto (big_enough path st) ts) ≡ (
        if not (same p path)
        then onto (big_enough path st) (keep (other p) ts)
        else keep (other p) ts)
big_enough_kept p path none ts = ground arith
big_enough_kept p path (some st) ts = cases (ltb st.size min_size)
  where
    cases :
        (b : Bool)
        → keep
            (other p)
            (onto (if b then none else some (record { path = path; mtime = st.mtime })) ts)
          ≡ (if not (same p path)
              then onto
                  (if b then none else some (record { path = path; mtime = st.mtime }))
                  (keep (other p) ts)
              else keep (other p) ts)
    cases true = ground arith
    cases false = refl

segment_kept :
    (p : Text) (e : Entry) (ts : List Segment)
    → keep (other p) (onto (segment_of e) ts)
      ≡ (if not (same p e.path) then onto (segment_of e) (keep (other p) ts) else keep (other p) ts)
segment_kept p e ts = cases e.is_file
  where
    cases :
        (b : Bool)
        → keep (other p) (onto (if b then big_enough e.path e.stat else none) ts) ≡ (
            if not (same p e.path)
            then onto (if b then big_enough e.path e.stat else none) (keep (other p) ts)
            else keep (other p) ts)
    cases true = big_enough_kept p e.path e.stat ts
    cases false = ground arith

segments_in-unlink :
    (p : Text) (entries : List Entry)
    → segments_in (unlink p entries) ≡ keep (other p) (segments_in entries)
unfolding segments_in unlink
segments_in-unlink p [] = refl
segments_in-unlink p (e ∷ entries) =
    cases (not (same p e.path)) (segments_in-unlink p entries)
    ∙ sym (segment_kept p e (segments_in entries))
  where
    cases :
        (b : Bool)
        → segments_in (unlink p entries) ≡ keep (other p) (segments_in entries)
        → segments_in (if b then e ∷ unlink p entries else unlink p entries) ≡ (
            if b
            then onto (segment_of e) (keep (other p) (segments_in entries))
            else keep (other p) (segments_in entries))
    cases true h = ap (onto (segment_of e)) h
    cases false h = h

list-unlink :
    (p : Text) (entries : List Entry)
    → list_preroll_segments (unlink p entries) ≡ keep (other p) (list_preroll_segments entries)
unfolding list_preroll_segments
list-unlink p entries =
    ap sort (segments_in-unlink p entries) ∙ sym (keep-sort (other p) (segments_in entries))

keep_others :
    (p : Text) (ts : List Segment) → All (λ t. same p t.path ≡ false) ts → keep (other p) ts ≡ ts
keep_others p [] h = refl
keep_others p (t ∷ ts) (h, hs) = rw (h) (ap (λ us. t ∷ us) (keep_others p ts hs))

keep_head :
    (s : Segment) (ts : List Segment)
    → All (λ t. same s.path t.path ≡ false) ts
    → keep (other s.path) (s ∷ ts) ≡ ts
keep_head s ts h = rw (same_refl s.path) (keep_others s.path ts h)

delete_each-list :
    (works : Text → Bool) (gone rest : List Segment) (entries : List Entry)
    → All (λ s. works s.path ≡ true) gone
    → Distinct (gone ++ rest)
    → list_preroll_segments entries ≡ gone ++ rest
    → (list_preroll_segments (delete_each works gone entries).1 ≡ rest)
      × ((delete_each works gone entries).0 ≡ length gone)
unfolding delete_each
delete_each-list works [] rest entries h d e = (e, refl)
delete_each-list works (s ∷ gone) rest entries (h, hs) (ds, d) e =
    let next =
      delete_each-list works gone rest (unlink s.path entries) hs d
        (list-unlink s.path entries ∙ ap (keep (other s.path)) e ∙ keep_head s (gone ++ rest) ds) in
    rw (h) (next.0, ap (λ n. suc n) next.1)

All-take :
    (P : Segment → Type 0) (n : ℕ) (segments : List Segment)
    → All P segments
    → All P (take n segments)
All-take P zero segments h = tt
All-take P (suc n) [] h = tt
All-take P (suc n) (s ∷ segments) (h, hs) = (h, All-take P n segments hs)

-- How many are too many, and what pruning is to leave.
abbrev pub kept : ℕ → List Segment → List Segment
kept max_segments segments = drop (length segments - max_segments) segments

prune-list :
    (works : Text → Bool) (entries : List Entry) (max_segments : ℕ)
    → All (λ s. works s.path ≡ true) (list_preroll_segments entries)
    → Distinct (list_preroll_segments entries)
    → list_preroll_segments (prune_preroll_cache works entries max_segments).1
      ≡ kept max_segments (list_preroll_segments entries)
unfolding prune_preroll_cache
prune-list works entries max_segments h d =
    (delete_each-list works (take n segments) (drop n segments) entries
      (All-take (λ s. works s.path ≡ true) n segments h)
      (subst (λ l. Distinct l) (sym (take-append-drop n segments)) d)
      (sym (take-append-drop n segments))).0
  where
    segments : List Segment
    segments = list_preroll_segments entries

    n : ℕ
    n = length segments - max_segments

list-Sorted : (entries : List Entry) → Sorted (list_preroll_segments entries)
unfolding list_preroll_segments
list-Sorted entries = sort-Sorted (segments_in entries)

length-kept : (n : ℕ) (segments : List Segment) → length (kept n segments) ≡ min (length segments) n
length-kept n segments = length-drop (length segments - n) segments ∙ ground arith

-- The segments are listed oldest first. If each has its own path and can be deleted, pruning leaves
-- the last `max_segments` of them, that is the newest, and counts what it leaves.
pub prune_and_count_lem :
    (works : Text → Bool) (entries : List Entry) (max_segments : ℕ)
    → All (λ s. works s.path ≡ true) (list_preroll_segments entries)
    → Distinct (list_preroll_segments entries)
    → Sorted (list_preroll_segments entries)
      × (list_preroll_segments (prune_and_count works entries max_segments).1
          ≡ kept max_segments (list_preroll_segments entries))
      × ((prune_and_count works entries max_segments).0
          ≡ min (length (list_preroll_segments entries)) max_segments)
unfolding prune_and_count
prune_and_count_lem works entries max_segments h d = (
  list-Sorted entries,
  prune-list works entries max_segments h d,
  ap length (prune-list works entries max_segments h d)
      ∙ length-kept max_segments (list_preroll_segments entries),
)
