-- ===== src/Recorder/Sorting.antt =====
-- The sort of the segments: it is sorted, and leaving segments out before or after is the same.
use bosch_shc_camera_client.Common.{
  ◌≤◌, Bool, true, false, List, [], ◌∷◌, ◌≡◌, refl, ◌∙◌, leb, leb→le, le→leb, ap, sym,
  if◌then◌else◌, arith, All, keep,
}
use bosch_shc_camera_client.Recorder.{Segment, insert, sort}

-- No segment of the list is older than `s`.
abbrev Above : Segment → List Segment → Type 0
Above s = All (λ t. s.mtime ≤ t.mtime)

abbrev pub Sorted : List Segment → Type 0
Sorted [] = Unit
Sorted (s ∷ ts) = Above s ts × Sorted ts

Above-weaken : (s t : Segment) (us : List Segment) → s.mtime ≤ t.mtime → Above t us → Above s us
Above-weaken s t [] h hs = tt
Above-weaken s t (u ∷ us) h (hu, hs) = (omega arith, Above-weaken s t us h hs)

Above-insert :
    (s t : Segment) (us : List Segment) → s.mtime ≤ t.mtime → Above s us → Above s (insert t us)
unfolding insert
Above-insert s t [] h hs = (h, tt)
Above-insert s t (u ∷ us) h (hu, hs) = cases (leb t.mtime u.mtime) (Above-insert s t us h hs)
  where
    cases : (b : Bool) → Above s (insert t us) → Above s (if b then t ∷ u ∷ us else u ∷ insert t us)
    cases true k = (h, (hu, hs))
    cases false k = (hu, k)

insert-Sorted : (s : Segment) (ts : List Segment) → Sorted ts → Sorted (insert s ts)
unfolding insert
insert-Sorted s [] h = (tt, tt)
insert-Sorted s (t ∷ ts) (ht, h) = cases (leb s.mtime t.mtime) refl (insert-Sorted s ts h)
  where
    cases :
        (b : Bool)
        → leb s.mtime t.mtime ≡ b
        → Sorted (insert s ts)
        → Sorted (if b then s ∷ t ∷ ts else t ∷ insert s ts)
    cases true e k =
        ((leb→le s.mtime t.mtime e, Above-weaken s t ts (leb→le s.mtime t.mtime e) ht), (ht, h))
    cases false e k = (Above-insert t s ts (ground (arith, e)) ht, k)

pub sort-Sorted : (segments : List Segment) → Sorted (sort segments)
unfolding sort
sort-Sorted [] = tt
sort-Sorted (s ∷ segments) = insert-Sorted s (sort segments) (sort-Sorted segments)

Above-keep :
    (q : Segment → Bool) (s : Segment) (ts : List Segment) → Above s ts → Above s (keep q ts)
Above-keep q s [] h = tt
Above-keep q s (t ∷ ts) (h, hs) = cases (q t) (Above-keep q s ts hs)
  where
    cases : (b : Bool) → Above s (keep q ts) → Above s (if b then t ∷ keep q ts else keep q ts)
    cases true k = (h, k)
    cases false k = k

insert-Above : (s : Segment) (ts : List Segment) → Above s ts → insert s ts ≡ s ∷ ts
unfolding insert
insert-Above s [] h = refl
insert-Above s (t ∷ ts) (h, hs) = rw (le→leb s.mtime t.mtime h) refl

insert_later :
    (s t : Segment) (ts : List Segment)
    → leb s.mtime t.mtime ≡ false
    → insert s (t ∷ ts) ≡ t ∷ insert s ts
unfolding insert
insert_later s t ts h = rw (h) refl

insert_first :
    (s t : Segment) (ts : List Segment)
    → leb s.mtime t.mtime ≡ true
    → insert s (t ∷ ts) ≡ s ∷ t ∷ ts
unfolding insert
insert_first s t ts h = rw (h) refl

pick : (b : Bool) (x y z : List Segment) → x ≡ y → (if b then x else z) ≡ (if b then y else z)
pick true x y z h = h
pick false x y z h = refl

exchange :
    (b c : Bool) (s t : Segment) (ts : List Segment)
    → leb s.mtime t.mtime ≡ false
    → (if c then t ∷ (if b then insert s ts else ts) else if b then insert s ts else ts)
      ≡ (if b then insert s (if c then t ∷ ts else ts) else if c then t ∷ ts else ts)
exchange true true s t ts h = sym (insert_later s t ts h)
exchange true false s t ts h = refl
exchange false true s t ts h = refl
exchange false false s t ts h = refl

-- A segment that is left out might as well not be put in.
keep-insert :
    (q : Segment → Bool) (s : Segment) (ts : List Segment)
    → Sorted ts
    → keep q (insert s ts) ≡ (if q s then insert s (keep q ts) else keep q ts)
unfolding insert
keep-insert q s [] h = refl
keep-insert q s (t ∷ ts) (ht, h) = cases (leb s.mtime t.mtime) refl (keep-insert q s ts h)
  where
    cases :
        (b : Bool)
        → leb s.mtime t.mtime ≡ b
        → keep q (insert s ts) ≡ (if q s then insert s (keep q ts) else keep q ts)
        → keep q (insert s (t ∷ ts)) ≡ (if q s then insert s (keep q (t ∷ ts)) else keep q (t ∷ ts))
    cases true e ih =
        ap (keep q) (insert_first s t ts e)
        ∙ pick (q s) (s ∷ keep q (t ∷ ts)) (insert s (keep q (t ∷ ts))) (keep q (t ∷ ts)) (
            sym (
              insert-Above s (keep q (t ∷ ts)) (
                Above-keep q s (t ∷ ts)
                  (leb→le s.mtime t.mtime e, Above-weaken s t ts (leb→le s.mtime t.mtime e) ht))))
    cases false e ih =
        ap (keep q) (insert_later s t ts e)
        ∙ ap (λ k. if q t then t ∷ k else k) ih
        ∙ exchange (q s) (q t) s t (keep q ts) e

pub keep-sort :
    (q : Segment → Bool) (segments : List Segment) → keep q (sort segments) ≡ sort (keep q segments)
unfolding sort
keep-sort q [] = refl
keep-sort q (s ∷ segments) =
    keep-insert q s (sort segments) (sort-Sorted segments) ∙ cases (q s) (keep-sort q segments)
  where
    cases :
        (b : Bool)
        → keep q (sort segments) ≡ sort (keep q segments)
        → (if b then insert s (keep q (sort segments)) else keep q (sort segments))
          ≡ sort (if b then s ∷ keep q segments else keep q segments)
    cases true e = ap (insert s) e
    cases false e = e
