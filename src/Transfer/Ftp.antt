-- ===== src/Transfer/Ftp.antt =====
-- media_transfer.py: what `ftp_makedirs` asks an FTP server for, whatever the server answers.
use bosch_shc_camera_client.Common.{
  ◌≡◌, ◌≢◌, refl, sym, ap, ◌∙◌, List, [], ◌∷◌, ◌++◌, Option, none, some, map, arith,
}
use mathlib.Core.List.{append_assoc, append-nil}
use mathlib.Core.Path.{subst}
use bosch_shc_camera_client.Common.Texts.{Text}
use bosch_shc_camera_client.Transfer.{
  FtpError, error_perm, other_error, FtpServer, asked, parts_of, makedirs_from, ftp_makedirs,
}

-- The path of the parts, from the root.
abbrev pub joined : List Text → Text
joined [] = []
joined (p ∷ ps) = b'/' ∷ (p ++ joined ps)

-- The first part, the first two parts, and so on to all of them.
abbrev pub prefixes : List Text → List (List Text)
prefixes [] = []
prefixes (p ∷ ps) = (p ∷ []) ∷ map (λ q. p ∷ q) (prefixes ps)

-- How `mkd` of these paths may go, one after the other: what is raised in the end, the paths that were
-- asked for, and what becomes of the server. A path is passed if its `mkd` raises nothing or error_perm.
pub data Course {ℓ} {S : Type ℓ} (ftp : FtpServer S)
    : List Text → S → Option FtpError → List Text → S → Type ℓ where
  finished : (s : S) → Course ftp [] s none [] s
  passed :
      (path : Text) (paths made : List Text) (s t : S) (e : Option FtpError)
      → (ftp.mkd s path).0 ≢ some other_error
      → Course ftp paths (ftp.mkd s path).1 e made t
      → Course ftp (path ∷ paths) s e (path ∷ made) t
  left :
      (path : Text) (paths : List Text) (s : S)
      → (ftp.mkd s path).0 ≡ some other_error
      → Course ftp (path ∷ paths) s (some other_error) (path ∷ []) (ftp.mkd s path).1

-- The paths of these parts below the directory `current`.
abbrev below : Text → List (List Text) → List Text
below current qs = map (λ q. current ++ joined q) qs

below-map :
    (current part : Text) (qs : List (List Text))
    → below (current ++ b'/' ∷ part) qs ≡ below current (map (λ q. part ∷ q) qs)
below-map current part [] = refl
below-map current part (q ∷ qs) =
    ap (λ path. path ∷ below (current ++ b'/' ∷ part) qs)
      (append_assoc current (b'/' ∷ part) (joined q))
    ∙ ap (λ paths. (current ++ b'/' ∷ (part ++ joined q)) ∷ paths) (below-map current part qs)

below-prefixes :
    (current part : Text) (parts : List Text)
    → (current ++ b'/' ∷ part) ∷ below (current ++ b'/' ∷ part) (prefixes parts)
      ≡ below current (prefixes (part ∷ parts))
below-prefixes current part parts =
    ap (λ path. path ∷ below (current ++ b'/' ∷ part) (prefixes parts))
      (ap (λ p. current ++ b'/' ∷ p) (sym (append-nil part)))
    ∙ ap (λ paths. (current ++ b'/' ∷ (part ++ [])) ∷ paths)
        (below-map current part (prefixes parts))

module _ {ℓ} {S : Type ℓ} (ftp : FtpServer S) where
  abbrev Goes : List Text → S → Option FtpError × List Text × S → Type ℓ
  Goes paths s (e, made, t) = Course ftp paths s e made t

  step-Goes :
      (path : Text) (paths : List Text) (s : S) (o : Option FtpError)
      (rest : Option FtpError × List Text × S)
      → (ftp.mkd s path).0 ≡ o
      → Goes paths (ftp.mkd s path).1 rest
      → Goes (path ∷ paths) s (
          asked path
            (elim o [ some other_error ↦ (some other_error, [], (ftp.mkd s path).1) | e ↦ rest ]))
  step-Goes path paths s (some other_error) rest h go = left path paths s h
  step-Goes path paths s (some error_perm) (e, made, t) h go =
      passed path paths made s t e (λ k. grind (arith, h, k)) go
  step-Goes path paths s none (e, made, t) h go =
      passed path paths made s t e (λ k. grind (arith, h, k)) go

  makedirs_from-Goes :
      (parts : List Text) (current : Text) (s : S)
      → Goes (below current (prefixes parts)) s (makedirs_from ftp current parts s)
  unfolding makedirs_from
  makedirs_from-Goes [] current s = finished s
  makedirs_from-Goes (part ∷ parts) current s =
      let here = current ++ b'/' ∷ part in
      subst (λ paths. Goes paths s (makedirs_from ftp current (part ∷ parts) s))
        (below-prefixes current part parts)
        (step-Goes here (below here (prefixes parts)) s (ftp.mkd s here).0
          (makedirs_from ftp here parts (ftp.mkd s here).1) refl
          (makedirs_from-Goes parts here (ftp.mkd s here).1))

  -- Whatever an FTP server answers, `ftp_makedirs` asks it to make, one after the other and each once,
  -- the path of the first part that is not empty, of the first two such parts, and so on to all of them.
  -- It goes on after an error_perm, and ends early only at another exception, which leaves it at once;
  -- if it raises nothing, it has asked for every one of these paths.
  pub ftp_makedirs-Course :
      (path : Text) (s : S)
      → let (e, made, t) = ftp_makedirs ftp path s in
        Course ftp (map joined (prefixes (parts_of path))) s e made t
  unfolding ftp_makedirs
  ftp_makedirs-Course path s = makedirs_from-Goes (parts_of path) [] s
