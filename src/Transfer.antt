-- ===== src/Transfer.antt =====
-- media_transfer.py: names of exported files, downloads by urllib, and the FTP mechanics. The network,
-- the FTP server and the `\w` of patterns are parameters.
pub mod Names
pub mod Ftp
pub mod Downloads
use bosch_shc_camera_client.Common.{
  ℕ, Bool, true, false, not, ◌&&◌, ◌||◌, List, [], ◌∷◌, ◌++◌, Option, none, some, map, take, ◌==◌,
  if◌then◌else◌, is_empty, keep,
}
use bosch_shc_camera_client.Common.Texts.{Text, Bytes, codes, split}

-- One character of `name.replace("..", "_")`: whether a dot waits before it, whether it is a dot, the
-- character, and the rest.
abbrev pub emit : Bool → Bool → ℕ → Text → Text
emit true true c rest = b'_' ∷ rest
emit true false c rest = b'.' ∷ c ∷ rest
emit false true c rest = rest
emit false false c rest = c ∷ rest

unfoldable pub replace_dots : Bool → Text → Text
replace_dots false [] = []
replace_dots true [] = b'.' ∷ []
replace_dots waits (c ∷ s) = emit waits (c == b'.') c (replace_dots (not waits && c == b'.') s)

-- [\w\-. ]
abbrev pub is_kept : (ℕ → Bool) → ℕ → Bool
is_kept word c = word c || c == b'-' || c == b'.' || c == b' '

abbrev pub masked : (ℕ → Bool) → ℕ → ℕ
masked word c = if is_kept word c then c else b'_'

abbrev pub name_length : ℕ
name_length = 64

unfoldable pub sanitize_filename : (ℕ → Bool) → Text → Text
unfolding replace_dots
sanitize_filename word name = take name_length (map (masked word) (replace_dots false name))

-- The exceptions of a download (URLError, OSError or another one) are kept as they are.
pub data Attempt {ℓ κ} (E : Type ℓ) (A : Type κ) : Type (ℓ ⊔ κ) where
  done : A → Attempt E A
  raised : E → Attempt E A

-- A GET with a bearer token.
pub record Download : Type 0 where
  pub url : Text
  pub authorization : Text

-- An open answer: its status, and what the reads of 65536 bytes give in turn; after them the answer is
-- at its end, where a read is empty. `whole` is what one read of everything gives.
pub record Opened {ℓ} (E : Type ℓ) : Type ℓ where
  pub status : ℕ
  pub reads : List (Attempt E Bytes)
  pub whole : Attempt E Bytes

unfoldable pub bearer_request : Text → Text → Download
bearer_request url token = record { url = url; authorization = codes "Bearer " ++ token }

-- What has come to the file, and how the loop ends.
abbrev pub after_chunk {ℓ} : {E : Type ℓ} → Bytes → Bytes × Attempt E Bool → Bytes × Attempt E Bool
after_chunk chunk (written, end) = (chunk ++ written, end)

-- while True: chunk = r.read(65536); if not chunk: break; f.write(chunk)
unfoldable pub copy {ℓ} : {E : Type ℓ} → List (Attempt E Bytes) → Bytes × Attempt E Bool
copy [] = ([], done true)
copy (raised e ∷ reads) = ([], raised e)
copy (done [] ∷ reads) = ([], done true)
copy (done (b ∷ bs) ∷ reads) = after_chunk (b ∷ bs) (copy reads)

module _ {ℓ} {E : Type ℓ} (network : Download → Attempt E (Opened E)) where
  abbrev with_status : ℕ → Attempt E Bytes → Attempt E (ℕ × Bytes)
  with_status status (done raw) = done (status, raw)
  with_status status (raised e) = raised e

  unfoldable pub sync_http_get : Text → Text → Attempt E (ℕ × Bytes)
  unfolding bearer_request
  sync_http_get url token = elim (network (bearer_request url token)) [
    | raised e ↦ raised e
    | done r ↦ with_status r.status r.whole
  ]

  -- The returned value, and what `dest_path` holds of the answer; `none` if it was not opened.
  -- `unwritable` is the exception of opening the file, if there is one.
  abbrev store_opened : Option E → Opened E → Attempt E Bool × Option Bytes
  store_opened unwritable r =
      if not (r.status == 200) then (done false, none) else (elim unwritable [
        | some e ↦ (raised e, none)
        | none ↦ ((copy r.reads).1, some (copy r.reads).0)
      ])

  unfoldable pub sync_http_get_to_file : Text → Text → Option E → Attempt E Bool × Option Bytes
  unfolding bearer_request copy
  sync_http_get_to_file url token unwritable = elim (network (bearer_request url token)) [
    | raised e ↦ (raised e, none)
    | done r ↦ store_opened unwritable r
  ]

  unfoldable pub sync_http_get_chunked : Text → Text → Attempt E (Opened E)
  unfolding bearer_request
  sync_http_get_chunked url token = network (bearer_request url token)

-- ftplib: FTP(server), login and set_pasv(True).
pub record FtpClient {ℓ κ} (E : Type ℓ) (C : Type κ) : Type (ℓ ⊔ κ) where
  pub connect : Text → Attempt E C
  pub login : C → Text → Text → Attempt E C
  pub set_passive : C → C

unfoldable pub ftp_connect {ℓ κ} :
    {E : Type ℓ} {C : Type κ} → FtpClient E C → Text → Text → Text → Attempt E C
ftp_connect client server username password = elim (client.connect server) [
  | raised e ↦ raised e
  | done ftp ↦ (elim (client.login ftp username password) [
    | raised e ↦ raised e
    | done logged ↦ done (client.set_passive logged)
  ])
]

-- An FTP server: its states, and `mkd` and `size` with the exceptions that they raise.
pub data FtpError : Type 0 where
  error_perm other_error : FtpError

pub record FtpServer {ℓ} (S : Type ℓ) : Type ℓ where
  pub mkd : S → Text → Option FtpError × S
  pub size : S → Text → Option FtpError

-- Any exception means that there is no such file.
unfoldable pub ftp_exists {ℓ} : {S : Type ℓ} → FtpServer S → S → Text → Bool
ftp_exists ftp s path = elim (ftp.size s path) [ none ↦ true | some e ↦ false ]

-- [p for p in path.split("/") if p]
unfoldable pub parts_of : Text → List Text
unfolding split
parts_of path = keep (λ p. not (is_empty p)) (split b'/' path)

-- The loop over the parts, below `current`: the exception that leaves it, if one does, the directories
-- that were asked for, and the state of the server.
abbrev pub asked {ℓ} :
    {S : Type ℓ} → Text → Option FtpError × List Text × S → Option FtpError × List Text × S
asked current (e, paths, s) = (e, current ∷ paths, s)

unfoldable pub makedirs_from {ℓ} :
    {S : Type ℓ} → FtpServer S → Text → List Text → S → Option FtpError × List Text × S
makedirs_from ftp current [] s = (none, [], s)
makedirs_from ftp current (part ∷ parts) s =
    let made = ftp.mkd s (current ++ b'/' ∷ part) in
    let rest = makedirs_from ftp (current ++ b'/' ∷ part) parts made.1 in
    asked (current ++ b'/' ∷ part)
      (elim made.0 [ some other_error ↦ (some other_error, [], made.1) | e ↦ rest ])

unfoldable pub ftp_makedirs {ℓ} :
    {S : Type ℓ} → FtpServer S → Text → S → Option FtpError × List Text × S
unfolding parts_of makedirs_from
ftp_makedirs ftp path s = makedirs_from ftp [] (parts_of path) s
