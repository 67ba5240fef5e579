-- ===== src/Tests/Transfers.antt =====
-- Runs of media_transfer.py, of the probe of mini_nvr.py, and of the feature flags.
use bosch_shc_camera_client.Common.{
  ℕ, ◌≡◌, refl, Bool, true, false, ◌&&◌, ◌||◌, List, [], ◌∷◌, none, some, String, leb, ◌==◌,
  if◌then◌else◌, map,
}
use bosch_shc_camera_client.Common.Texts.{Text, codes, same, split, lower, lstrip, rstrip}
use bosch_shc_camera_client.Common.Decimal.{read_decimal}
use bosch_shc_camera_client.Common.Dict.{string_key, Dict}
use bosch_shc_camera_client.Common.Integers.{pos}
use bosch_shc_camera_client.Transfer.{
  sanitize_filename, replace_dots, done, raised, sync_http_get_to_file, bearer_request, copy,
  error_perm, FtpServer, ftp_makedirs, makedirs_from, parts_of,
}
use bosch_shc_camera_client.Transfer.Names.{IsSafeName, sanitize_filename-IsSafeName}
use bosch_shc_camera_client.Transfer.Ftp.{joined, prefixes, Course, ftp_makedirs-Course}
use bosch_shc_camera_client.Cloud.Events.Flags.{
  enabled, sort_names, insert_name, is_before, names_on,
}
use bosch_shc_camera_client.Recorder.{run_length}
use bosch_shc_camera_client.Recorder.Finalized.{
  newest_segment_is_finalized, finished, expired, kill, wait, float_above_zero, join_digits,
  signed_above_zero, number_above_zero,
}

abbrev letter : ℕ → Bool
letter c = leb b'a' c && leb c b'z' || c == b'_'

sanitized : sanitize_filename letter (codes "../a...b/c") ≡ codes "__a_.b_c"
unfolding sanitize_filename replace_dots
sanitized = refl

sanitize_filename-IsSafeName_example :
    IsSafeName letter (sanitize_filename letter (codes "../a"))
    × (sanitize_filename letter (sanitize_filename letter (codes "../a"))
        ≡ sanitize_filename letter (codes "../a"))
sanitize_filename-IsSafeName_example = sanitize_filename-IsSafeName letter refl (codes "../a")

-- A file that is cut short by an exception holds what came before.
cut_short :
    sync_http_get_to_file {E = String}
      (λ q.
        done (record {
          status = 200;
          reads = done (1 ∷ 2 ∷ []) ∷ raised "reset" ∷ [];
          whole = done [];
        }))
      []
      []
      none
    ≡ (raised "reset", some (1 ∷ 2 ∷ []))
unfolding sync_http_get_to_file bearer_request copy
cut_short = refl

abbrev found : Text → List Text → Bool
found d [] = false
found d (e ∷ es) = same e d || found d es

abbrev server : FtpServer (List Text)
server = record {
  mkd = λ s path. if found path s then (some error_perm, s) else (none, path ∷ s);
  size = λ s path. some error_perm;
}

ftp_makedirs-Course_example :
    let (e, made, t) = ftp_makedirs server (codes "/a//b") (codes "/a" ∷ []) in
    Course server (map joined (prefixes (parts_of (codes "/a//b")))) (codes "/a" ∷ []) e made t
ftp_makedirs-Course_example = ftp_makedirs-Course server (codes "/a//b") (codes "/a" ∷ [])

asked_for : (ftp_makedirs server (codes "/a//b") []).1 ≡ codes "/a" ∷ codes "/a/b" ∷ []
unfolding ftp_makedirs makedirs_from parts_of split same
asked_for = refl

abbrev flags : Dict String Bool
flags = ("b", true) ∷ ("c", false) ∷ ("a", true) ∷ []

enabled_names : enabled flags ≡ "a" ∷ "b" ∷ []
unfolding enabled sort_names insert_name is_before names_on
enabled_names = refl

probed :
    (newest_segment_is_finalized (some (finished (pos 0) (codes "12.500000\n"))) ≡ (true, []))
    × (newest_segment_is_finalized (some (finished (pos 0) (codes "N/A\n"))) ≡ (false, []))
    × (newest_segment_is_finalized (some (finished (pos 0) (codes "1_0e-400"))) ≡ (false, []))
    × (newest_segment_is_finalized (some expired) ≡ (false, kill ∷ wait ∷ []))
unfolding newest_segment_is_finalized float_above_zero join_digits signed_above_zero
    number_above_zero run_length read_decimal lower same lstrip rstrip
probed = (refl, refl, refl, refl)
