-- ===== src/Recorder.antt =====
-- mini_nvr.py: the arguments of ffmpeg, and the ring of pre-roll segments in a camera's directory. The
-- `\d` of patterns is a parameter. A directory is the list of its entries, in the order of os.listdir.
pub mod Sorting
pub mod Pruning
pub mod Finalized
use bosch_shc_camera_client.Common.{
  ℕ, zero, suc, ◌+◌, ◌-◌, Bool, true, false, not, ◌&&◌, List, [], ◌∷◌, ◌++◌, Option, none, some,
  leb, ltb, if◌then◌else◌, is_empty, length, take, drop, keep, map, String,
}
use bosch_shc_camera_client.Common.Texts.{Text, codes, same, starts_with, contains}
use bosch_shc_camera_client.Common.Decimal.{decimal}

-- How many characters `p` accepts at the start.
unfoldable pub run_length : (ℕ → Bool) → Text → ℕ
run_length p [] = 0
run_length p (c ∷ s) = let more = run_length p s in if p c then suc more else 0

-- A match of inst=\d+ at the start of the text, by its length.
unfoldable pub match_inst : (ℕ → Bool) → Text → Option ℕ
unfolding starts_with run_length
match_inst digit s =
    let digits = run_length digit (drop 5 s) in
    if starts_with s (codes "inst=") && leb 1 digits then some (5 + digits) else none

abbrev substituted : ℕ → Option ℕ → (ℕ → Text) → Text
substituted c none more = c ∷ more 0
substituted c (some n) more = codes "inst=4" ++ more (n - 1)

-- `re.sub`, behind a match of which so many characters are left.
unfoldable pub sub_inst : (ℕ → Bool) → ℕ → Text → Text
unfolding match_inst
sub_inst digit left [] = []
sub_inst digit (suc left) (c ∷ s) = sub_inst digit left s
sub_inst digit zero (c ∷ s) =
    substituted c (match_inst digit (c ∷ s)) (λ left. sub_inst digit left s)

unfoldable pub apply_quality : (ℕ → Bool) → Text → Text → Text
unfolding same sub_inst contains
apply_quality digit rtsp_url quality =
    if not (same quality (codes "low"))
    then rtsp_url
    else if contains rtsp_url (codes "inst=")
    then sub_inst digit 0 rtsp_url
    else rtsp_url
      ++ (if contains rtsp_url (codes "?") then codes "&" else codes "?")
      ++ codes "inst=4"

abbrev args : List String → List Text
args ws = map codes ws

-- What both recordings start with.
abbrev input_args : Text → List Text
input_args url =
    args (
      "ffmpeg" ∷ "-hide_banner" ∷ "-nostdin" ∷ "-loglevel" ∷ "warning" ∷ "-rtsp_transport" ∷ "tcp"
      ∷ "-analyzeduration" ∷ "10M" ∷ "-probesize" ∷ "10M" ∷ "-i" ∷ [])
    ++ url ∷ args ("-map" ∷ "0" ∷ "-c" ∷ "copy" ∷ "-f" ∷ "segment" ∷ "-segment_time" ∷ [])

unfoldable pub build_ffmpeg_args : (ℕ → Bool) → Text → Text → ℕ → Text → List Text
unfolding apply_quality decimal
build_ffmpeg_args digit rtsp_url segment_pattern segment_seconds quality =
    input_args (apply_quality digit rtsp_url quality)
    ++ (decimal segment_seconds
        ∷ args (
            "-segment_format" ∷ "mp4" ∷ "-segment_atclocktime" ∷ "1" ∷ "-reset_timestamps" ∷ "1"
            ∷ "-strftime" ∷ "1" ∷ "-strftime_mkdir" ∷ "1" ∷ "-movflags" ∷ "+faststart" ∷ []))
    ++ segment_pattern ∷ []

unfoldable pub build_preroll_ffmpeg_args : (ℕ → Bool) → Text → Text → ℕ → Text → List Text
unfolding apply_quality decimal
build_preroll_ffmpeg_args digit rtsp_url pattern segment_seconds quality =
    input_args (apply_quality digit rtsp_url quality)
    ++ (decimal segment_seconds
        ∷ args (
            "-segment_format" ∷ "mp4" ∷ "-reset_timestamps" ∷ "1" ∷ "-strftime" ∷ "1" ∷ "-movflags"
            ∷ "+faststart" ∷ []))
    ++ pattern ∷ []

unfoldable pub create_motion_clip_args : Text → List Text
create_motion_clip_args output_path =
    args (
      "ffmpeg" ∷ "-hide_banner" ∷ "-nostdin" ∷ "-loglevel" ∷ "warning" ∷ "-f" ∷ "concat" ∷ "-safe"
      ∷ "0" ∷ "-i" ∷ [])
    ++ ((output_path ++ codes ".concat.txt")
        ∷ args ("-c" ∷ "copy" ∷ "-movflags" ∷ "+faststart" ∷ "-y" ∷ []))
    ++ output_path ∷ []

-- os.stat: `none` is its OSError. Times of modification only matter by their order.
pub record Stat : Type 0 where
  pub size : ℕ
  pub mtime : ℕ

pub record Entry : Type 0 where
  pub path : Text
  pub is_file : Bool
  pub stat : Option Stat

pub record Segment : Type 0 where
  pub path : Text
  pub mtime : ℕ

abbrev pub min_size : ℕ
min_size = 1024

abbrev pub big_enough : Text → Option Stat → Option Segment
big_enough path none = none
big_enough path (some st) =
    if ltb st.size min_size then none else some (record { path = path; mtime = st.mtime })

abbrev pub segment_of : Entry → Option Segment
segment_of e = if e.is_file then big_enough e.path e.stat else none

abbrev pub onto : Option Segment → List Segment → List Segment
onto none segments = segments
onto (some s) segments = s ∷ segments

unfoldable pub segments_in : List Entry → List Segment
segments_in [] = []
segments_in (e ∷ entries) = onto (segment_of e) (segments_in entries)

-- out.sort(key=lambda x: x[1]), which is stable
unfoldable pub insert : Segment → List Segment → List Segment
insert s [] = s ∷ []
insert s (t ∷ ts) = let rest = insert s ts in if leb s.mtime t.mtime then s ∷ t ∷ ts else t ∷ rest

unfoldable pub sort : List Segment → List Segment
unfolding insert
sort [] = []
sort (s ∷ segments) = insert s (sort segments)

-- A directory that is missing or cannot be listed has no entries.
unfoldable pub list_preroll_segments : List Entry → List Segment
unfolding sort segments_in
list_preroll_segments entries = sort (segments_in entries)

abbrev last_path : List Segment → Option Text
last_path [] = none
last_path (s ∷ []) = some s.path
last_path (s ∷ t ∷ ts) = last_path (t ∷ ts)

unfoldable pub newest_preroll_path : List Entry → Option Text
unfolding list_preroll_segments
newest_preroll_path entries = last_path (list_preroll_segments entries)

-- os.unlink
unfoldable pub unlink : Text → List Entry → List Entry
unlink path = keep (λ e. not (same path e.path))

-- The loop of the deletions, for the paths whose unlink raises no OSError: the number of the deleted
-- and what is left of the directory.
unfoldable pub delete_each : (Text → Bool) → List Segment → List Entry → ℕ × List Entry
unfolding unlink
delete_each works [] entries = (0, entries)
delete_each works (s ∷ segments) entries =
    let (deleted, left) =
      delete_each works segments (if works s.path then unlink s.path entries else entries) in
    (if works s.path then suc deleted else deleted, left)

unfoldable pub prune_preroll_cache : (Text → Bool) → List Entry → ℕ → ℕ × List Entry
unfolding list_preroll_segments delete_each
prune_preroll_cache works entries max_segments =
    let segments = list_preroll_segments entries in
    delete_each works (take (length segments - max_segments) segments) entries

unfoldable pub prune_and_count : (Text → Bool) → List Entry → ℕ → ℕ × List Entry
unfolding prune_preroll_cache list_preroll_segments
prune_and_count works entries max_segments =
    let (deleted, left) = prune_preroll_cache works entries max_segments in
    (length (list_preroll_segments left), left)
