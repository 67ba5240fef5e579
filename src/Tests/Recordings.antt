-- ===== src/Tests/Recordings.antt =====
-- A run of mini_nvr.py on a directory with a file that is too small.
use bosch_shc_camera_client.Common.{ℕ, min, ◌≡◌, refl, true, List, [], ◌∷◌, some, length}
use bosch_shc_camera_client.Common.Texts.{codes, same}
use bosch_shc_camera_client.Recorder.{
  Entry, list_preroll_segments, prune_and_count, sort, insert, segments_in,
}
use bosch_shc_camera_client.Recorder.Sorting.{Sorted}
use bosch_shc_camera_client.Recorder.Pruning.{kept, prune_and_count_lem}
use Prim.Native.String.{String}

abbrev file : String → ℕ → ℕ → Entry
file path size mtime = record {
  path = codes path;
  is_file = true;
  stat = some (record { size = size; mtime = mtime });
}

abbrev ring : List Entry
ring = file "b" 4096 20 ∷ file "tiny" 10 30 ∷ file "a" 4096 10 ∷ file "c" 4096 40 ∷ []

prune_and_count_example :
    Sorted (list_preroll_segments ring)
    × (list_preroll_segments (prune_and_count (λ path. true) ring 2).1
        ≡ kept 2 (list_preroll_segments ring))
    × ((prune_and_count (λ path. true) ring 2).0 ≡ min (length (list_preroll_segments ring)) 2)
unfolding list_preroll_segments sort insert segments_in same
prune_and_count_example =
    prune_and_count_lem (λ path. true) ring 2 (refl, (refl, (refl, tt)))
      ((refl, (refl, tt)), ((refl, tt), (tt, tt)))
