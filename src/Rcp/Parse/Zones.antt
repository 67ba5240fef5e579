-- ===== src/Rcp/Parse/Zones.antt =====
-- `_parse_motion_zones`, `_parse_motion_coords` and the bitrate ladder.
use bosch_shc_camera_client.Common.{
  ℕ, zero, suc, ◌+◌, ◌*◌, ◌/◌, min, List, [], ◌∷◌, ltb, if◌then◌else◌, length,
}
use bosch_shc_camera_client.Common.Texts.{Bytes, Text}
use bosch_shc_camera_client.Common.Rounding.{round_tenths}
use bosch_shc_camera_client.Rcp.Parse.Words.{slice, word, dword, hex}

pub record Zone : Type 0 where
  pub zone_id : ℕ
  pub raw_hex : Text
  pub size : ℕ

abbrev pub zone_size : ℕ
zone_size = 28

-- The rounds i, i + 1, ... of the loop; `left` of them are to come.
unfoldable pub zones_from : Bytes → ℕ → ℕ → List Zone
unfolding slice hex
zones_from raw i zero = []
zones_from raw i (suc left) =
    let chunk = slice raw (i * zone_size) ((i + 1) * zone_size) in
    let rest = zones_from raw (i + 1) left in
    if ltb (length chunk) zone_size
    then []
    else record { zone_id = i; raw_hex = hex chunk; size = length chunk } ∷ rest

unfoldable pub parse_motion_zones : Bytes → List Zone
unfolding zones_from
parse_motion_zones raw = zones_from raw 0 (min (length raw / zone_size) 5)

-- The big-endian uint32 values of raw, `left` of them from the i-th on.
unfoldable pub ladder_from : Bytes → ℕ → ℕ → List ℕ
unfolding slice dword
ladder_from raw i zero = []
ladder_from raw i (suc left) =
    dword (slice raw (i * 4) ((i + 1) * 4)) ∷ ladder_from raw (i + 1) left

unfoldable pub bitrate_ladder : Bytes → List ℕ
unfolding ladder_from
bitrate_ladder raw = ladder_from raw 0 (length raw / 4)

-- A rectangle in tenths of a percent.
pub record Rectangle : Type 0 where
  pub x1 : ℕ
  pub y1 : ℕ
  pub x2 : ℕ
  pub y2 : ℕ

abbrev pub rectangle_size : ℕ
rectangle_size = 8

-- round(struct.unpack(">H", chunk[lo:hi])[0] / 100, 1)
unfoldable pub percent_at : Bytes → ℕ → ℕ
unfolding slice word round_tenths
percent_at chunk lo = round_tenths (word (slice chunk lo (lo + 2))) 100

-- The rounds z, z + 1, ... of the loop; `left` of them are to come.
unfoldable pub rectangles_from : Bytes → ℕ → ℕ → List Rectangle
unfolding percent_at
rectangles_from raw z zero = []
rectangles_from raw z (suc left) =
    let chunk = slice raw (z * rectangle_size) ((z + 1) * rectangle_size) in
    let rest = rectangles_from raw (z + 1) left in
    if ltb (length chunk) 8
    then []
    else record {
      x1 = percent_at chunk 0;
      y1 = percent_at chunk 2;
      x2 = percent_at chunk 4;
      y2 = percent_at chunk 6;
    }
      ∷ rest

unfoldable pub parse_motion_coords : Bytes → List Rectangle
unfolding rectangles_from
parse_motion_coords raw = rectangles_from raw 0 (length raw / rectangle_size)
