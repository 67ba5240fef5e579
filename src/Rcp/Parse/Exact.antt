-- ===== src/Rcp/Parse/Exact.antt =====
-- Which zones `_parse_motion_zones` lists.
use bosch_shc_camera_client.Common.{
  ℕ, zero, suc, ◌+◌, ◌-◌, ◌*◌, ◌/◌, ◌≤◌, ◌<◌, ◌≡◌, refl, ap, ◌∙◌, min, ◌∷◌, some, arith, length,
  drop, get_elem?, length-take, length-drop,
}
use bosch_shc_camera_client.Common.Texts.{Bytes}
use bosch_shc_camera_client.Rcp.Parse.Words.{slice, hex}
use bosch_shc_camera_client.Rcp.Parse.Zones.{Zone, zones_from, parse_motion_zones}

length-slice : (raw : Bytes) (lo hi : ℕ) → hi ≤ length raw → length (slice raw lo hi) ≡ hi - lo
unfolding slice
length-slice raw lo hi h = omega (arith, length-take (hi - lo) (drop lo raw), length-drop lo raw)

-- The zone at index k.
abbrev pub zone_at : Bytes → ℕ → Zone
zone_at raw k = record { zone_id = k; raw_hex = hex (slice raw (k * 28) ((k + 1) * 28)); size = 28 }

zones_from-cons :
    (raw : Bytes) (i left : ℕ)
    → (i + 1) * 28 ≤ length raw
    → zones_from raw i (suc left) ≡ zone_at raw i ∷ zones_from raw (i + 1) left
unfolding zones_from
zones_from-cons raw i left h = ground (arith, length-slice raw (i * 28) ((i + 1) * 28) h)

get_elem?-zones_from :
    (raw : Bytes) (i left k : ℕ)
    → (i + left) * 28 ≤ length raw
    → k < left
    → get_elem? (zones_from raw i left) k ≡ some (zone_at raw (i + k))
get_elem?-zones_from raw i zero k h lt = absurd (omega arith)
get_elem?-zones_from raw i (suc left) zero h lt =
    rw (zones_from-cons raw i left (omega arith)) (ap (λ n. some (zone_at raw n)) (omega arith))
get_elem?-zones_from raw i (suc left) (suc k) h lt = rw (zones_from-cons raw i left (omega arith)) (
    get_elem?-zones_from raw (i + 1) left k (omega arith) (omega arith)
    ∙ ap (λ n. some (zone_at raw n)) (omega arith))

length-zones :
    (raw : Bytes) (i left : ℕ)
    → (i + left) * 28 ≤ length raw
    → length (zones_from raw i left) ≡ left
unfolding zones_from
length-zones raw i zero h = refl
length-zones raw i (suc left) h =
    rw (zones_from-cons raw i left (omega arith))
      (ap suc (length-zones raw (i + 1) left (omega arith)))

-- A reply lists as many zones as whole entries of 28 bytes fit into it, at most five, and for k below
-- five whose entry fits, the zone at index k is numbered k and holds the hexadecimal digits of the bytes
-- 28 k to 28 k + 27.
pub parse_motion_zones_lem :
    (raw : Bytes) (k : ℕ)
    → k < 5
    → (k + 1) * 28 ≤ length raw
    → (length (parse_motion_zones raw) ≡ min (length raw / 28) 5)
      × (get_elem? (parse_motion_zones raw) k ≡ some (zone_at raw k))
unfolding parse_motion_zones
parse_motion_zones_lem raw k few fits = (
  length-zones raw 0 (min (length raw / 28) 5) (omega arith),
  get_elem?-zones_from raw 0 (min (length raw / 28) 5) k (omega arith) (omega arith)
      ∙ ap (λ n. some (zone_at raw n)) (omega arith),
)
