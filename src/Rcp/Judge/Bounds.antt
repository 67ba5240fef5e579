-- ===== src/Rcp/Judge/Bounds.antt =====
-- What an accepted reply satisfies.
use bosch_shc_camera_client.Common.{
  ℕ, zero, suc, ◌+◌, ◌≤◌, ◌≡◌, ◌≢◌, true, false, ◌&&◌, List, [], ◌∷◌, Option, arith, length, All,
  all, leb,
}
use bosch_shc_camera_client.Common.Texts.{Text, Bytes, codes, starts_with, same_iff}
use bosch_shc_camera_client.Rcp.Judge.{judge_dimmer, judge_bitrate, judge_binary}
use bosch_shc_camera_client.Rcp.Judge.Defs.{accept}
use bosch_shc_camera_client.Rcp.Judge.Names.{judge_lan_ip, judge_product_name, unset_ip}
use bosch_shc_camera_client.Rcp.Parse.Zones.{Zone, zones_from}

pub judge_dimmer-le : (raw : Option Bytes) (v : ℕ) → judge_dimmer raw ≡ accept v → v ≤ 100
unfolding judge_dimmer judge_binary
judge_dimmer-le raw v h = ground arith

abbrev pub AreBitrates : List ℕ → Type 0
AreBitrates = All (λ v. (100 ≤ v) × (v ≤ 50000))

AreBitrates-of : (vs : List ℕ) → all (λ v. leb 100 v && leb v 50000) vs ≡ true → AreBitrates vs
AreBitrates-of [] h = tt
AreBitrates-of (v ∷ vs) h = ((ground arith, ground arith), AreBitrates-of vs (ground arith))

pub judge_bitrate-AreBitrates :
    (raw : Option Bytes) (vs : List ℕ) → judge_bitrate raw ≡ accept vs → AreBitrates vs
unfolding judge_bitrate judge_binary
judge_bitrate-AreBitrates raw vs h = AreBitrates-of vs (ground arith)

-- An address is not empty, not the unset one, and no markup.
abbrev pub IsAddress : Text → Type 0
IsAddress ip = (ip ≢ []) × (ip ≢ unset_ip) × (starts_with ip (codes "<") ≡ false)

pub judge_lan_ip-IsAddress :
    (raw : Option Bytes) (ip : Text) → judge_lan_ip raw ≡ accept ip → IsAddress ip
unfolding judge_lan_ip
judge_lan_ip-IsAddress raw ip h = (ground arith, ground (arith, same_iff ip unset_ip), ground arith)

abbrev pub IsName : Text → Type 0
IsName name = (name ≢ []) × (starts_with name (codes "<") ≡ false)

pub judge_product_name-IsName :
    (raw : Option Bytes) (name : Text) → judge_product_name raw ≡ accept name → IsName name
unfolding judge_product_name
judge_product_name-IsName raw name h = (ground arith, ground arith)

length-zones_from : (raw : Bytes) (i left : ℕ) → length (zones_from raw i left) ≤ left
unfolding zones_from
length-zones_from raw i zero = omega arith
length-zones_from raw i (suc left) = ground (arith, length-zones_from raw (i + 1) left)

sizes-zones_from :
    (raw : Bytes) (i left : ℕ) → All (λ (z : Zone). 28 ≤ z.size) (zones_from raw i left)
unfolding zones_from
sizes-zones_from raw i zero = tt
sizes-zones_from raw i (suc left) = ground (arith, sizes-zones_from raw (i + 1) left)
