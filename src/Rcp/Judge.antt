-- ===== src/Rcp/Judge.antt =====
-- How `fetch_rcp_camera_data` judges the reply to each command: whether it takes a value and marks
-- the command as working, marks a failure, or leaves the count alone.
pub mod Defs
pub mod Clock
pub mod Names
pub mod Bounds
use bosch_shc_camera_client.Common.{
  ℕ, zero, suc, ◌/◌, Bool, true, false, not, ◌&&◌, List, [], ◌∷◌, Option, none, some, String, leb,
  ltb, if◌then◌else◌, length, all, take,
}
use bosch_shc_camera_client.Common.Texts.{Bytes, Text}
use bosch_shc_camera_client.Rcp.Judge.Defs.{Verdict, accept, reject, ignore}
use bosch_shc_camera_client.Rcp.Parse.Envelope.{is_xml_envelope}
use bosch_shc_camera_client.Rcp.Parse.Words.{word}
use bosch_shc_camera_client.Rcp.Parse.Zones.{
  Zone, Rectangle, parse_motion_zones, parse_motion_coords, bitrate_ladder,
}
use bosch_shc_camera_client.Rcp.Parse.Catalogs.{
  Module, Alarm, CertInfo, parse_iva_catalog, parse_alarm_catalog, parse_network_services,
  parse_tls_cert,
}

-- `if _is_xml_envelope(raw): fail elif raw and len(raw) >= least: judge else: fail`
unfoldable pub judge_binary : {A : Type 0} → ℕ → (Bytes → Verdict A) → Option Bytes → Verdict A
judge_binary least judge none = reject
judge_binary least judge (some raw) =
    if is_xml_envelope (some raw)
    then reject
    else if ltb 0 (length raw) && leb least (length raw)
    then judge raw
    else reject

-- `if raw and len(raw) >= least: take elif raw is None: fail`
unfoldable pub judge_present : {A : Type 0} → ℕ → (Bytes → A) → Option Bytes → Verdict A
judge_present least parse none = reject
judge_present least parse (some raw) =
    if ltb 0 (length raw) && leb least (length raw) then accept (parse raw) else ignore

-- 0x0c22
unfoldable pub judge_dimmer : Option Bytes → Verdict ℕ
unfolding judge_binary word is_xml_envelope
judge_dimmer =
    judge_binary 2
      λ raw. let value = word (take 2 raw) in if leb value 100 then accept value else reject

abbrev second_byte : Bytes → Verdict ℕ
second_byte (a ∷ b ∷ s) = accept b
second_byte _ = reject

-- 0x0d00
unfoldable pub judge_privacy : Option Bytes → Verdict ℕ
unfolding judge_binary is_xml_envelope
judge_privacy = judge_binary 2 second_byte

-- 0x0c81
unfoldable pub judge_bitrate : Option Bytes → Verdict (List ℕ)
unfolding judge_binary bitrate_ladder is_xml_envelope
judge_bitrate = judge_binary 4 λ raw.
    let ladder = bitrate_ladder raw in
    if all (λ v. leb 100 v && leb v 50000) ladder then accept ladder else reject

-- 0x0c38
unfoldable pub judge_alarm_catalog : (ℕ → Bool) → Option Bytes → Verdict (List Alarm)
unfolding judge_binary parse_alarm_catalog is_xml_envelope
judge_alarm_catalog printable = judge_binary 11 (λ raw. accept (parse_alarm_catalog printable raw))

-- 0x0c00
unfoldable pub judge_motion_zones : Option Bytes → Verdict (List Zone)
unfolding judge_present parse_motion_zones
judge_motion_zones = judge_present 28 parse_motion_zones

-- 0x0c0a
unfoldable pub judge_motion_coords : Option Bytes → Verdict (List Rectangle)
unfolding judge_binary parse_motion_coords is_xml_envelope
judge_motion_coords = judge_binary 16 (λ raw. accept (parse_motion_coords raw))

-- 0x0b91
unfoldable pub judge_tls_cert :
    {C : Type 0} → (Bytes → Option (String → Option C)) → Option Bytes → Verdict (CertInfo C)
unfolding judge_present parse_tls_cert
judge_tls_cert load = judge_present 51 (parse_tls_cert load)

-- 0x0c62
unfoldable pub judge_network_services : (ℕ → Bool) → Option Bytes → Verdict (List Text)
unfolding judge_binary parse_network_services is_xml_envelope
judge_network_services printable =
    judge_binary 11 (λ raw. accept (parse_network_services printable raw))

-- 0x0b60
unfoldable pub judge_iva_catalog : Option Bytes → Verdict (List Module)
unfolding judge_binary parse_iva_catalog is_xml_envelope
judge_iva_catalog = judge_binary 6 (λ raw. accept (parse_iva_catalog raw))
