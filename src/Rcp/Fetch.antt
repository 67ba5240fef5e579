-- ===== src/Rcp/Fetch.antt =====
-- `fetch_rcp_camera_data`: one session, twelve commands, and the count of failures that skips a
-- command after three in a row.
pub mod Strikes
pub mod Stable
pub mod Invariant
pub mod StruckOut
pub mod Sessions
pub mod Drops
pub mod Data
use bosch_shc_camera_client.Common.{
  ℕ, ◌+◌, Bool, true, false, List, [], ◌∷◌, Option, none, some, String, leb, if◌then◌else◌,
}
use bosch_shc_camera_client.Common.Texts.{Text, Bytes, codes}
use bosch_shc_camera_client.Common.Dict.{string_key, Dict, get, put, pop}
use bosch_shc_camera_client.Net.{is_exception, ◌>>=◌, ◌>>◌, pure, gets, modify, except}
use bosch_shc_camera_client.Rcp.Wire.{Caches, Camera, Rcp, proxy_url}
use bosch_shc_camera_client.Rcp.Session.{get_cached_rcp_session}
use bosch_shc_camera_client.Rcp.Read.{rcp_read}
use bosch_shc_camera_client.Rcp.Parse.Zones.{Zone, Rectangle}
use bosch_shc_camera_client.Rcp.Parse.Catalogs.{Module, Alarm, CertInfo}
use bosch_shc_camera_client.Rcp.Judge.{
  judge_dimmer, judge_privacy, judge_bitrate, judge_alarm_catalog, judge_motion_zones,
  judge_motion_coords, judge_tls_cert, judge_network_services, judge_iva_catalog,
}
use bosch_shc_camera_client.Rcp.Judge.Defs.{Verdict, accept, reject, ignore}
use bosch_shc_camera_client.Rcp.Judge.Names.{judge_lan_ip, judge_product_name}
use bosch_shc_camera_client.Rcp.Judge.Clock.{Offset, judge_clock}

-- The camera behind the proxy, and what the platform gives: `str.isprintable`, the reading of a
-- certificate and of each of its fields (`none` where it raises), and the time of the server in
-- microseconds since 1970.
pub record Platform (C : Type 0) : Type 0 where
  pub camera : Camera
  pub printable : ℕ → Bool
  pub load_certificate : Bytes → Option (String → Option C)
  pub server_time : ℕ

pub record RcpCameraData (C : Type 0) : Type 0 where
  pub dimmer : Option ℕ
  pub privacy : Option ℕ
  pub clock_offset : Option Offset
  pub lan_ip : Option Text
  pub product_name : Option Text
  pub bitrate : Option (List ℕ)
  pub alarm_catalog : Option (List Alarm)
  pub motion_zones : Option (List Zone)
  pub motion_coords : Option (List Rectangle)
  pub tls_cert : Option (CertInfo C)
  pub network_services : Option (List Text)
  pub iva_catalog : Option (List Module)

-- cmd_failures.get(cmd, 0)
abbrev pub failures_of : String → Caches → ℕ
failures_of cmd c = elim (get cmd c.failures) [ none ↦ 0 | some n ↦ n ]

unfoldable pub skip : String → Caches → Bool
skip cmd c = leb 3 (failures_of cmd c)

unfoldable pub mark_fail : String → Caches → Caches
mark_fail cmd c = record c { failures = put cmd (failures_of cmd c + 1) c.failures }

unfoldable pub mark_ok : String → Caches → Caches
mark_ok cmd c = record c { failures = pop cmd c.failures }

-- The caches and the value after the verdict on a reply.
unfoldable pub settle : {A : Type 0} → String → Verdict A → Rcp (Option A)
unfolding mark_fail mark_ok
settle cmd (accept a) = do modify (mark_ok cmd); pure (some a)
settle cmd reject = do modify (mark_fail cmd); pure none
settle cmd ignore = pure none

-- `if not _skip(cmd): try: raw = await _read(cmd, ...); ... except Exception: pass`
unfoldable pub poll :
    {A : Type 0}
    → Camera
    → Text
    → Text
    → String
    → String
    → ℕ
    → (Option Bytes → Verdict A)
    → Rcp (Option A)
unfolding skip settle
poll camera base session_id cmd type num judge = do
  skipped ← gets (skip cmd)
  if skipped
      then pure none
      else except is_exception
          (do
            raw ← rcp_read camera true base (codes cmd) session_id (codes type) num
            settle cmd (judge raw))
          (pure none)

unfoldable pub read_all : {C : Type 0} → Platform C → Text → Text → Rcp (RcpCameraData C)
read_all p base session_id = do
  dimmer ← poll p.camera base session_id "0x0c22" "T_WORD" 1 judge_dimmer
  privacy ← poll p.camera base session_id "0x0d00" "P_OCTET" 0 judge_privacy
  clock_offset ← poll p.camera base session_id "0x0a0f" "P_OCTET" 0 (judge_clock p.server_time)
  lan_ip ← poll p.camera base session_id "0x0a36" "P_OCTET" 0 judge_lan_ip
  product_name ← poll p.camera base session_id "0x0aea" "P_OCTET" 0 judge_product_name
  bitrate ← poll p.camera base session_id "0x0c81" "P_OCTET" 0 judge_bitrate
  alarms ← poll p.camera base session_id "0x0c38" "P_OCTET" 0 (judge_alarm_catalog p.printable)
  zones ← poll p.camera base session_id "0x0c00" "P_OCTET" 0 judge_motion_zones
  coords ← poll p.camera base session_id "0x0c0a" "P_OCTET" 0 judge_motion_coords
  cert ← poll p.camera base session_id "0x0b91" "P_OCTET" 0 (judge_tls_cert p.load_certificate)
  services ← poll p.camera base session_id "0x0c62" "P_OCTET" 0 (judge_network_services p.printable)
  analytics ← poll p.camera base session_id "0x0b60" "P_OCTET" 0 judge_iva_catalog
  pure (record {
    dimmer = dimmer;
    privacy = privacy;
    clock_offset = clock_offset;
    lan_ip = lan_ip;
    product_name = product_name;
    bitrate = bitrate;
    alarm_catalog = alarms;
    motion_zones = zones;
    motion_coords = coords;
    tls_cert = cert;
    network_services = services;
    iva_catalog = analytics;
  })

-- With a session, read everything; without, or with an empty id, nothing.
pub read_with : {C : Type 0} → Platform C → Text → Option Text → Rcp (Option (RcpCameraData C))
unfolding read_all
read_with p base none = pure none
read_with p base (some []) = pure none
read_with p base (some (c ∷ s)) = do data_read ← read_all p base (c ∷ s); pure (some data_read)

unfoldable pub fetch_rcp_camera_data :
    {C : Type 0} → Platform C → Text → Text → ℕ → Rcp (Option (RcpCameraData C))
unfolding read_with
fetch_rcp_camera_data p host hash now = do
  session_id ← get_cached_rcp_session p.camera host hash now
  read_with p (proxy_url host hash) session_id
