-- ===== src/Rcp/Write/Payloads.antt =====
-- What the writes send, and how a reader takes the payloads.
use bosch_shc_camera_client.Common.{
  ℕ, ◌/◌, ◌%◌, ◌≤◌, ◌<◌, ◌≡◌, ◌↔◌, refl, ap, ◌∙◌, Bool, true, false, not, ◌&&◌, [], ◌∷◌, ◌++◌,
  Option, some, arith, ◌==◌, if◌then◌else◌,
}
use bosch_shc_camera_client.Common.Texts.{Text, Bytes}
use bosch_shc_camera_client.Common.Dict.{string_key}
use bosch_shc_camera_client.Net.{World, Fault, Result, ok, raise, other_error}
use bosch_shc_camera_client.Rcp.Markup.{from_hex}
use bosch_shc_camera_client.Rcp.Wire.{Reply}
use bosch_shc_camera_client.Rcp.Judge.{judge_dimmer, judge_privacy, judge_binary}
use bosch_shc_camera_client.Rcp.Judge.Defs.{accept}
use bosch_shc_camera_client.Rcp.Parse.Words.{word, hex_value-hex_digit}
use bosch_shc_camera_client.Rcp.Parse.Envelope.{is_xml_envelope}
use bosch_shc_camera_client.Rcp.Local.{privacy_of}
use bosch_shc_camera_client.Common.Integers.{ℤ, pos, negsuc}
use bosch_shc_camera_client.Rcp.Write.{
  WriteRequest, Target, write_request, has_error, write_reply, rcp_local_write, privacy_payload,
  clamp, four_hex,
}

four_hex-bytes : (val : ℕ) → val < 256 → from_hex (four_hex val) ≡ some (0 ∷ val ∷ [])
unfolding four_hex from_hex
four_hex-bytes val h = ground (
  arith,
  hex_value-hex_digit (val / 4096 % 16),
  hex_value-hex_digit (val / 256 % 16),
  hex_value-hex_digit (val / 16 % 16),
  hex_value-hex_digit (val % 16),
)

clamp-le : (b : ℤ) → clamp b ≤ 100
unfolding clamp
clamp-le (pos n) = omega arith
clamp-le (negsuc n) = omega arith

judge_dimmer-word : (val : ℕ) → val ≤ 100 → judge_dimmer (some (0 ∷ val ∷ [])) ≡ accept val
unfolding judge_dimmer judge_binary is_xml_envelope word
judge_dimmer-word val h = ground arith

-- Whatever brightness is asked for, the payload that is written for it decodes to two bytes, which a
-- fetch takes as the brightness cut down to the range from 0 to 100.
pub front_light-dimmer :
    (brightness : ℤ)
    → (from_hex (four_hex (clamp brightness)) ≡ some (0 ∷ clamp brightness ∷ []))
      × (judge_dimmer (from_hex (four_hex (clamp brightness))) ≡ accept (clamp brightness))
      × (clamp brightness ≤ 100)
front_light-dimmer brightness =
    let few = clamp-le brightness in
    let decoded = four_hex-bytes (clamp brightness) (omega (arith, few)) in
    (decoded, ap judge_dimmer decoded ∙ judge_dimmer-word (clamp brightness) few, few)

-- The payload that is written for a privacy mode is read back as that mode, by the local reader and by
-- a fetch.
pub privacy_payload-read :
    (enabled : Bool)
    → (privacy_of (from_hex (privacy_payload enabled)) ≡ some enabled)
      × (judge_privacy (from_hex (privacy_payload enabled)) ≡ accept (if enabled then 1 else 0))
unfolding privacy_of from_hex privacy_payload judge_privacy judge_binary is_xml_envelope
privacy_payload-read true = (refl, refl)
privacy_payload-read false = (refl, refl)

-- An answer that tells of success: status 200 and a body that can be read and holds no <err> in any
-- case of its letters.
abbrev pub is_clean : Result Bytes → Bool
is_clean (ok raw) = not (has_error raw)
is_clean (raise e) = false

abbrev pub is_success : Result Reply → Bool
is_success (ok resp) = resp.status == 200 && is_clean resp.body
is_success (raise e) = false

module _ (camera : Target) (cam_ip command payload_hex type : Text) (num : ℕ)
    (user password : Option Text) (w : World WriteRequest Unit) where
  -- A write sends exactly one request, and returns true exactly if the answer to it has status 200 and a
  -- body that can be read and holds no <err> in any case of its letters.
  pub rcp_local_write_lem :
      let q = write_request cam_ip command payload_hex type num user password in
      (((rcp_local_write camera cam_ip command payload_hex type num user password w).0 ≡ ok true)
        ↔ (is_success (camera w.sent q) ≡ true))
      × ((rcp_local_write camera cam_ip command payload_hex type num user password w).1
          ≡ record w { sent = w.sent ++ q ∷ [] })
  unfolding rcp_local_write write_reply
  rcp_local_write_lem = ((λ e. ground arith, λ e. ground arith), ground arith)

  -- An exception that leaves a write is neither a timeout nor a client error nor a ValueError.
  pub rcp_local_write_raises :
      (e : Fault)
      → (rcp_local_write camera cam_ip command payload_hex type num user password w).0 ≡ raise e
      → e ≡ other_error
  unfolding rcp_local_write write_reply
  rcp_local_write_raises e h = ground arith
