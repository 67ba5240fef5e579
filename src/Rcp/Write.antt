-- ===== src/Rcp/Write.antt =====
-- Writing to a camera in the local network: `rcp_local_write`, `rcp_local_write_privacy` and
-- `rcp_local_write_front_light`. A request says whether it authenticates itself, and with what; the
-- exchange of the digest, and the encoding of the parameters in the URL, are the camera's side.
pub mod Payloads
use bosch_shc_camera_client.Common.{
  ℕ, ◌+◌, ◌/◌, ◌%◌, min, Bool, true, false, not, List, [], ◌∷◌, ◌++◌, Option, none, some, String,
  map, ◌==◌, if◌then◌else◌,
}
use bosch_shc_camera_client.Common.Integers.{ℤ, pos, negsuc}
use bosch_shc_camera_client.Common.Texts.{Text, Bytes, codes, starts_with, contains, lower}
use bosch_shc_camera_client.Common.Dict.{Dict}
use bosch_shc_camera_client.Net.{
  Server, Io, is_network_or_value, ◌>>=◌, pure, lift, request, except,
}
use bosch_shc_camera_client.Rcp.Markup.{hex_digit}
use bosch_shc_camera_client.Rcp.Wire.{Reply}
use bosch_shc_camera_client.Rcp.Read.{num_param}
use bosch_shc_camera_client.Rcp.Parse.Catalogs.{lower_text}

-- A GET with its parameters, and the user and password of its digest.
pub record WriteRequest : Type 0 where
  pub url : Text
  pub params : Dict String Text
  pub credentials : Option (Text × Text)

abbrev pub Target : Type 0
Target = Server WriteRequest Reply

abbrev pub Write : Type 0 → Type 0
Write = Io WriteRequest Unit

-- `if not payload_hex.lower().startswith("0x"): payload_hex = "0x" + payload_hex`
unfoldable pub prefixed : Text → Text
unfolding lower_text starts_with
prefixed payload_hex =
    if starts_with (lower_text payload_hex) (codes "0x")
    then payload_hex
    else codes "0x" ++ payload_hex

-- `if user and password`
unfoldable pub credentials_of : Option Text → Option Text → Option (Text × Text)
credentials_of (some (u ∷ us)) (some (p ∷ ps)) = some ((u ∷ us), (p ∷ ps))
credentials_of _ _ = none

unfoldable pub write_request :
    Text → Text → Text → Text → ℕ → Option Text → Option Text → WriteRequest
unfolding prefixed credentials_of
write_request cam_ip command payload_hex type num user password = record {
  url = codes "https://" ++ cam_ip ++ codes "/rcp.xml";
  params =
      ("command", command)
      ∷ ("direction", codes "WRITE")
      ∷ ("type", type)
      ∷ ("payload", prefixed payload_hex)
      ∷ num_param num;
  credentials = credentials_of user password;
}

-- b"<err>" in raw.lower()
unfoldable pub has_error : Bytes → Bool
unfolding lower contains
has_error raw = contains (map lower raw) (codes "<err>")

unfoldable pub write_reply : Reply → Write Bool
unfolding has_error
write_reply resp =
    if resp.status == 200 then (do raw ← lift resp.body; pure (not (has_error raw))) else pure false

unfoldable pub rcp_local_write :
    Target → Text → Text → Text → Text → ℕ → Option Text → Option Text → Write Bool
unfolding write_request write_reply
rcp_local_write camera cam_ip command payload_hex type num user password =
    except is_network_or_value
      (do
        resp ← request camera (write_request cam_ip command payload_hex type num user password)
        write_reply resp)
      (pure false)

unfoldable pub privacy_payload : Bool → Text
privacy_payload enabled = if enabled then codes "00010000" else codes "00000000"

unfoldable pub rcp_local_write_privacy :
    Target → Text → Bool → Option Text → Option Text → Write Bool
unfolding privacy_payload
rcp_local_write_privacy camera cam_ip enabled user password =
    rcp_local_write camera cam_ip (codes "0x0d00") (privacy_payload enabled) (codes "P_OCTET") 0
      user password

-- max(0, min(100, brightness))
unfoldable pub clamp : ℤ → ℕ
clamp (pos n) = min 100 n
clamp (negsuc n) = 0

-- f"{val:04x}", for a value below 65536
unfoldable pub four_hex : ℕ → Text
unfolding hex_digit
four_hex val =
    hex_digit (val / 4096 % 16)
    ∷ hex_digit (val / 256 % 16)
    ∷ hex_digit (val / 16 % 16)
    ∷ hex_digit (val % 16)
    ∷ []

unfoldable pub rcp_local_write_front_light :
    Target → Text → ℤ → Option Text → Option Text → Write Bool
unfolding clamp four_hex
rcp_local_write_front_light camera cam_ip brightness user password =
    rcp_local_write camera cam_ip (codes "0x0c22") (four_hex (clamp brightness)) (codes "T_WORD") 1
      user password
