-- ===== src/Tests/Https.antt =====
-- Runs of the reads over HTTPS.
use bosch_shc_camera_client.Common.{
  ℕ, ◌-◌, ◌≡◌, refl, ◌&&◌, [], ◌∷◌, Option, none, some, leb, if◌then◌else◌, arith,
}
use bosch_shc_camera_client.Common.Texts.{Text, codes, same}
use bosch_shc_camera_client.Common.Integers.{negsuc, signed}
use bosch_shc_camera_client.Common.Utf8.{decode_utf8, decode_from, next_byte, first_byte}
use bosch_shc_camera_client.Rcp.Markup.{hex_digit}
use bosch_shc_camera_client.Rcp.Https.{
  Elements, nil, element, Parsed, tree, find, results, first_in, first_child, octets, int_of,
  digits_of, got, Network, rcp_url, rcp_read_local_sync, rcp_read_remote_sync,
}
use bosch_shc_camera_client.Rcp.Https.Octets.{rcp_read_local_sync-octets}
use bosch_shc_camera_client.Rcp.Https.Kinds.{Sound, rcp_read_sync-Sound}

-- The euro sign, and a byte that begins no character before one that is cut short by another.
decoded :
    decode_utf8 (0xe2 ∷ 0x82 ∷ 0xac ∷ 0xff ∷ 0xe2 ∷ 0x82 ∷ 65 ∷ [])
    ≡ 0x20ac ∷ 0xfffd ∷ 0xfffd ∷ 65 ∷ []
unfolding decode_utf8 decode_from next_byte first_byte
decoded = refl

abbrev digit : ℕ → Option ℕ
digit c = if leb b'0' c && leb c b'9' then some (c - b'0') else none

whole_number : int_of digit (codes "-1_0") ≡ some (negsuc 9)
unfolding int_of digits_of signed
whole_number = refl

abbrev document : Elements
document = element (codes "result") none (element (codes "str") (some (codes "0a ff")) nil nil) nil

abbrev parse : Text → Parsed
parse text = tree document

abbrev network : Network
network opening = got (record { status = 200; body = got (codes "<rcp/>") })

rcp_read_local_sync-octets_example :
    rcp_read_local_sync parse digit network
      (codes "h")
      (codes "u")
      (codes "p")
      (codes "0x1")
      (codes "P_OCTET")
    ≡ got (some (octets (10 ∷ 255 ∷ [])))
unfolding find results first_in first_child same hex_digit
rcp_read_local_sync-octets_example =
    rcp_read_local_sync-octets parse digit network (codes "h") (codes "u") (codes "p") (codes "0x1")
      (codes "<rcp/>") (10 ∷ 255 ∷ []) document refl refl refl refl (omega arith, (omega arith, tt))
      refl

rcp_read_sync-Sound_example :
    Sound parse digit
      (codes "P_OCTET")
      (network
        (record { url = rcp_url (codes "h") (codes "0x1") (codes "P_OCTET"); credentials = none }))
      (rcp_read_remote_sync parse digit network (codes "h") (codes "0x1") (codes "P_OCTET"))
    × Sound parse digit
        (codes "P_OCTET")
        (network (record {
          url = rcp_url (codes "h") (codes "0x1") (codes "P_OCTET");
          credentials = some (codes "u", codes "p");
        }))
        (rcp_read_local_sync parse digit network
          (codes "h")
          (codes "u")
          (codes "p")
          (codes "0x1")
          (codes "P_OCTET"))
rcp_read_sync-Sound_example =
    rcp_read_sync-Sound parse digit (codes "P_OCTET") network (codes "h") (codes "u") (codes "p")
      (codes "0x1")
