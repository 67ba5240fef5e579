-- ===== src/Tests/Answers.antt =====
-- A camera that answers, and runs of the readers and parsers of rcp.py.
use bosch_shc_camera_client.Common.{◌≡◌, refl, true, [], ◌∷◌, Option, none, some, if◌then◌else◌}
use bosch_shc_camera_client.Common.Texts.{Text, Bytes, codes, same, lower}
use bosch_shc_camera_client.Common.Dict.{text_key, string_key, get}
use bosch_shc_camera_client.Net.{World, Result, ok, raise, value_error, timed_out, other_error}
use bosch_shc_camera_client.Rcp.Markup.{search_err, search_payload, from_hex}
use bosch_shc_camera_client.Rcp.Wire.{Query, Reply, Caches, Camera, proxy_url}
use bosch_shc_camera_client.Rcp.Read.{read_query, rcp_read}
use bosch_shc_camera_client.Rcp.Fetch.Drops.{Tells, closed, Dropped, rcp_read-drops}
use bosch_shc_camera_client.Rcp.Local.{rcp_local_read}
use bosch_shc_camera_client.Rcp.Local.Answers.{rcp_local_read_odd}

abbrev pub good : Text → Reply
good t = record { status = 200; body = ok t; text = ok t }

abbrev answer : Option Text → Result Reply
answer none = raise timed_out
answer (some command) =
    if same command (codes "0xff0c")
    then ok (good (codes "<sessionid>0x1f</sessionid>"))
    else if same command (codes "0x0c22")
    then ok (good (codes "<str>0032</str>"))
    else if same command (codes "0x0d00")
    then ok (good (codes "<err>0x0c0d</err>"))
    else raise timed_out

-- Opens sessions, has a dimmer at 50, closes the session on 0x0d00, and does not answer the rest.
abbrev pub demo_camera : Camera
demo_camera sent q = answer (get "command" q.params)

-- Answers everything with three hexadecimal digits.
abbrev odd_camera : Camera
odd_camera sent q = ok (good (codes "<str>abc</str>"))

-- Breaks on everything.
abbrev broken_camera : Camera
broken_camera sent q = raise other_error

abbrev pub host : Text
host = codes "p"

abbrev pub hash : Text
hash = codes "h"

abbrev base : Text
base = codes "https://p/h/rcp.xml"

abbrev pub empty_world : World Query Caches
empty_world = record { sent = []; store = record { sessions = []; failures = [] } }

abbrev with_session : World Query Caches
with_session = record {
  sent = [];
  store = record { sessions = (codes "h", (codes "0x1f", 9000)) ∷ []; failures = [] };
}

abbrev command : Text
command = codes "0x0d00"

abbrev octets : Text
octets = codes "P_OCTET"

abbrev session : Text
session = codes "0x1f"

-- The answer is the error 0x0c0d.
told_closed : Tells (demo_camera [] (read_query base command session octets 0)) true
unfolding search_err same get read_query lower
told_closed =
    closed (good (codes "<err>0x0c0d</err>")) (codes "<err>0x0c0d</err>") (codes "0x0c0d") refl refl
      refl refl

rcp_read-drops_example :
    Dropped true hash with_session.store
      (rcp_read demo_camera true
        (proxy_url host hash)
        command
        session
        octets
        0
        with_session).1.store
unfolding proxy_url
rcp_read-drops_example =
    rcp_read-drops demo_camera host hash command session octets 0 with_session true (refl, tt)
      told_closed

rcp_local_read_odd_example :
    ((rcp_local_read odd_camera (codes "1.2.3.4") command octets 0 empty_world).0
      ≡ raise value_error)
    × ((rcp_read odd_camera true base command session octets 0 empty_world).0 ≡ ok none)
unfolding search_err search_payload from_hex
rcp_local_read_odd_example =
    rcp_local_read_odd odd_camera (codes "1.2.3.4") base command session octets 0 empty_world
      (good (codes "<str>abc</str>")) (codes "<str>abc</str>") (codes "abc") refl refl refl refl
      refl refl refl

-- One zone and a rest that is too short for another.
abbrev zone_bytes : Bytes
zone_bytes =
    1 ∷ 2 ∷ 3 ∷ 4 ∷ 5 ∷ 6 ∷ 7 ∷ 8 ∷ 9 ∷ 10 ∷ 11 ∷ 12 ∷ 13 ∷ 14 ∷ 15 ∷ 16 ∷ 17 ∷ 18 ∷ 19 ∷ 20 ∷ 21
    ∷ 22 ∷ 23 ∷ 24 ∷ 25 ∷ 26 ∷ 27 ∷ 28 ∷ 29 ∷ []
