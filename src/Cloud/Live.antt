-- ===== src/Cloud/Live.antt =====
-- live.py: opening a local live session, and the address of its stream. `quote` is a parameter.
pub mod Address
pub mod Usable
use bosch_shc_camera_client.Common.{
  ℕ, ◌+◌, Bool, true, false, not, ◌&&◌, ◌||◌, List, [], ◌∷◌, ◌++◌, Option, none, some, String, leb,
  ltb, ◌==◌, if◌then◌else◌, is_empty, all, length,
}
use bosch_shc_camera_client.Common.Texts.{Text, codes, split, starts_with, contains}
use bosch_shc_camera_client.Common.Decimal.{decimal, read_decimal}
use bosch_shc_camera_client.Common.Dict.{string_key, Dict}
use bosch_shc_camera_client.Common.Integers.{ℤ, pos, negsuc}
use bosch_shc_camera_client.Cloud.Json.{
  Json, bool, string, array, object, elements, fields_of, item, text_of, integer_of,
}
use bosch_shc_camera_client.Cloud.Wire.{
  put_method, json_body, Server, invalid_response, fault, Outcome, done, failed, Call, ◌>>=◌, pure,
  fail, give, continue,
}
use bosch_shc_camera_client.Net.{value_error}
use bosch_shc_camera_client.Cloud.Cameras.{ends_with}
use bosch_shc_camera_client.Cloud.Settings.{SettingWriteResult, put_setting}

pub record LiveConnection : Type 0 where
  pub host : Text
  pub port : ℕ
  pub username : Text
  pub password : Text
  pub snapshot_url : Text
  pub max_session_seconds : ℕ
  pub buffering_ms : ℕ

-- [A-Za-z0-9-]
unfoldable pub is_label_char : ℕ → Bool
is_label_char c =
    leb b'A' c && leb c b'Z' || leb b'a' c && leb c b'z' || leb b'0' c && leb c b'9' || c == b'-'

-- _LABEL, on the whole of a text
unfoldable pub is_label : Text → Bool
unfolding is_label_char starts_with ends_with
is_label s =
    leb 1 (length s)
    && leb (length s) 63
    && all is_label_char s
    && not (starts_with s (codes "-"))
    && not (ends_with s (codes "-"))

-- _HOST_PATTERN.fullmatch
unfoldable pub is_host : Text → Bool
unfolding is_label split
is_host s = all is_label (split b'.' s)

abbrev pub is_digit : ℕ → Bool
is_digit c = leb b'0' c && leb c b'9'

-- s.partition(":"), without the separator
unfoldable pub partition_colon : Text → Text × Text
partition_colon [] = ([], [])
partition_colon (c ∷ s) =
    let (head, tail) = partition_colon s in if c == b':' then ([], s) else (c ∷ head, tail)

-- The number of at most five ASCII digits; 0 for any other text.
unfoldable pub port_of : Text → ℕ
unfolding read_decimal
port_of s = if not (is_empty s) && all is_digit s && leb (length s) 5 then read_decimal 0 s else 0

-- The host and the port of an address, if both may be used.
unfoldable pub checked_address : Text × Text → Outcome (Text × ℕ)
unfolding port_of is_host
checked_address (host, port_text) =
    if ltb 0 (port_of port_text) && leb (port_of port_text) 65535 && is_host host
    then done (host, port_of port_text)
    else failed invalid_response

abbrev first_string : List Json → Text
first_string (string s ∷ xs) = s
first_string _ = []

abbrev pub first_of : Json → Text
unfolding elements
first_of (array xs) = first_string (elements xs)
first_of _ = []

-- `_address`
unfoldable pub address_of : Dict String Json → Outcome (Text × ℕ)
unfolding item first_of partition_colon checked_address
address_of response = checked_address (partition_colon (first_of (item "urls" response)))

abbrev pub session_seconds : ℕ
session_seconds = 3600

-- DEFAULT_BUFFERING_MS if buffering is None or buffering < 0 else buffering
unfoldable pub buffering_of : Option ℤ → ℕ
buffering_of (some (pos n)) = n
buffering_of _ = 500

abbrev pub connection_from :
    Dict String Json → Text → Text → Outcome (Text × ℕ) → Outcome LiveConnection
unfolding item integer_of buffering_of
connection_from response username password (failed e) = failed e
connection_from response username password (done (host, port)) = done (record {
  host = host;
  port = port;
  username = username;
  password = password;
  snapshot_url =
      codes "https://" ++ host ++ codes ":" ++ decimal port ++ codes "/snap.jpg?JpegSize=1206";
  max_session_seconds = session_seconds;
  buffering_ms = buffering_of (integer_of (item "bufferingTime" response));
})

abbrev pub with_credentials : Dict String Json → Option Text → Option Text → Outcome LiveConnection
unfolding connection_from address_of
with_credentials response (some username) (some password) =
    connection_from response username password (address_of response)
with_credentials response _ _ = failed invalid_response

unfoldable pub connection_of : Option (Dict String Json) → Outcome LiveConnection
unfolding item text_of with_credentials
connection_of none = failed invalid_response
connection_of (some response) =
    with_credentials response (text_of (item "user" response)) (text_of (item "password" response))

unfoldable pub open_local_live_connection : Server → Text → Text → Text → Bool → Call LiveConnection
unfolding put_setting connection_of fields_of
open_local_live_connection server token api_url camera_id high_quality = do
  result ←
      put_setting server token api_url camera_id (codes "connection")
        (json_body (
          object (
            fields_of
              (("type", string (codes "LOCAL")) ∷ ("highQualityVideo", bool high_quality) ∷ []))))
        put_method
  give (connection_of result.response)

-- `LiveConnection.stream_url`
unfoldable pub stream_url : (Text → Text) → LiveConnection → ℕ → ℕ → Bool → Text → Outcome Text
unfolding contains decimal
stream_url quote c proxy_port quality_instance audio proxy_host =
    if leb 1 quality_instance && leb quality_instance 4
    then done (
        codes "rtsp://"
        ++ quote c.username
        ++ codes ":"
        ++ quote c.password
        ++ codes "@"
        ++ (if contains proxy_host (codes ":")
            then codes "[" ++ proxy_host ++ codes "]"
            else proxy_host)
        ++ codes ":"
        ++ decimal proxy_port
        ++ codes "/rtsp_tunnel?inst="
        ++ decimal quality_instance
        ++ codes "&enableaudio="
        ++ decimal (if audio then 1 else 0)
        ++ codes "&fmtp=1"
        ++ codes "&maxSessionDuration="
        ++ decimal c.max_session_seconds)
    else failed (fault value_error)
