-- ===== src/Cloud/Live/Usable.antt =====
-- live.py: what a live connection that is returned has.
use bosch_shc_camera_client.Common.{
  ℕ, ◌≤◌, Bool, true, false, ◌&&◌, [], ◌∷◌, Option, none, some, String, ◌≡◌, refl, ltb, ltb→lt, leb,
  leb→le, if◌then◌else◌, and_true, length,
}
use bosch_shc_camera_client.Common.Texts.{Text, codes}
use bosch_shc_camera_client.Common.Dict.{Dict}
use bosch_shc_camera_client.Cloud.Json.{Json, string, bool, object, text_of, item, fields_of}
use bosch_shc_camera_client.Cloud.Json.Filled.{IsFilled, text_of-IsFilled}
use bosch_shc_camera_client.Cloud.Wire.{
  Server, Outcome, done, failed, invalid_response, Call, give, put_method, json_body,
}
use bosch_shc_camera_client.Cloud.Wire.Rules.{
  Gives, Returns, Returns-bind, Returns-any, Returns-give,
}
use bosch_shc_camera_client.Cloud.Settings.{SettingWriteResult, put_setting}
use bosch_shc_camera_client.Cloud.Live.{
  LiveConnection, is_host, port_of, checked_address, partition_colon, first_of, address_of,
  connection_from, with_credentials, connection_of, open_local_live_connection,
}

abbrev IsAddress : Text × ℕ → Type 0
IsAddress (host, port) = (is_host host ≡ true) × (1 ≤ port) × (port ≤ 65535)

-- A host of labels, a port that can be connected to, and credentials that are not empty.
abbrev pub IsUsable : LiveConnection → Type 0
IsUsable c =
    (is_host c.host ≡ true)
    × (1 ≤ c.port)
    × (c.port ≤ 65535)
    × (1 ≤ length c.username)
    × (1 ≤ length c.password)

checked_address-IsAddress : (address : Text × Text) → Gives IsAddress (checked_address address)
unfolding checked_address
checked_address-IsAddress (host, port_text) =
    cases (ltb 0 (port_of port_text) && leb (port_of port_text) 65535 && is_host host) refl
  where
    cases :
        (b : Bool)
        → (ltb 0 (port_of port_text) && leb (port_of port_text) 65535 && is_host host) ≡ b
        → Gives IsAddress (if b then done (host, port_of port_text) else failed invalid_response)
    cases true h =
        let outer =
          and_true (ltb 0 (port_of port_text) && leb (port_of port_text) 65535) (is_host host) h in
        let inner = and_true (ltb 0 (port_of port_text)) (leb (port_of port_text) 65535) outer.0 in
        (outer.1, ltb→lt 0 (port_of port_text) inner.0, leb→le (port_of port_text) 65535 inner.1)
    cases false h = tt

address_of-IsAddress : (response : Dict String Json) → Gives IsAddress (address_of response)
unfolding address_of
address_of-IsAddress response =
    checked_address-IsAddress (partition_colon (first_of (item "urls" response)))

connection_from-IsUsable :
    (response : Dict String Json) (username password : Text) (address : Outcome (Text × ℕ))
    → 1 ≤ length username
    → 1 ≤ length password
    → Gives IsAddress address
    → Gives IsUsable (connection_from response username password address)
unfolding connection_from
connection_from-IsUsable response username password (failed e) hu hp h = tt
connection_from-IsUsable response username password (done (host, port)) hu hp h =
    (h.0, h.1, h.2, hu, hp)

with_credentials-IsUsable :
    (response : Dict String Json) (username password : Option Text)
    → IsFilled username
    → IsFilled password
    → Gives IsUsable (with_credentials response username password)
unfolding with_credentials
with_credentials-IsUsable response (some username) (some password) hu hp =
    connection_from-IsUsable response username password (address_of response) hu hp
      (address_of-IsAddress response)
with_credentials-IsUsable response none password hu hp = tt
with_credentials-IsUsable response (some username) none hu hp = tt

connection_of-IsUsable :
    (response : Option (Dict String Json)) → Gives IsUsable (connection_of response)
unfolding connection_of
connection_of-IsUsable none = tt
connection_of-IsUsable (some response) =
    with_credentials-IsUsable response (text_of (item "user" response))
      (text_of (item "password" response)) (text_of-IsFilled (item "user" response))
      (text_of-IsFilled (item "password" response))

-- A connection that `open_local_live_connection` returns has a host of labels of at most 63 letters,
-- digits and dashes, a port from 1 to 65535, and a user name and a password that are not empty.
pub open_local_live_connection-IsUsable :
    (server : Server) (token api_url camera_id : Text) (high_quality : Bool)
    → Returns IsUsable (open_local_live_connection server token api_url camera_id high_quality)
unfolding open_local_live_connection
open_local_live_connection-IsUsable server token api_url camera_id high_quality =
    Returns-bind connect (λ result. give (connection_of result.response)) (Returns-any connect)
      (λ result _.
        Returns-give (connection_of result.response) (connection_of-IsUsable result.response))
  where
    connect : Call SettingWriteResult
    connect =
        put_setting server token api_url camera_id (codes "connection")
          (json_body (
            object (
              fields_of
                (("type", string (codes "LOCAL")) ∷ ("highQualityVideo", bool high_quality) ∷ []))))
          put_method
