-- ===== src/Cloud/Cameras/Rejections.antt =====
-- cameras.py: what a rejected token raises in `fetch_json` and in `get_latest_event_image`.
use bosch_shc_camera_client.Common.{true, List, [], ◌∷◌, ◌++◌, Option, none, some, ◌≡◌, refl, take}
use bosch_shc_camera_client.Common.Texts.{Text}
use bosch_shc_camera_client.Net.{ok}
use bosch_shc_camera_client.Cloud.Wire.{
  Request, read, Answer, Server, auth_error, failed, as_connection, as_invalid, value_if_any,
  shortened, read_error_body, is_rejected, raise_if_token_rejected, get_request, fetch_body,
  fetch_json,
}
use bosch_shc_camera_client.Cloud.Cameras.{
  Parsed, events_request, events_of, event_list, get_latest_event_image,
}

raise_rejected :
    (resp : Answer) (t : Text) (sent : List Request)
    → is_rejected resp.status ≡ true
    → resp.text ≡ read t
    → raise_if_token_rejected resp sent
      ≡ (failed (auth_error (some resp.status) (some (take 200 t))), sent)
unfolding raise_if_token_rejected read_error_body value_if_any shortened
raise_rejected resp t sent h k = rw (h, k) refl

fetch_rejected :
    (server : Server) (token url : Text) (sent : List Request) (resp : Answer) (t : Text)
    → is_rejected resp.status ≡ true
    → resp.text ≡ read t
    → server sent (get_request token url) ≡ ok resp
    → (fetch_json server token url sent).0
      ≡ failed (auth_error (some resp.status) (some (take 200 t)))
unfolding fetch_json fetch_body as_connection as_invalid
fetch_rejected server token url sent resp t h k answered =
    rw (answered, raise_rejected resp t (sent ++ get_request token url ∷ []) h k) refl

-- An answer with status 401 or 403 and a text makes `fetch_json` raise an authentication error that
-- carries the status and the first 200 characters; the error that `get_latest_event_image` raises for
-- the same answer to its event list carries neither.
pub rejected_status :
    (urlparse : Text → Option Parsed) (server : Server) (token url api_url camera_id : Text)
    (sent : List Request) (resp : Answer) (t : Text)
    → is_rejected resp.status ≡ true
    → resp.text ≡ read t
    → server sent (get_request token url) ≡ ok resp
    → server sent (events_request api_url token camera_id) ≡ ok resp
    → ((fetch_json server token url sent).0
        ≡ failed (auth_error (some resp.status) (some (take 200 t))))
      × ((get_latest_event_image urlparse server token api_url camera_id sent).0
          ≡ failed (auth_error none none))
unfolding get_latest_event_image event_list events_of as_connection as_invalid
rejected_status urlparse server token url api_url camera_id sent resp t h k fetched listed =
    (fetch_rejected server token url sent resp t h k fetched, rw (listed, h) refl)
