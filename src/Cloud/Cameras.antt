-- ===== src/Cloud/Cameras.antt =====
-- cameras.py: the list of cameras, the account of a token, and the image of the newest event.
-- `urlparse`, and the decoding of a token's claims, are parameters.
pub mod Downloads
pub mod Requests
pub mod Accounts
pub mod Rejections
use mathlib.Core.List.{reverse}
use bosch_shc_camera_client.Common.{
  ℕ, ◌+◌, ◌*◌, Bool, true, false, not, ◌&&◌, ◌||◌, List, [], ◌∷◌, ◌++◌, Option, none, some, String,
  ltb, leb, ◌==◌, if◌then◌else◌, length, is_empty, any,
}
use bosch_shc_camera_client.Common.Texts.{
  Text, Bytes, codes, same, starts_with, split, strip, contains,
}
use bosch_shc_camera_client.Common.Dict.{text_key, string_key, Dict, get}
use bosch_shc_camera_client.Net.{Fault, Result, ok, raise, is_network_or_value, other_error}
use bosch_shc_camera_client.Rcp.Parse.Catalogs.{is_space}
use bosch_shc_camera_client.Cloud.Json.{
  Json, null, string, array, object, elements, entries, item, text_of,
}
use bosch_shc_camera_client.Cloud.Wire.{
  get_method, no_body, Request, Answer, Server, auth_error, connection_error, invalid_response,
  fault, Outcome, done, failed, Call, ◌>>=◌, ◌>>◌, pure, fail, give, request, each, relabel,
  as_connection, as_invalid, value_of, is_rejected, fetch_json, continue,
}

-- What `urlparse` gives.
pub record Parsed : Type 0 where
  pub scheme : Text
  pub netloc : Text
  pub hostname : Option Text

unfoldable pub ends_with : Text → Text → Bool
unfolding starts_with
ends_with s p = starts_with (reverse s) (reverse p)

abbrev pub safe_domains : List Text
safe_domains = codes ".boschsecurity.com" ∷ codes ".bosch.com" ∷ []

abbrev pub is_safe_host : Option Text → Bool
is_safe_host none = false
is_safe_host (some h) = any (ends_with h) safe_domains

-- `is_safe_bosch_url` of media_transfer.py; `none` is urlparse's ValueError.
unfoldable pub is_safe_bosch_url : Option Parsed → Bool
unfolding ends_with
is_safe_bosch_url none = false
is_safe_bosch_url (some u) = same u.scheme (codes "https") && is_safe_host u.hostname

unfoldable pub is_downloadable : Option Parsed → Bool
unfolding is_safe_bosch_url contains
is_downloadable none = false
is_downloadable (some u) = is_safe_bosch_url (some u) && not (contains u.netloc (codes "@"))

pub data CameraModel : Type 0 where
  eyes_outdoor indoor_360 eyes_outdoor_ii eyes_indoor_ii unknown : CameraModel

abbrev model_by_hardware : Dict Text CameraModel
model_by_hardware =
    (codes "CAMERA_EYES", eyes_outdoor)
    ∷ (codes "OUTDOOR", eyes_outdoor)
    ∷ (codes "CAMERA_360", indoor_360)
    ∷ (codes "INDOOR", indoor_360)
    ∷ (codes "HOME_Eyes_Outdoor", eyes_outdoor_ii)
    ∷ (codes "HOME_Eyes_Indoor", eyes_indoor_ii)
    ∷ []

unfoldable pub model_of : Text → CameraModel
model_of hardware = elim (get hardware model_by_hardware) [ none ↦ unknown | some m ↦ m ]

pub record Camera : Type 0 where
  pub id : Text
  pub title : Text
  pub hardware_version : Text
  pub model : CameraModel
  pub firmware_version : Option Text

-- `hardware if isinstance(hardware, str) else ""`
abbrev pub string_or_empty : Json → Text
string_or_empty (string s) = s
string_or_empty _ = []

abbrev pub or_else : {A : Type 0} → A → Option A → A
or_else a none = a
or_else a (some b) = b

unfoldable pub camera_of : Text → Dict String Json → Camera
unfolding model_of item text_of
camera_of id d = record {
  id = id;
  title = or_else id (text_of (item "title" d));
  hardware_version = string_or_empty (item "hardwareVersion" d);
  model = model_of (string_or_empty (item "hardwareVersion" d));
  firmware_version = text_of (item "firmwareVersion" d);
}

abbrev pub camera_if : Option Text → Dict String Json → Outcome Camera
unfolding camera_of
camera_if none d = failed invalid_response
camera_if (some id) d = done (camera_of id d)

unfoldable pub parse_camera : Json → Outcome Camera
unfolding item text_of camera_if
parse_camera (object fs) = camera_if (text_of (item "id" (entries fs))) (entries fs)
parse_camera _ = failed invalid_response

unfoldable pub cameras_of : Json → Outcome (List Camera)
unfolding each parse_camera
cameras_of (array xs) = each parse_camera (elements xs)
cameras_of _ = failed invalid_response

unfoldable pub list_url : Text → Text
list_url api_url = api_url ++ codes "/v11/video_inputs"

unfoldable pub list_cameras : Server → Text → Text → Call (List Camera)
unfolding cameras_of list_url
list_cameras server token api_url = do
  payload ← fetch_json server token (list_url api_url)
  give (cameras_of payload)

-- The `sub` claim, if it may be used: not blank, and at most 128 characters.
abbrev pub usable_account : Json → Outcome Text
usable_account (string s) =
    if is_empty (strip is_space s) || ltb 128 (length s)
    then failed (auth_error none none)
    else done s
usable_account _ = failed (auth_error none none)

abbrev pub account_in : Option Json → Outcome Text
account_in none = failed (auth_error none none)
account_in (some v) = usable_account v

abbrev pub claimed : Option Json → Outcome Text
claimed (some (object fs)) = account_in (get "sub" (entries fs))
claimed _ = failed (auth_error none none)

-- `decode` gives the JSON of a token's middle part, or `none` where base64, UTF-8 or JSON raise.
unfoldable pub account_of_parts : (Text → Option Json) → List Text → Outcome Text
unfolding is_space
account_of_parts decode (header ∷ payload ∷ signature ∷ []) = claimed (decode payload)
account_of_parts decode _ = failed (auth_error none none)

unfoldable pub account_id_from_token : (Text → Option Json) → Text → Outcome Text
unfolding account_of_parts split
account_id_from_token decode token = account_of_parts decode (split b'.' token)

abbrev pub max_image_bytes : ℕ
max_image_bytes = 10 * 1024 * 1024

-- The chunks of a download, behind what was gathered: the image, or `none` once it is too large or a
-- read fails. An exception that the code does not catch is `raise`.
unfoldable pub gather : Bytes → List Bytes → Option Fault → Result (Option Bytes)
gather image [] none = ok (if is_empty image then none else some image)
gather image [] (some e) = if is_network_or_value e then ok none else raise e
gather image (chunk ∷ more) ending =
    let rest = gather (image ++ chunk) more ending in
    if ltb max_image_bytes (length (image ++ chunk)) then ok none else rest

unfoldable pub image_of : Result Answer → Result (Option Bytes)
unfolding gather
image_of (raise e) = if is_network_or_value e then ok none else raise e
image_of (ok resp) = if resp.status == 200 then gather [] resp.chunks resp.ending else ok none

unfoldable pub image_request : Text → Text → Request
image_request token url = record {
  method = get_method;
  url = url;
  params = [];
  token = token;
  body = no_body;
  allow_redirects = false;
}

abbrev pub outcome_of : {A : Type 0} → Result A → Outcome A
outcome_of (ok a) = done a
outcome_of (raise e) = failed (fault e)

unfoldable pub download_image : Server → Text → Text → Call (Option Bytes)
unfolding image_of image_request
download_image server token url sent = (
  outcome_of (image_of (server sent (image_request token url))),
  sent ++ image_request token url ∷ [],
)

abbrev string_of : Json → Option Text
string_of (string s) = some s
string_of _ = none

-- event.get("imageUrl") if isinstance(event, dict) else None
unfoldable pub image_url_of : Json → Option Text
unfolding item
image_url_of (object fs) = string_of (item "imageUrl" (entries fs))
image_url_of _ = none

-- The URL of an event's image, if it is one and may be downloaded.
unfoldable pub usable_url : (Text → Option Parsed) → Json → Option Text
unfolding image_url_of is_downloadable
usable_url urlparse event = elim (image_url_of event) [
  | none ↦ none
  | some url ↦ if is_downloadable (urlparse url) then some url else none
]

unfoldable pub events_request : Text → Text → Text → Request
events_request api_url token camera_id = record {
  method = get_method;
  url = api_url ++ codes "/v11/events";
  params = (codes "videoInputId", camera_id) ∷ [];
  token = token;
  body = no_body;
  allow_redirects = true;
}

-- The body of the event list; its errors carry no status.
unfoldable pub events_of : Answer → Call Json
unfolding value_of
events_of resp =
    if is_rejected resp.status
    then fail (auth_error none none)
    else if resp.status == 200
    then value_of resp.json
    else fail (connection_error none none)

module _ (urlparse : Text → Option Parsed) (server : Server) (token : Text) where
  -- One event of the loop, by its URL, with the call for the events behind it.
  unfoldable pub visit : Option Text → Call (Option Bytes) → Call (Option Bytes)
  unfolding download_image
  visit none rest = rest
  visit (some url) rest = do
    image ← download_image server token url
    elim image [ none ↦ rest | some bytes ↦ pure (some bytes) ]

  -- The loop over the events.
  unfoldable pub first_image : List Json → Call (Option Bytes)
  unfolding usable_url visit
  first_image [] = pure none
  first_image (event ∷ events) = visit (usable_url urlparse event) (first_image events)

  unfoldable pub images_of : Json → Call (Option Bytes)
  unfolding first_image
  images_of (array xs) = first_image (elements xs)
  images_of _ = fail invalid_response

  -- The body of the `try` that reads the event list.
  unfoldable pub event_list : Text → Text → Call Json
  unfolding events_of events_request
  event_list api_url camera_id = do
    resp ← request server (events_request api_url token camera_id)
    events_of resp

  unfoldable pub get_latest_event_image : Text → Text → Call (Option Bytes)
  unfolding images_of event_list as_connection as_invalid
  get_latest_event_image api_url camera_id = do
    payload ← relabel as_invalid (relabel as_connection (event_list api_url camera_id))
    images_of payload
