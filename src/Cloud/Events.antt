-- ===== src/Cloud/Events.antt =====
-- events.py: the event list, the newest event and the feature flags. The parsing of ISO timestamps and
-- the change to UTC are parameters.
pub mod Flags
use bosch_shc_camera_client.Common.{
  ℕ, Bool, true, false, List, [], ◌∷◌, ◌++◌, Option, none, some, String, if◌then◌else◌, all,
}
use bosch_shc_camera_client.Common.Texts.{Text, codes, split}
use bosch_shc_camera_client.Common.Decimal.{decimal}
use bosch_shc_camera_client.Common.Dict.{string_key, Dict}
use bosch_shc_camera_client.Cloud.Json.{
  Json, bool, string, array, object, elements, entries, item, text_of, is_true,
}
use bosch_shc_camera_client.Cloud.Wire.{
  Server, invalid_response, Outcome, done, failed, Call, ◌>>=◌, give, each, fetch_json,
}
use bosch_shc_camera_client.Cloud.Cameras.{or_else}
use bosch_shc_camera_client.Cloud.States.{object_of, bools_of}
use bosch_shc_camera_client.Cloud.Actions.{video_input_url}

-- Python's datetime: `fromisoformat` (`none` is its ValueError), and of its result whether it has no
-- zone, `replace(tzinfo=UTC)`, and `astimezone(UTC)` (`none` is its OverflowError).
pub record Clock (T : Type 0) : Type 0 where
  pub fromisoformat : Text → Option T
  pub is_naive : T → Bool
  pub in_utc : T → T
  pub to_utc : T → Option T

pub record Event (T : Type 0) : Type 0 where
  pub id : Text
  pub camera_id : Text
  pub timestamp : Option T
  pub event_type : Text
  pub tags : List Text
  pub image_url : Option Text
  pub clip_url : Option Text
  pub clip_status : Option Text
  pub is_read : Bool

-- s.split("[", 1)[0]
abbrev first_part : List Text → Text
first_part [] = []
first_part (w ∷ ws) = w

-- (t for t in tags if isinstance(t, str))
unfoldable pub strings_of : List Json → List Text
strings_of [] = []
strings_of (string s ∷ xs) = s ∷ strings_of xs
strings_of (_ ∷ xs) = strings_of xs

abbrev tags_of : Json → List Text
unfolding strings_of
tags_of (array xs) = strings_of (elements xs)
tags_of _ = []

module _ {T : Type 0} (clock : Clock T) where
  abbrev utc_of : T → Option T
  utc_of t = if clock.is_naive t then some (clock.in_utc t) else clock.to_utc t

  abbrev parsed_time : Option T → Option T
  parsed_time none = none
  parsed_time (some t) = utc_of t

  unfoldable pub parse_event_timestamp : Json → Option T
  unfolding split
  parse_event_timestamp (string (c ∷ s)) =
      parsed_time (clock.fromisoformat (first_part (split b'[' (c ∷ s))))
  parse_event_timestamp _ = none

  unfoldable pub event_of : Text → Text → Dict String Json → Event T
  unfolding parse_event_timestamp item text_of is_true tags_of
  event_of camera_id id d = record {
    id = id;
    camera_id = camera_id;
    timestamp = parse_event_timestamp (item "timestamp" d);
    event_type = or_else (codes "UNKNOWN") (text_of (item "eventType" d));
    tags = tags_of (item "eventTags" d);
    image_url = text_of (item "imageUrl" d);
    clip_url = text_of (item "videoClipUrl" d);
    clip_status = text_of (item "videoClipUploadStatus" d);
    is_read = is_true (item "isRead" d);
  }

  unfoldable pub parse_event : Text → Json → Outcome (Event T)
  unfolding event_of
  parse_event camera_id (object fs) = elim (text_of (item "id" (entries fs))) [
    | none ↦ failed invalid_response
    | some id ↦ done (event_of camera_id id (entries fs))
  ]
  parse_event camera_id _ = failed invalid_response

  unfoldable pub events_of : Text → Json → Outcome (List (Event T))
  unfolding each parse_event
  events_of camera_id (array xs) = each (parse_event camera_id) (elements xs)
  events_of camera_id _ = failed invalid_response

unfoldable pub events_url : Text → Text → ℕ → Text
events_url api_url camera_id limit =
    api_url ++ codes "/v11/events?videoInputId=" ++ camera_id ++ codes "&limit=" ++ decimal limit

-- [item for item in payload if isinstance(item, dict)]
unfoldable pub objects_of : List Json → List (Dict String Json)
objects_of [] = []
objects_of (object fs ∷ xs) = entries fs ∷ objects_of xs
objects_of (_ ∷ xs) = objects_of xs

abbrev raw_events_of : Json → Outcome (List (Dict String Json))
unfolding objects_of
raw_events_of (array xs) = done (objects_of (elements xs))
raw_events_of _ = failed invalid_response

abbrev is_bool : String × Json → Bool
is_bool (k, bool b) = true
is_bool _ = false

unfoldable pub flags_of : Json → Outcome (Dict String Bool)
unfolding bools_of
flags_of (object fs) =
    if all is_bool (entries fs) then done (bools_of (entries fs)) else failed invalid_response
flags_of _ = failed invalid_response

module _ (server : Server) (token api_url : Text) where
  unfoldable pub list_events : {T : Type 0} → Clock T → Text → ℕ → Call (List (Event T))
  unfolding events_of events_url
  list_events clock camera_id limit = do
    payload ← fetch_json server token (events_url api_url camera_id limit)
    give (events_of clock camera_id payload)

  unfoldable pub list_events_raw : Text → ℕ → Call (List (Dict String Json))
  unfolding raw_events_of events_url
  list_events_raw camera_id limit = do
    payload ← fetch_json server token (events_url api_url camera_id limit)
    give (raw_events_of payload)

  unfoldable pub get_last_event : Text → Call (Dict String Json)
  unfolding video_input_url
  get_last_event camera_id = do
    payload ← fetch_json server token (video_input_url api_url camera_id (codes "last_event"))
    give (object_of payload)

  unfoldable pub get_feature_flags : Call (Dict String Bool)
  unfolding flags_of
  get_feature_flags = do
    payload ← fetch_json server token (api_url ++ codes "/v11/feature_flags")
    give (flags_of payload)
