-- ===== src/Tests/Stores.antt =====
-- Runs against a cloud that holds an object.
use bosch_shc_camera_client.Common.{◌≡◌, refl, true, false, [], ◌∷◌, none, some, String, arith}
use bosch_shc_camera_client.Common.Texts.{Text, codes}
use bosch_shc_camera_client.Common.Dict.{string_key, Dict, update}
use bosch_shc_camera_client.Common.Integers.{pos}
use bosch_shc_camera_client.Net.{ok, value_error}
use bosch_shc_camera_client.Cloud.Json.{Json, null, bool, int, object, Fields, fields_of, entries}
use bosch_shc_camera_client.Cloud.Wire.{read, broken, Server, done}
use bosch_shc_camera_client.Cloud.Actions.{is_ok_status, video_input_url}
use bosch_shc_camera_client.Cloud.Settings.{SettingWriteResult, get_setting, merge_put}
use bosch_shc_camera_client.Cloud.Settings.Storing.{held, IsStore, object_at, merge_put-update}
use bosch_shc_camera_client.Cloud.Settings.Writers.{set_audio_settings}
use bosch_shc_camera_client.Cloud.Settings.Readers.{AudioSettings, audio_of, get_audio_settings}
use bosch_shc_camera_client.Cloud.Settings.Audio.{
  flag_after, level_after, level, audio_at, set_audio_settings-get,
}
use bosch_shc_camera_client.Tests.Requests.{token, api}

abbrev camera : Text
camera = codes "A"

abbrev audio_url : Text
audio_url = video_input_url api camera (codes "audio")

abbrev first : Fields
unfolding fields_of
first =
    fields_of
      (("audioEnabled", bool true) ∷ ("microphoneLevel", int (pos 40)) ∷ ("mode", null) ∷ [])

-- Every request is answered with the object that is held before it.
abbrev storing : Server
storing sent q = ok (record {
  status = 200;
  json = read (object (held audio_url first sent));
  text = broken value_error;
  chunks = [];
  ending = none;
})

abbrev store : IsStore storing token audio_url first
store = record { reads = λ sent. refl; writes = λ sent d. (_, refl, refl, refl) }

abbrev mode_change : Dict String Json
mode_change = ("mode", bool true) ∷ []

merge_put-update_example :
    let now = object_at storing token api camera (codes "audio") first store in
    let reading = get_setting storing token api camera (codes "audio") [] in
    let merging = merge_put storing token api camera (codes "audio") mode_change [] in
    (reading.0 ≡ done (now []))
    × (now reading.1 ≡ now [])
    × ((r : SettingWriteResult) × (merging.0 ≡ done r) × (is_ok_status r.status ≡ true))
    × (now merging.1 ≡ update (now []) mode_change)
unfolding held entries fields_of
merge_put-update_example =
    merge_put-update storing token api camera (codes "audio") first store mode_change [] refl refl

set_audio_settings-get_example :
    let old = audio_of (audio_at storing token api camera first store []) in
    let writing =
      set_audio_settings storing token api camera (some false) none (level (some 7)) [] in
    ((r : SettingWriteResult) × (writing.0 ≡ done r) × (is_ok_status r.status ≡ true))
    × ((a : AudioSettings) × ((get_audio_settings storing token api camera writing.1).0 ≡ done a)
        × (a.audio_enabled ≡ flag_after (some false) old.audio_enabled)
        × (a.microphone_level ≡ level_after none old.microphone_level)
        × (a.speaker_level ≡ level_after (some 7) old.speaker_level))
unfolding held entries fields_of
set_audio_settings-get_example =
    set_audio_settings-get storing token api camera first store (some false) none (some 7) [] tt
      (omega arith) refl
