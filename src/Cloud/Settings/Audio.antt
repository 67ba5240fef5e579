-- ===== src/Cloud/Settings/Audio.antt =====
-- settings.py: the audio settings that were set are the ones that are read.
use bosch_shc_camera_client.Common.{
  ℕ, ◌≤◌, ◌≡◌, refl, ap, ◌∙◌, Bool, true, false, List, [], ◌∷◌, ◌++◌, Option, none, some, String,
  is_empty, any, arith,
}
use bosch_shc_camera_client.Common.Texts.{Text, codes}
use bosch_shc_camera_client.Common.Dict.{string_key, Dict, get, update, Distinct, get-update}
use bosch_shc_camera_client.Common.Integers.{ℤ, pos}
use bosch_shc_camera_client.Cloud.Json.{Json, bool, int, Fields, item, integer_of, flag_of}
use bosch_shc_camera_client.Cloud.Json.Integers.{integer_of_small}
use bosch_shc_camera_client.Cloud.Wire.{Request, Server, done}
use bosch_shc_camera_client.Cloud.Actions.{is_ok_status, video_input_url}
use bosch_shc_camera_client.Cloud.Settings.{SettingWriteResult, is_unfit, merge_put}
use bosch_shc_camera_client.Cloud.Settings.Values.{is_within}
use bosch_shc_camera_client.Cloud.Settings.Storing.{
  IsStore, object_at, get_setting-held, merge_put-update,
}
use bosch_shc_camera_client.Cloud.Settings.Writers.{
  level_change, enabled_change, audio_changes, set_audio_settings,
}
use bosch_shc_camera_client.Cloud.Settings.Readers.{AudioSettings, audio_of, get_audio_settings}

-- A level that is given is at most 100.
abbrev pub IsLevel : Option ℕ → Type 0
IsLevel none = Unit
IsLevel (some n) = n ≤ 100

abbrev pub level : Option ℕ → Option Json
level none = none
level (some n) = some (int (pos n))

abbrev level_entry : String → Option ℕ → Dict String Json
level_entry key none = []
level_entry key (some n) = (key, int (pos n)) ∷ []

abbrev given : Option Bool → Option ℕ → Option ℕ → Dict String Json
given e m s = enabled_change e ++ level_entry "microphoneLevel" m ++ level_entry "speakerLevel" s

level_change-level :
    (key : String) (l : Option ℕ)
    → IsLevel l
    → level_change key (level l) ≡ done (level_entry key l)
unfolding level_change is_within
level_change-level key none h = refl
level_change-level key (some n) h = ground (arith, h)

audio_changes-given :
    (e : Option Bool) (m s : Option ℕ)
    → IsLevel m
    → IsLevel s
    → audio_changes e (level m) (level s) ≡ done (given e m s)
unfolding audio_changes
audio_changes-given e m s hm hs =
    rw (level_change-level "microphoneLevel" m hm, level_change-level "speakerLevel" s hs) refl

-- The changes as a dictionary.
abbrev flag_json : Option Bool → Option Json
flag_json none = none
flag_json (some b) = some (bool b)

abbrev Sets : Option Bool → Option ℕ → Option ℕ → Dict String Json → Type 0
Sets e m s d =
    (get "audioEnabled" d ≡ flag_json e)
    × (get "microphoneLevel" d ≡ level m)
    × (get "speakerLevel" d ≡ level s)
    × Distinct d
    × (any is_unfit d ≡ false)

given-Sets : (e : Option Bool) (m s : Option ℕ) → Sets e m s (given e m s)
unfolding get
given-Sets none none none = (refl, refl, refl, tt, refl)
given-Sets none none (some s) = (refl, refl, refl, (tt, tt), refl)
given-Sets none (some m) none = (refl, refl, refl, (tt, tt), refl)
given-Sets none (some m) (some s) = (refl, refl, refl, ((refl, tt), (tt, tt)), refl)
given-Sets (some e) none none = (refl, refl, refl, (tt, tt), refl)
given-Sets (some e) none (some s) = (refl, refl, refl, ((refl, tt), (tt, tt)), refl)
given-Sets (some e) (some m) none = (refl, refl, refl, ((refl, tt), (tt, tt)), refl)
given-Sets (some e) (some m) (some s) =
    (refl, refl, refl, ((refl, (refl, tt)), ((refl, tt), (tt, tt))), refl)

item-update :
    (key : String) (o : Option Json) (old d : Dict String Json)
    → Distinct d
    → get key d ≡ o
    → item key (update old d) ≡ (elim o [ none ↦ item key old | some v ↦ v ])
unfolding item
item-update key none old d h e = rw (item, get-update key old d h, e) refl
item-update key (some v) old d h e = rw (item, get-update key old d h, e) refl

-- The flag and the level after a write: the given one, or the one there was.
abbrev pub flag_after : Option Bool → Option Bool → Option Bool
flag_after none old = old
flag_after (some b) old = some b

abbrev pub level_after : Option ℕ → Option ℤ → Option ℤ
level_after none old = old
level_after (some n) old = some (pos n)

flag_of-after :
    (e : Option Bool) (v : Json)
    → flag_of (elim (flag_json e) [ none ↦ v | some j ↦ j ]) ≡ flag_after e (flag_of v)
unfolding flag_of
flag_of-after none v = refl
flag_of-after (some b) v = refl

integer_of-after :
    (l : Option ℕ) (v : Json)
    → IsLevel l
    → integer_of (elim (level l) [ none ↦ v | some j ↦ j ]) ≡ level_after l (integer_of v)
integer_of-after none v h = refl
integer_of-after (some n) v h = integer_of_small n (omega (arith, h))

audio_of-update :
    (e : Option Bool) (m s : Option ℕ) (old : Dict String Json)
    → IsLevel m
    → IsLevel s
    → let a = audio_of (update old (given e m s)) in
      (a.audio_enabled ≡ flag_after e (audio_of old).audio_enabled)
      × (a.microphone_level ≡ level_after m (audio_of old).microphone_level)
      × (a.speaker_level ≡ level_after s (audio_of old).speaker_level)
unfolding audio_of
audio_of-update e m s old hm hs =
    let (flag, microphone, speaker, distinct, _) = given-Sets e m s in
    (
      ap flag_of (item-update "audioEnabled" (flag_json e) old (given e m s) distinct flag)
          ∙ flag_of-after e (item "audioEnabled" old),
      ap integer_of (item-update "microphoneLevel" (level m) old (given e m s) distinct microphone)
          ∙ integer_of-after m (item "microphoneLevel" old) hm,
      ap integer_of (item-update "speakerLevel" (level s) old (given e m s) distinct speaker)
          ∙ integer_of-after s (item "speakerLevel" old) hs,
    )

module _ (server : Server) (token api_url cam_id : Text) (first : Fields)
    (store : IsStore server token (video_input_url api_url cam_id (codes "audio")) first) where
  abbrev pub audio_at : List Request → Dict String Json
  audio_at sent = object_at server token api_url cam_id (codes "audio") first store sent

  get_audio_settings-held :
      (sent : List Request)
      → (get_audio_settings server token api_url cam_id sent).0 ≡ done (audio_of (audio_at sent))
  unfolding get_audio_settings
  get_audio_settings-held sent =
      rw (get_setting-held server token api_url cam_id (codes "audio") first store sent) refl

  set_audio_settings-merge :
      (e : Option Bool) (m s : Option ℕ) (sent : List Request)
      → IsLevel m
      → IsLevel s
      → set_audio_settings server token api_url cam_id e (level m) (level s) sent
        ≡ merge_put server token api_url cam_id (codes "audio") (given e m s) sent
  unfolding set_audio_settings
  set_audio_settings-merge e m s sent hm hs = rw (audio_changes-given e m s hm hs) refl

  -- Where the cloud holds an object that is not empty at the URL of the audio settings, let them be set
  -- with any of the flag and the two levels given, the levels at most 100. The settings that are read
  -- next have the given flag and levels, what was not given is what the object held before, and the
  -- write returns the status of an accepted one.
  pub set_audio_settings-get :
      (e : Option Bool) (m s : Option ℕ) (sent : List Request)
      → IsLevel m
      → IsLevel s
      → is_empty (audio_at sent) ≡ false
      → let old = audio_of (audio_at sent) in
        let writing = set_audio_settings server token api_url cam_id e (level m) (level s) sent in
        ((r : SettingWriteResult) × (writing.0 ≡ done r) × (is_ok_status r.status ≡ true))
        × ((a : AudioSettings) × ((get_audio_settings server token api_url cam_id writing.1).0
              ≡ done a)
            × (a.audio_enabled ≡ flag_after e old.audio_enabled)
            × (a.microphone_level ≡ level_after m old.microphone_level)
            × (a.speaker_level ≡ level_after s old.speaker_level))
  set_audio_settings-get e m s sent hm hs nonempty =
      let d = given e m s in
      let (_, _, (r, returned, accepted), updated) =
        merge_put-update server token api_url cam_id (codes "audio") first store d sent
          (given-Sets e m s).4 nonempty in
      let merged = set_audio_settings-merge e m s sent hm hs in
      let (flag, microphone, speaker) = audio_of-update e m s (audio_at sent) hm hs in
      let log = (set_audio_settings server token api_url cam_id e (level m) (level s) sent).1 in
      (
        (r, ap (λ x. x.0) merged ∙ returned, accepted),
        (
          audio_of (update (audio_at sent) d),
          get_audio_settings-held log
              ∙ ap (λ x. done (audio_of (audio_at x.1))) merged
              ∙ ap (λ o. done (audio_of o)) updated,
          flag,
          microphone,
          speaker,
        ),
      )
