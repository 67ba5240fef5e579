-- ===== src/Cloud/Settings/Checks.antt =====
-- settings.py: the arguments that the writers refuse before anything is sent.
use bosch_shc_camera_client.Common.{
  Bool, true, false, ◌&&◌, List, [], ◌∷◌, Option, none, some, String, ◌≡◌, refl, ap, ◌∙◌, ◌⊎◌, inl,
  inr, if◌then◌else◌, arith, all,
}
use bosch_shc_camera_client.Common.Texts.{Text}
use bosch_shc_camera_client.Common.Dict.{Dict}
use bosch_shc_camera_client.Net.{value_error}
use bosch_shc_camera_client.Cloud.Json.{Json, object, fields_of}
use bosch_shc_camera_client.Cloud.Wire.{
  Request, Server, Outcome, done, failed, fault, each, prepended,
}
use bosch_shc_camera_client.Cloud.Settings.Values.{
  Region, is_within, is_unit, region_values, check_region, check_regions,
}
use bosch_shc_camera_client.Cloud.Settings.Writers.{
  level_change, enabled_change, joined, audio_changes, set_audio_settings, set_regions,
}

level_change_refused :
    (key : String) (level : Json)
    → is_within 0 100 level ≡ false
    → level_change key (some level) ≡ failed (fault value_error)
unfolding level_change
level_change_refused key level h = rw (h) refl

-- Of one level only the ValueError comes.
data Checked : Outcome (Dict String Json) → Type 0 where
  taken : (d : Dict String Json) → Checked (done d)
  refused : Checked (failed (fault value_error))

Checked-level_change : (key : String) (level : Option Json) → Checked (level_change key level)
unfolding level_change
Checked-level_change key none = taken []
Checked-level_change key (some level) = cases (is_within 0 100 level)
  where
    cases :
        (b : Bool) → Checked (if b then done ((key, level) ∷ []) else failed (fault value_error))
    cases true = taken ((key, level) ∷ [])
    cases false = refused

joined_refused :
    (enabled : Dict String Json) (microphone speaker : Outcome (Dict String Json))
    → Checked microphone
    → Checked speaker
    → (microphone ≡ failed (fault value_error)) ⊎ (speaker ≡ failed (fault value_error))
    → joined enabled microphone speaker ≡ failed (fault value_error)
joined_refused enabled _ _ refused c h = refl
joined_refused enabled _ _ (taken m) refused h = refl
joined_refused enabled _ _ (taken m) (taken s) (inl h) = grind arith
joined_refused enabled _ _ (taken m) (taken s) (inr h) = grind arith

either_refused :
    (microphone speaker : Option Json) (level : Json)
    → (microphone ≡ some level) ⊎ (speaker ≡ some level)
    → is_within 0 100 level ≡ false
    → (level_change "microphoneLevel" microphone ≡ failed (fault value_error))
      ⊎ (level_change "speakerLevel" speaker ≡ failed (fault value_error))
either_refused microphone speaker level (inl h) bad =
    inl (ap (level_change "microphoneLevel") h ∙ level_change_refused "microphoneLevel" level bad)
either_refused microphone speaker level (inr h) bad =
    inr (ap (level_change "speakerLevel") h ∙ level_change_refused "speakerLevel" level bad)

module _ (server : Server) (token api_url cam_id : Text) (sent : List Request) where
  -- A microphone or speaker level that is not an int from 0 to 100 is a ValueError, and nothing is sent.
  pub set_audio_settings-refused :
      (enabled : Option Bool) (microphone speaker : Option Json) (level : Json)
      → (microphone ≡ some level) ⊎ (speaker ≡ some level)
      → is_within 0 100 level ≡ false
      → set_audio_settings server token api_url cam_id enabled microphone speaker sent
        ≡ (failed (fault value_error), sent)
  unfolding set_audio_settings audio_changes
  set_audio_settings-refused enabled microphone speaker level h bad =
      rw
        (joined_refused (enabled_change enabled) (level_change "microphoneLevel" microphone)
          (level_change "speakerLevel" speaker) (Checked-level_change "microphoneLevel" microphone)
          (Checked-level_change "speakerLevel" speaker)
          (either_refused microphone speaker level h bad))
        refl

-- Every coordinate is from 0 to 1.
abbrev pub is_region : Region → Bool
is_region r = is_unit r.x && is_unit r.y && is_unit r.w && is_unit r.h

check_regions_refused :
    (regions : List Region)
    → all is_region regions ≡ false
    → check_regions regions ≡ failed (fault value_error)
unfolding check_regions each check_region
check_regions_refused [] h = grind arith
check_regions_refused (r ∷ regions) h = cases (is_region r) (check_regions_refused regions) h
  where
    cases :
        (b : Bool)
        → (all is_region regions ≡ false → each check_region regions ≡ failed (fault value_error))
        → b && all is_region regions ≡ false
        → prepended
            (if b then done (object (fields_of (region_values r))) else failed (fault value_error))
            (each check_region regions)
          ≡ failed (fault value_error)
    cases true k e = rw (k e) refl
    cases false k e = refl

module _ (server : Server) (token api_url cam_id : Text) (sent : List Request) where
  -- Regions of which one has a coordinate outside 0 to 1 are a ValueError, and nothing is sent, neither
  -- for the motion zones nor for the privacy masks.
  pub set_regions-refused :
      (endpoint : Text) (regions : List Region)
      → all is_region regions ≡ false
      → set_regions server token api_url cam_id endpoint regions sent
        ≡ (failed (fault value_error), sent)
  unfolding set_regions
  set_regions-refused endpoint regions h = rw (check_regions_refused regions h) refl
