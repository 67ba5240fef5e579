-- ===== src/Cloud/States/Listing.antt =====
-- states.py: which entry of the camera list the state of a camera comes from.
use bosch_shc_camera_client.Common.{
  List, [], ◌∷◌, Option, none, some, ◌≡◌, refl, ◌∙◌, ap, if◌then◌else◌, arith,
}
use bosch_shc_camera_client.Common.Texts.{Text, same}
use bosch_shc_camera_client.Common.Dict.{text_key, string_key, Dict, get, put, get-put}
use bosch_shc_camera_client.Cloud.Json.{
  Json, Items, array, object, null, bool, int, real, string, entries, elements, item, text_of,
}
use bosch_shc_camera_client.Cloud.Wire.{Request, Server, Outcome, done, failed, get_request}
use bosch_shc_camera_client.Cloud.Wire.Fetch.{carried, fetch_json_done}
use bosch_shc_camera_client.Cloud.Cameras.{list_url}
use bosch_shc_camera_client.Cloud.States.{
  CameraAccountStates, account_state_of, add_state, add_states, account_states_of,
  get_camera_account_states,
}

module _ (upper : Text → Text) (id : Text) where
  abbrev named : Option Text → CameraAccountStates → Option CameraAccountStates
  named none s = none
  named (some j) s = if same j id then some s else none

  -- The state in an entry, if the entry is of the camera.
  abbrev pub state_in : Json → Option CameraAccountStates
  unfolding item text_of account_state_of
  state_in (object fs) =
      named (text_of (item "id" (entries fs))) (account_state_of upper (entries fs))
  state_in _ = none

  abbrev or_before :
      Option CameraAccountStates → Option CameraAccountStates → Option CameraAccountStates
  or_before none s = s
  or_before (some s) _ = some s

  -- The state in the last entry of the camera.
  abbrev pub last_state : List Json → Option CameraAccountStates
  last_state [] = none
  last_state (x ∷ xs) = or_before (last_state xs) (state_in x)

  get-add_state :
      (x : Json) (states : Dict Text CameraAccountStates)
      → get id (add_state upper x states) ≡ or_before (state_in x) (get id states)
  unfolding add_state
  get-add_state (object fs) states = cases (text_of (item "id" (entries fs)))
    where
      s : CameraAccountStates
      s = account_state_of upper (entries fs)

      cases :
          (o : Option Text)
          → get id (elim o as (λ _. Dict Text CameraAccountStates) [
            | none ↦ states
            | some j ↦ put j s states
          ])
            ≡ or_before (named o s) (get id states)
      cases none = refl
      cases (some j) = ground (arith, get-put j id s states)
  get-add_state null states = refl
  get-add_state (bool b) states = refl
  get-add_state (int n) states = refl
  get-add_state (real x) states = refl
  get-add_state (string t) states = refl
  get-add_state (array xs) states = refl

  before-before :
      (a b c : Option CameraAccountStates)
      → or_before a (or_before b c) ≡ or_before (or_before a b) c
  before-before none b c = refl
  before-before (some s) b c = refl

  get-add_states :
      (xs : List Json) (states : Dict Text CameraAccountStates)
      → get id (add_states upper xs states) ≡ or_before (last_state xs) (get id states)
  unfolding add_states get
  get-add_states [] states = refl
  get-add_states (x ∷ xs) states =
      get-add_states xs (add_state upper x states)
      ∙ rw (get-add_state x states) (before-before (last_state xs) (state_in x) (get id states))

  abbrev pub found : Outcome (Dict Text CameraAccountStates) → Option (Option CameraAccountStates)
  found (done states) = some (get id states)
  found (failed e) = none

  -- When the cloud answers the camera list with status 200 and an array, the states are returned, and
  -- each camera has the state in the last entry with its id; a camera without an entry has none.
  pub get_camera_account_states_lem :
      (server : Server) (token api_url : Text) (sent : List Request) (xs : Items)
      → carried (server sent (get_request token (list_url api_url))) ≡ some (array xs)
      → found (get_camera_account_states upper server token api_url sent).0
        ≡ some (last_state (elements xs))
  unfolding get_camera_account_states account_states_of get
  get_camera_account_states_lem server token api_url sent xs h =
      rw (fetch_json_done server token (list_url api_url) sent (array xs) h)
        (ap (λ o. some o) (get-add_states xs_read [] ∙ none-before (last_state xs_read)))
    where
      xs_read : List Json
      xs_read = elements xs

      none-before : (o : Option CameraAccountStates) → or_before o (get id []) ≡ o
      none-before none = refl
      none-before (some s) = refl
