-- ===== src/Cloud/Cameras/Accounts.antt =====
-- cameras.py: the account of a token, and the list of cameras.
use bosch_shc_camera_client.Common.{
  ◌≤◌, Bool, true, false, ◌||◌, List, [], ◌∷◌, ◌++◌, Option, none, some, String, ◌≡◌, refl, ltb,
  if◌then◌else◌, arith, is_empty, length, All,
}
use bosch_shc_camera_client.Common.Texts.{Text, split, strip}
use bosch_shc_camera_client.Common.Splitting.{Without, split-Without, split-append}
use bosch_shc_camera_client.Common.Dict.{string_key, Dict, get}
use bosch_shc_camera_client.Rcp.Parse.Catalogs.{is_space}
use bosch_shc_camera_client.Cloud.Json.{
  Json, Items, Fields, null, bool, int, real, string, array, object, elements, entries, item,
  text_of,
}
use bosch_shc_camera_client.Cloud.Json.Filled.{IsFilled, text_of-IsFilled}
use bosch_shc_camera_client.Cloud.Wire.{
  Request, Server, auth_error, Outcome, done, failed, get_request,
}
use bosch_shc_camera_client.Cloud.Wire.Rules.{FailsWith, Gives}
use bosch_shc_camera_client.Cloud.Wire.Each.{each-All}
use bosch_shc_camera_client.Cloud.Wire.Fetch.{carried, fetch_json_done}
use bosch_shc_camera_client.Cloud.Cameras.{
  Camera, or_else, camera_of, camera_if, account_in, parse_camera, cameras_of, list_url,
  list_cameras, usable_account, claimed, account_of_parts, account_id_from_token,
}

-- An account identifier that is not blank and not too long.
abbrev pub IsAccount : Text → Type 0
IsAccount s = (is_empty (strip is_space s) ≡ false) × (length s ≤ 128)

abbrev Judged : Outcome Text → Type 0
Judged r = Gives IsAccount r × FailsWith (λ e. e ≡ auth_error none none) r

usable_if :
    (s : Text) (b : Bool)
    → (is_empty (strip is_space s) || ltb 128 (length s)) ≡ b
    → Judged (if b then failed (auth_error none none) else done s)
usable_if s true h = (tt, refl)
usable_if s false h = ((ground (arith, h), ground (arith, h)), tt)

usable_account-Judged : (v : Json) → Judged (usable_account v)
usable_account-Judged (string s) =
    usable_if s (is_empty (strip is_space s) || ltb 128 (length s)) refl
usable_account-Judged null = (tt, refl)
usable_account-Judged (bool b) = (tt, refl)
usable_account-Judged (int n) = (tt, refl)
usable_account-Judged (real x) = (tt, refl)
usable_account-Judged (array xs) = (tt, refl)
usable_account-Judged (object fs) = (tt, refl)

account_in-Judged : (o : Option Json) → Judged (account_in o)
account_in-Judged none = (tt, refl)
account_in-Judged (some v) = usable_account-Judged v

claimed-Judged : (o : Option Json) → Judged (claimed o)
claimed-Judged none = (tt, refl)
claimed-Judged (some (object fs)) = account_in-Judged (get "sub" (entries fs))
claimed-Judged (some null) = (tt, refl)
claimed-Judged (some (bool b)) = (tt, refl)
claimed-Judged (some (int n)) = (tt, refl)
claimed-Judged (some (real x)) = (tt, refl)
claimed-Judged (some (string s)) = (tt, refl)
claimed-Judged (some (array xs)) = (tt, refl)

parts-Judged :
    (decode : Text → Option Json) (parts : List Text) → Judged (account_of_parts decode parts)
unfolding account_of_parts
parts-Judged decode [] = (tt, refl)
parts-Judged decode (header ∷ []) = (tt, refl)
parts-Judged decode (header ∷ payload ∷ []) = (tt, refl)
parts-Judged decode (header ∷ payload ∷ signature ∷ []) = claimed-Judged (decode payload)
parts-Judged decode (header ∷ payload ∷ signature ∷ more ∷ parts) = (tt, refl)

-- The account identifier of a token is not blank and has at most 128 characters; a token without one
-- is an authentication error, and no other error comes.
pub account_id_from_token-IsAccount :
    (decode : Text → Option Json) (token : Text)
    → Gives IsAccount (account_id_from_token decode token)
      × FailsWith (λ e. e ≡ auth_error none none) (account_id_from_token decode token)
unfolding account_id_from_token
account_id_from_token-IsAccount decode token = parts-Judged decode (split b'.' token)

three_parts :
    (header payload signature : Text)
    → Without b'.' header
    → Without b'.' payload
    → Without b'.' signature
    → split b'.' (header ++ b'.' ∷ payload ++ b'.' ∷ signature) ≡ header ∷ payload ∷ signature ∷ []
three_parts header payload signature hh hp hs =
    rw
      (
        split-append b'.' (header ++ b'.' ∷ payload) signature,
        split-append b'.' header payload,
        split-Without b'.' header hh,
        split-Without b'.' payload hp,
        split-Without b'.' signature hs,
      )
      refl

usable_done : (s : Text) → IsAccount s → usable_account (string s) ≡ done s
usable_done s (h, k) = ground (arith, h)

-- A token of three parts whose middle one decodes to an object with a usable `sub` has that account.
pub account_id_from_token_join :
    (decode : Text → Option Json) (header payload signature : Text) (fs : Fields) (s : Text)
    → Without b'.' header
    → Without b'.' payload
    → Without b'.' signature
    → decode payload ≡ some (object fs)
    → get "sub" (entries fs) ≡ some (string s)
    → IsAccount s
    → account_id_from_token decode (header ++ b'.' ∷ payload ++ b'.' ∷ signature) ≡ done s
unfolding account_id_from_token account_of_parts
account_id_from_token_join decode header payload signature fs s hh hp hs decoded sub usable =
    rw (three_parts header payload signature hh hp hs, decoded, sub) (usable_done s usable)

-- A camera with an id and a title.
abbrev pub IsNamed : Camera → Type 0
IsNamed c = (1 ≤ length c.id) × (1 ≤ length c.title)

title_filled :
    (id : Text) (title : Option Text)
    → 1 ≤ length id
    → IsFilled title
    → 1 ≤ length (or_else id title)
title_filled id none h k = h
title_filled id (some t) h k = k

camera_if-IsNamed :
    (o : Option Text) (d : Dict String Json) → IsFilled o → Gives IsNamed (camera_if o d)
unfolding camera_if camera_of
camera_if-IsNamed none d h = tt
camera_if-IsNamed (some id) d h =
    (h, title_filled id (text_of (item "title" d)) h (text_of-IsFilled (item "title" d)))

parse_camera-IsNamed : (v : Json) → Gives IsNamed (parse_camera v)
unfolding parse_camera
parse_camera-IsNamed (object fs) =
    camera_if-IsNamed (text_of (item "id" (entries fs))) (entries fs)
      (text_of-IsFilled (item "id" (entries fs)))
parse_camera-IsNamed null = tt
parse_camera-IsNamed (bool b) = tt
parse_camera-IsNamed (int n) = tt
parse_camera-IsNamed (real x) = tt
parse_camera-IsNamed (string s) = tt
parse_camera-IsNamed (array xs) = tt

-- When the cloud answers the camera list with status 200 and an array, a list that is returned has one
-- camera for each entry, and each has an id and a title that are not empty.
pub list_cameras-IsNamed :
    (server : Server) (token api_url : Text) (sent : List Request) (xs : Items)
    → carried (server sent (get_request token (list_url api_url))) ≡ some (array xs)
    → Gives
        (λ cameras. All IsNamed cameras × (length cameras ≡ length (elements xs)))
        (list_cameras server token api_url sent).0
unfolding list_cameras cameras_of
list_cameras-IsNamed server token api_url sent xs h =
    rw (fetch_json_done server token (list_url api_url) sent (array xs) h)
      (each-All IsNamed parse_camera (elements xs) parse_camera-IsNamed)
