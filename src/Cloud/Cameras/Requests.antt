-- ===== src/Cloud/Cameras/Requests.antt =====
-- cameras.py: where the download of an event's image sends the token.
use bosch_shc_camera_client.Common.{
  Bool, true, false, not, ◌&&◌, List, [], ◌∷◌, Option, none, some, ◌≡◌, refl, ◌⊎◌, inl, inr, ◌==◌,
  if◌then◌else◌, arith, All, All-append,
}
use bosch_shc_camera_client.Common.Texts.{Text, Bytes, codes, same, same_eq, contains}
use bosch_shc_camera_client.Cloud.Json.{
  Json, array, null, bool, int, real, string, object, elements,
}
use bosch_shc_camera_client.Cloud.Wire.{
  Request, Answer, Server, Call, pure, fail, relabel, as_connection, as_invalid, invalid_response,
  value_of, auth_error, connection_error, is_rejected, request,
}
use bosch_shc_camera_client.Cloud.Wire.Rules.{
  Sends, Sends-bind, Sends-pure, Sends-fail, Sends-if, Sends-relabel, Sends-request, Sends-value_of,
}
use bosch_shc_camera_client.Cloud.Cameras.{
  Parsed, is_downloadable, is_safe_bosch_url, is_safe_host, image_request, download_image,
  usable_url, image_url_of, events_request, events_of, visit, first_image, images_of, event_list,
  get_latest_event_image,
}

-- HTTPS, to a host in a Bosch domain, and no user info.
abbrev pub IsBosch : Option Parsed → Type 0
IsBosch none = ⊥
IsBosch (some u) =
    (u.scheme ≡ codes "https")
    × (is_safe_host u.hostname ≡ true)
    × (contains u.netloc (codes "@") ≡ false)

both : (a b c : Bool) → (a && b) && not c ≡ true → (a ≡ true) × (b ≡ true) × (c ≡ false)
both true true false h = (refl, refl, refl)
both true true true h = grind arith
both true false c h = grind arith
both false b c h = grind arith

downloadable-IsBosch : (o : Option Parsed) → is_downloadable o ≡ true → IsBosch o
unfolding is_downloadable is_safe_bosch_url
downloadable-IsBosch none h = grind arith
downloadable-IsBosch (some u) h =
    let parts =
      both (same u.scheme (codes "https")) (is_safe_host u.hostname) (contains u.netloc (codes "@"))
        h in
    (same_eq u.scheme (codes "https") parts.0, parts.1, parts.2)

-- A request that is not redirected, to a URL that may be downloaded.
abbrev pub IsSafe : (Text → Option Parsed) → Request → Type 0
IsSafe urlparse q = (q.allow_redirects ≡ false) × IsBosch (urlparse q.url)

downloadable_if :
    (urlparse : Text → Option Parsed) (b : Bool) (u url : Text)
    → is_downloadable (urlparse u) ≡ b
    → (if b then some u else none) ≡ some url
    → is_downloadable (urlparse url) ≡ true
downloadable_if urlparse true u url h e = grind arith
downloadable_if urlparse false u url h e = grind arith

usable_url-downloadable :
    (urlparse : Text → Option Parsed) (event : Json) (url : Text)
    → usable_url urlparse event ≡ some url
    → is_downloadable (urlparse url) ≡ true
unfolding usable_url
usable_url-downloadable urlparse event url = cases (image_url_of event)
  where
    cases :
        (o : Option Text)
        → (elim o [ none ↦ none | some u ↦ if is_downloadable (urlparse u) then some u else none ])
          ≡ some url
        → is_downloadable (urlparse url) ≡ true
    cases none h = grind arith
    cases (some u) h = downloadable_if urlparse (is_downloadable (urlparse u)) u url refl h

-- The request for the event list, or a safe one.
abbrev pub IsExpected : (Text → Option Parsed) → Request → Request → Type 0
IsExpected urlparse list q = (q ≡ list) ⊎ IsSafe urlparse q

module _ (urlparse : Text → Option Parsed) (server : Server) (token : Text) (list : Request) where
  visit-Sends :
      (o : Option Text) (rest : Call (Option Bytes))
      → ((url : Text) → o ≡ some url → is_downloadable (urlparse url) ≡ true)
      → Sends (IsExpected urlparse list) rest
      → Sends (IsExpected urlparse list) (visit urlparse server token o rest)
  unfolding visit
  visit-Sends none rest k h = h
  visit-Sends (some url) rest k h =
      Sends-bind (download_image server token url)
        (λ image. elim image [ none ↦ rest | some bytes ↦ pure (some bytes) ]) download last
    where
      safe : IsExpected urlparse list (image_request token url)
      safe = inr (refl, downloadable-IsBosch (urlparse url) (k url refl))

      download : Sends (IsExpected urlparse list) (download_image server token url)
      download = record {
        at = λ sent hs.
            All-append (IsExpected urlparse list) sent (image_request token url ∷ []) hs (safe, tt);
      }

      last :
          (image : Option Bytes)
          → Sends (IsExpected urlparse list) (elim image as (λ _. Call (Option Bytes)) [
            | none ↦ rest
            | some bytes ↦ pure (some bytes)
          ])
      last none = h
      last (some bytes) = Sends-pure (some bytes)

  first_image-Sends :
      (events : List Json)
      → Sends (IsExpected urlparse list) (first_image urlparse server token events)
  unfolding first_image
  first_image-Sends [] = Sends-pure none
  first_image-Sends (event ∷ events) =
      visit-Sends (usable_url urlparse event) (first_image urlparse server token events)
        (usable_url-downloadable urlparse event) (first_image-Sends events)

  images_of-Sends :
      (payload : Json) → Sends (IsExpected urlparse list) (images_of urlparse server token payload)
  unfolding images_of
  images_of-Sends (array xs) = first_image-Sends (elements xs)
  images_of-Sends null = Sends-fail invalid_response
  images_of-Sends (bool b) = Sends-fail invalid_response
  images_of-Sends (int n) = Sends-fail invalid_response
  images_of-Sends (real x) = Sends-fail invalid_response
  images_of-Sends (string s) = Sends-fail invalid_response
  images_of-Sends (object fs) = Sends-fail invalid_response

  events_of-Sends : (resp : Answer) → Sends (IsExpected urlparse list) (events_of resp)
  unfolding events_of
  events_of-Sends resp =
      Sends-if (is_rejected resp.status) (fail (auth_error none none))
        (if resp.status == 200 then value_of resp.json else fail (connection_error none none))
        (Sends-fail (auth_error none none))
        (Sends-if (resp.status == 200) (value_of resp.json) (fail (connection_error none none))
          (Sends-value_of resp.json) (Sends-fail (connection_error none none)))

module _ (urlparse : Text → Option Parsed) (server : Server) (token api_url camera_id : Text) where
  abbrev list_request : Request
  list_request = events_request api_url token camera_id

  list-Sends :
      Sends (IsExpected urlparse list_request) (event_list urlparse server token api_url camera_id)
  unfolding event_list
  list-Sends =
      Sends-bind (request server list_request) events_of
        (Sends-request server list_request (inl refl))
        (events_of-Sends urlparse server token list_request)

  -- Each request that carries the token goes to the event list of the API, or is one whose URL
  -- is HTTPS, of a Bosch domain and without user info, and that follows no redirect.
  pub get_latest_event_image-IsSafe :
      All
        (λ q. (q ≡ events_request api_url token camera_id) ⊎ IsSafe urlparse q)
        (get_latest_event_image urlparse server token api_url camera_id []).1
  unfolding get_latest_event_image
  get_latest_event_image-IsSafe =
      (Sends-bind
          (relabel as_invalid
            (relabel as_connection (event_list urlparse server token api_url camera_id)))
          (images_of urlparse server token)
          (Sends-relabel as_invalid
            (relabel as_connection (event_list urlparse server token api_url camera_id))
            (Sends-relabel as_connection (event_list urlparse server token api_url camera_id)
              list-Sends))
          (images_of-Sends urlparse server token list_request)).at
        [] tt
