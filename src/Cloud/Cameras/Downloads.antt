-- ===== src/Cloud/Cameras/Downloads.antt =====
-- cameras.py: how large the image of an event is.
use bosch_shc_camera_client.Common.{
  ◌≤◌, Bool, true, false, List, [], ◌∷◌, ◌++◌, Option, none, some, ◌≡◌, refl, ltb, ◌==◌,
  if◌then◌else◌, arith, length, is_empty,
}
use bosch_shc_camera_client.Common.Texts.{Text, Bytes}
use bosch_shc_camera_client.Net.{Fault, Result, ok, raise, is_network_or_value}
use bosch_shc_camera_client.Cloud.Json.{
  Json, array, null, bool, int, real, string, object, elements,
}
use bosch_shc_camera_client.Cloud.Wire.{
  Answer, Server, Call, pure, relabel, as_connection, as_invalid, invalid_response,
}
use bosch_shc_camera_client.Cloud.Wire.Rules.{
  Gives, Returns, Returns-bind, Returns-pure, Returns-fail, Returns-any,
}
use bosch_shc_camera_client.Cloud.Cameras.{
  Parsed, outcome_of, max_image_bytes, gather, image_of, image_request, download_image, usable_url,
  visit, first_image, images_of, event_list, get_latest_event_image,
}

-- No image, or one that is not empty and not too large.
abbrev pub IsImage : Option Bytes → Type 0
IsImage none = Unit
IsImage (some image) = (1 ≤ length image) × (length image ≤ max_image_bytes)

abbrev Fetched : Result (Option Bytes) → Type 0
Fetched (ok image) = IsImage image
Fetched (raise e) = Unit

Fetched-if :
    (b : Bool) (r s : Result (Option Bytes))
    → (b ≡ true → Fetched r)
    → (b ≡ false → Fetched s)
    → Fetched (if b then r else s)
Fetched-if true r s h k = h refl
Fetched-if false r s h k = k refl

IsImage-end :
    (image : Bytes)
    → length image ≤ max_image_bytes
    → IsImage (if is_empty image then none else some image)
IsImage-end [] h = tt
IsImage-end (c ∷ image) h = (omega arith, h)

gather-Fetched :
    (image : Bytes) (chunks : List Bytes) (ending : Option Fault)
    → length image ≤ max_image_bytes
    → Fetched (gather image chunks ending)
unfolding gather
gather-Fetched image [] none h = IsImage-end image h
gather-Fetched image [] (some e) h =
    Fetched-if (is_network_or_value e) (ok none) (raise e) (λ _. tt) (λ _. tt)
gather-Fetched image (chunk ∷ chunks) ending h =
    Fetched-if (ltb max_image_bytes (length (image ++ chunk))) (ok none)
      (gather (image ++ chunk) chunks ending) (λ _. tt)
      (λ small. gather-Fetched (image ++ chunk) chunks ending (ground (arith, small)))

image_of-Fetched : (r : Result Answer) → Fetched (image_of r)
unfolding image_of
image_of-Fetched (raise e) =
    Fetched-if (is_network_or_value e) (ok none) (raise e) (λ _. tt) (λ _. tt)
image_of-Fetched (ok resp) =
    Fetched-if (resp.status == 200) (gather [] resp.chunks resp.ending) (ok none)
      (λ _. gather-Fetched [] resp.chunks resp.ending (omega arith)) (λ _. tt)

Fetched→Gives : (r : Result (Option Bytes)) → Fetched r → Gives IsImage (outcome_of r)
Fetched→Gives (ok image) h = h
Fetched→Gives (raise e) h = tt

module _ (urlparse : Text → Option Parsed) (server : Server) (token : Text) where
  download_image-Returns : (url : Text) → Returns IsImage (download_image server token url)
  unfolding download_image
  download_image-Returns url = record {
    at = λ sent.
        Fetched→Gives (image_of (server sent (image_request token url)))
          (image_of-Fetched (server sent (image_request token url)));
  }

  visit-Returns :
      (o : Option Text) (rest : Call (Option Bytes))
      → Returns IsImage rest
      → Returns IsImage (visit urlparse server token o rest)
  unfolding visit
  visit-Returns none rest h = h
  visit-Returns (some url) rest h =
      Returns-bind (download_image server token url)
        (λ image. elim image [ none ↦ rest | some bytes ↦ pure (some bytes) ])
        (download_image-Returns url) last
    where
      last :
          (image : Option Bytes)
          → IsImage image
          → Returns IsImage (elim image as (λ _. Call (Option Bytes)) [
            | none ↦ rest
            | some bytes ↦ pure (some bytes)
          ])
      last none _ = h
      last (some bytes) k = Returns-pure (some bytes) k

  first_image-Returns :
      (events : List Json) → Returns IsImage (first_image urlparse server token events)
  unfolding first_image
  first_image-Returns [] = Returns-pure none tt
  first_image-Returns (event ∷ events) =
      visit-Returns (usable_url urlparse event) (first_image urlparse server token events)
        (first_image-Returns events)

  images_of-Returns : (payload : Json) → Returns IsImage (images_of urlparse server token payload)
  unfolding images_of
  images_of-Returns (array xs) = first_image-Returns (elements xs)
  images_of-Returns null = Returns-fail invalid_response
  images_of-Returns (bool b) = Returns-fail invalid_response
  images_of-Returns (int n) = Returns-fail invalid_response
  images_of-Returns (real x) = Returns-fail invalid_response
  images_of-Returns (string s) = Returns-fail invalid_response
  images_of-Returns (object fs) = Returns-fail invalid_response

  -- An image that is returned has at least one byte and at most ten mebibytes, whatever the server sends.
  pub get_latest_event_image-IsImage :
      (api_url camera_id : Text)
      → Returns IsImage (get_latest_event_image urlparse server token api_url camera_id)
  unfolding get_latest_event_image
  get_latest_event_image-IsImage api_url camera_id =
      Returns-bind
        (relabel as_invalid
          (relabel as_connection (event_list urlparse server token api_url camera_id)))
        (images_of urlparse server token)
        (Returns-any (
          relabel as_invalid
            (relabel as_connection (event_list urlparse server token api_url camera_id))))
        (λ payload _. images_of-Returns payload)
