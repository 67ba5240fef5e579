-- ===== src/Cloud/Settings/Storing.antt =====
-- settings.py: writes and reads of a setting as an update and a lookup of the object that the cloud holds.
use bosch_shc_camera_client.Common.{
  Bool, true, false, List, [], ◌∷◌, ◌++◌, Option, none, some, String, ◌≡◌, refl, ap, ◌∙◌, is_empty,
  any, arith,
}
use bosch_shc_camera_client.Common.Texts.{Text, same, same_refl}
use bosch_shc_camera_client.Common.Dict.{string_key, Dict, update}
use bosch_shc_camera_client.Net.{ok, timed_out, client_error, value_error, other_error}
use bosch_shc_camera_client.Cloud.Json.{Json, Fields, object, entries, fields_of, entries-fields_of}
use bosch_shc_camera_client.Cloud.Wire.{
  put_method, json_body, Method, Payload, Request, Reading, read, broken, expired, Answer, Server,
  done, get_request,
}
use bosch_shc_camera_client.Cloud.Wire.Fetch.{carried}
use bosch_shc_camera_client.Cloud.Actions.{is_ok_status, video_input_url}
use bosch_shc_camera_client.Cloud.Settings.{
  SettingWriteResult, send_request, parsed_of, written, send, is_unfit, get_setting, put_merged,
  merge_put,
}
use bosch_shc_camera_client.Cloud.Settings.Merging.{
  read_request, write_request, get_setting-done, send-sent,
}

-- The object that the cloud holds at the URL after a request: a PUT replaces it.
abbrev pub replaced : Payload → Fields → Fields
replaced (json_body (object gs)) fs = gs
replaced body fs = fs

abbrev pub after_put : Method → Bool → Payload → Fields → Fields
after_put put_method true body fs = replaced body fs
after_put method here body fs = fs

-- The object after the requests in turn.
unfoldable pub held : Text → Fields → List Request → Fields
unfolding same
held url fs [] = fs
held url fs (q ∷ qs) = held url (after_put q.method (same q.url url) q.body fs) qs

held-append :
    (url : Text) (fs : Fields) (qs rs : List Request)
    → held url fs (qs ++ rs) ≡ held url (held url fs qs) rs
unfolding held
held-append url fs [] rs = refl
held-append url fs (q ∷ qs) rs =
    held-append url (after_put q.method (same q.url url) q.body fs) qs rs

-- A body that is JSON or is not, but can be read.
abbrev pub is_received : Reading Json → Bool
is_received (read j) = true
is_received (broken value_error) = true
is_received r = false

-- The cloud accepts a write.
abbrev pub Accepts : Server → List Request → Request → Type 0
Accepts server sent q =
    (a : Answer) × (server sent q ≡ ok a)
    × (is_ok_status a.status ≡ true)
    × (is_received a.json ≡ true)

-- The cloud holds an object at the URL, at first this one: it answers a GET with the object that it
-- holds, and accepts a PUT.
pub record IsStore (server : Server) (token url : Text) (first : Fields) : Type 0 where
  pub reads :
      (sent : List Request)
      → carried (server sent (get_request token url)) ≡ some (object (held url first sent))
  pub writes :
      (sent : List Request) (d : Dict String Json)
      → Accepts server sent (send_request token put_method url (json_body (object (fields_of d))))

parsed_of-done :
    (r : Reading Json) (sent : List Request)
    → is_received r ≡ true
    → (p : Option (Dict String Json)) × (parsed_of r sent ≡ (done p, sent))
unfolding parsed_of
parsed_of-done (read j) sent h = (_, refl)
parsed_of-done (broken value_error) sent h = (none, refl)
parsed_of-done (broken timed_out) sent h = grind arith
parsed_of-done (broken client_error) sent h = grind arith
parsed_of-done (broken other_error) sent h = grind arith
parsed_of-done expired sent h = grind arith

-- A write that the cloud accepts returns the status of the answer and what was sent.
send-done :
    (server : Server) (token url : Text) (body : Payload) (sent : List Request)
    → Accepts server sent (send_request token put_method url body)
    → (r : SettingWriteResult) × ((send server token put_method url body sent).0 ≡ done r)
      × (r.sent ≡ body)
      × (is_ok_status r.status ≡ true)
unfolding send written
send-done server token url body sent (a, answered, accepted, received) =
    let q = send_request token put_method url body in
    let (p, parsed) = parsed_of-done a.json (sent ++ q ∷ []) received in
    (
      record { status = a.status; response = p; sent = body },
      rw (answered, accepted, parsed) refl,
      refl,
      accepted,
    )

put_merged-send :
    (server : Server) (token api_url cam_id endpoint : Text) (current changes : Dict String Json)
    (sent : List Request)
    → is_empty current ≡ false
    → put_merged server token api_url cam_id endpoint current changes sent
      ≡ send server token put_method
          (video_input_url api_url cam_id endpoint)
          (json_body (object (fields_of (update current changes))))
          sent
unfolding put_merged
put_merged-send server token api_url cam_id endpoint [] changes sent h = grind arith
put_merged-send server token api_url cam_id endpoint (entry ∷ current) changes sent h = refl

module _ (server : Server) (token api_url cam_id endpoint : Text) (first : Fields)
    (store : IsStore server token (video_input_url api_url cam_id endpoint) first) where
  abbrev pub object_at : List Request → Dict String Json
  object_at sent = entries (held (video_input_url api_url cam_id endpoint) first sent)

  held-read :
      (sent : List Request)
      → object_at (sent ++ read_request server token api_url cam_id endpoint ∷ []) ≡ object_at sent
  unfolding get_request held
  held-read sent = ap entries (
      held-append (video_input_url api_url cam_id endpoint) first sent
        (read_request server token api_url cam_id endpoint ∷ []))

  held-write :
      (sent : List Request) (d : Dict String Json)
      → object_at (sent ++ write_request server token api_url cam_id endpoint d ∷ []) ≡ d
  unfolding send_request held
  held-write sent d =
      ap entries (
        held-append (video_input_url api_url cam_id endpoint) first sent
          (write_request server token api_url cam_id endpoint d ∷ [])
        ∙ rw (same_refl (video_input_url api_url cam_id endpoint)) refl)
      ∙ entries-fields_of d

  pub get_setting-held :
      (sent : List Request)
      → get_setting server token api_url cam_id endpoint sent
        ≡ (done (object_at sent), sent ++ read_request server token api_url cam_id endpoint ∷ [])
  get_setting-held sent =
      get_setting-done server token api_url cam_id endpoint
        (held (video_input_url api_url cam_id endpoint) first sent) sent (store.reads sent)

  merge_put-send :
      (changes : Dict String Json) (sent : List Request)
      → any is_unfit changes ≡ false
      → is_empty (object_at sent) ≡ false
      → merge_put server token api_url cam_id endpoint changes sent
        ≡ send server token put_method
            (video_input_url api_url cam_id endpoint)
            (json_body (object (fields_of (update (object_at sent) changes))))
            (sent ++ read_request server token api_url cam_id endpoint ∷ [])
  unfolding merge_put
  merge_put-send changes sent fit nonempty =
      rw (fit, get_setting-held sent)
        (put_merged-send server token api_url cam_id endpoint (object_at sent) changes
          (sent ++ read_request server token api_url cam_id endpoint ∷ []) nonempty)

  -- Where the cloud holds an object that is not empty at the endpoint's URL, and for changes with finite
  -- values: a read returns this object and leaves it as it was; a merge of the changes returns the
  -- status of an accepted write, and the cloud then holds the object updated by the changes.
  pub merge_put-update :
      (changes : Dict String Json) (sent : List Request)
      → any is_unfit changes ≡ false
      → is_empty (object_at sent) ≡ false
      → let reading = get_setting server token api_url cam_id endpoint sent in
        let merging = merge_put server token api_url cam_id endpoint changes sent in
        (reading.0 ≡ done (object_at sent))
        × (object_at reading.1 ≡ object_at sent)
        × ((r : SettingWriteResult) × (merging.0 ≡ done r) × (is_ok_status r.status ≡ true))
        × (object_at merging.1 ≡ update (object_at sent) changes)
  merge_put-update changes sent fit nonempty =
      let log = sent ++ read_request server token api_url cam_id endpoint ∷ [] in
      let d = update (object_at sent) changes in
      let (r, returned, _, accepted) =
        send-done server token (video_input_url api_url cam_id endpoint)
          (json_body (object (fields_of d))) log (store.writes log d) in
      (
        ap (λ x. x.0) (get_setting-held sent),
        ap (λ x. object_at x.1) (get_setting-held sent) ∙ held-read sent,
        (r, ap (λ x. x.0) (merge_put-send changes sent fit nonempty) ∙ returned, accepted),
        ap (λ x. object_at x.1) (merge_put-send changes sent fit nonempty)
            ∙ ap object_at (
                send-sent server token put_method (video_input_url api_url cam_id endpoint)
                  (json_body (object (fields_of d))) log)
            ∙ held-write log d,
      )
