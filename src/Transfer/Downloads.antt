-- ===== src/Transfer/Downloads.antt =====
-- media_transfer.py: what a download leaves in its file.
use bosch_shc_camera_client.Common.{
  ◌≡◌, refl, sym, ap, ◌∙◌, true, not, List, [], ◌∷◌, ◌++◌, none, some, map, is_empty, all, arith,
}
use mathlib.Core.List.{append_assoc}
use bosch_shc_camera_client.Common.Texts.{Text, Bytes}
use bosch_shc_camera_client.Transfer.{
  Attempt, done, Download, Opened, after_chunk, bearer_request, copy, sync_http_get_to_file,
}

unfoldable pub concat : List Bytes → Bytes
concat [] = []
concat (c ∷ cs) = c ++ concat cs

module _ {ℓ} {E : Type ℓ} where
  copy-chunks :
      (chunks : List Bytes) (rest : List (Attempt E Bytes))
      → all (λ c. not (is_empty c)) chunks ≡ true
      → copy (map done chunks ++ rest) ≡ (concat chunks ++ (copy rest).0, (copy rest).1)
  unfolding copy concat
  copy-chunks [] rest h = refl
  copy-chunks ([] ∷ chunks) rest h = grind arith
  copy-chunks ((b ∷ bs) ∷ chunks) rest h =
      ap (after_chunk (b ∷ bs)) (copy-chunks chunks rest h)
      ∙ ap (λ w. (w, (copy rest).1)) (sym (append_assoc (b ∷ bs) (concat chunks) (copy rest).0))

  module _ (network : Download → Attempt E (Opened E)) (url token : Text) (whole : Attempt E Bytes)
      (chunks : List Bytes) (nonempty : all (λ c. not (is_empty c)) chunks ≡ true)
      (rest : List (Attempt E Bytes))
      (answer : network (bearer_request url token)
        ≡ done (record { status = 200; reads = map done chunks ++ rest; whole = whole })) where
    -- A download whose answer has status 200, and whose file can be opened, writes to it what is read
    -- before the end of the answer or an exception, in order.
    pub sync_http_get_to_file-writes :
        sync_http_get_to_file network url token none
        ≡ ((copy rest).1, some (concat chunks ++ (copy rest).0))
    unfolding sync_http_get_to_file
    sync_http_get_to_file-writes =
        rw (sync_http_get_to_file, answer)
          (ap (λ r. (r.1, some r.0)) (copy-chunks chunks rest nonempty))
