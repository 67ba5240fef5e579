-- ===== src/Rcp/Fetch/Drops.antt =====
-- What a read of a fetch does to the cached sessions, by the answer of the camera.
use bosch_shc_camera_client.Common.{
  ℕ, ◌≡◌, ◌≢◌, refl, ap, ◌⊎◌, inl, inr, ◌++◌, ◌∷◌, [], is_empty, All, Bool, true, false, none, some,
  map, arith, if◌then◌else◌,
}
use bosch_shc_camera_client.Common.Texts.{Text, Bytes, codes, lower, same_iff}
use bosch_shc_camera_client.Common.Splitting.{Without}
use bosch_shc_camera_client.Common.Dict.{text_key, get, get-pop, get-pop_self}
use bosch_shc_camera_client.Net.{World, Result, ok, raise, Fault}
use bosch_shc_camera_client.Rcp.Markup.{
  begins, greedy, after_prefix, match_here, search_tag, search_err, is_nonspace,
}
use bosch_shc_camera_client.Rcp.Wire.{Query, Reply, Caches, Camera, proxy_url}
use bosch_shc_camera_client.Rcp.Read.{read_query, rcp_read, drop_cached_session, is_session_closed}
use bosch_shc_camera_client.Rcp.Read.Cache.{is_dead, rcp_read-is_dead}
use bosch_shc_camera_client.Rcp.Fetch.Sessions.{proxy_hash_of-proxy_url}

-- The document of an error of the camera.
abbrev pub error_document : Bytes → Bytes
error_document code = codes "<rcp><err>" ++ (code ++ codes "</err></rcp>")

greedy-code :
    (code : Bytes)
    → is_empty code ≡ false
    → All (λ c. is_nonspace c ≡ true) code
    → greedy lower is_nonspace (codes "</err>") (code ++ codes "</err></rcp>") ≡ some code
unfolding greedy begins is_nonspace lower
greedy-code [] filled h = grind arith
greedy-code (c ∷ []) filled (h, hs) = rw (h) refl
greedy-code (c ∷ d ∷ code) filled (h, hs) = rw (h, greedy-code (d ∷ code) refl hs) refl

search_err-error_document :
    (code : Bytes)
    → is_empty code ≡ false
    → All (λ c. is_nonspace c ≡ true) code
    → search_err (error_document code) ≡ some code
unfolding search_err search_tag match_here after_prefix lower
search_err-error_document code filled h =
    ap
      (λ o. elim o [
        | some g ↦ some g
        | none ↦
            search_tag lower is_nonspace (codes "<err>") (codes "</err>")
              (codes "err>" ++ (code ++ codes "</err></rcp>"))
      ])
      (greedy-code code filled h)

-- Which answers tell that the session is dead (`true`), and which do not.
pub data Tells : Result Reply → Bool → Type 0 where
  refused : (r : Reply) → (r.status ≡ 401) ⊎ (r.status ≡ 403) → Tells (ok r) true
  closed :
      (r : Reply) (raw code : Bytes)
      → r.status ≡ 200
      → r.body ≡ ok raw
      → search_err raw ≡ some code
      → map lower code ≡ codes "0x0c0d"
      → Tells (ok r) true
  closed_document :
      (r : Reply) (code : Bytes)
      → r.status ≡ 200
      → r.body ≡ ok (error_document code)
      → map lower code ≡ codes "0x0c0d"
      → Tells (ok r) true
  unanswered : (e : Fault) → Tells (raise e) false
  other_status : (r : Reply) → r.status ≢ 200 → r.status ≢ 401 → r.status ≢ 403 → Tells (ok r) false
  unread : (r : Reply) (e : Fault) → r.status ≡ 200 → r.body ≡ raise e → Tells (ok r) false
  no_error :
      (r : Reply) (raw : Bytes)
      → r.status ≡ 200
      → r.body ≡ ok raw
      → search_err raw ≡ none
      → Tells (ok r) false
  error :
      (r : Reply) (raw code : Bytes)
      → r.status ≡ 200
      → r.body ≡ ok raw
      → search_err raw ≡ some code
      → map lower code ≢ codes "0x0c0d"
      → Tells (ok r) false

unspaced :
    (code key : Bytes)
    → map lower code ≡ key
    → All (λ c. is_nonspace c ≡ true) key
    → All (λ c. is_nonspace c ≡ true) code
unfolding is_nonspace lower
unspaced [] key e h = tt
unspaced (c ∷ code) [] e h = grind (arith, e)
unspaced (c ∷ code) (d ∷ key) e (h, hs) =
    let same_head : lower c ≡ d = grind (arith, e) in
    let same_tail : map lower code ≡ key = grind (arith, e) in
    (ground (arith, same_head, h), unspaced code key same_tail hs)

closed-is_dead :
    (r : Reply) (raw code : Bytes)
    → r.status ≡ 200
    → r.body ≡ ok raw
    → search_err raw ≡ some code
    → map lower code ≡ codes "0x0c0d"
    → is_dead (ok r) ≡ true
unfolding is_dead is_session_closed
closed-is_dead r raw code s b f c =
    ground (arith, s, b, f, c, same_iff (map lower code) (codes "0x0c0d"))

Tells-is_dead : {r : Result Reply} {b : Bool} → Tells r b → is_dead r ≡ b
unfolding is_dead is_session_closed is_nonspace
Tells-is_dead (refused r (inl e)) = ground (arith, e)
Tells-is_dead (refused r (inr e)) = ground (arith, e)
Tells-is_dead (closed r raw code s b f c) = closed-is_dead r raw code s b f c
Tells-is_dead (closed_document r [] s b c) = grind (arith, c)
Tells-is_dead (closed_document r (x ∷ code) s b c) =
    let shown =
      unspaced (x ∷ code) (codes "0x0c0d") c (refl, (refl, (refl, (refl, (refl, (refl, tt)))))) in
    closed-is_dead r (error_document (x ∷ code)) (x ∷ code) s b
      (search_err-error_document (x ∷ code) refl shown) c
Tells-is_dead (unanswered e) = refl
Tells-is_dead (other_status r a b c) = ground (arith, a, b, c)
Tells-is_dead (unread r e s b) = ground (arith, s, b)
Tells-is_dead (no_error r raw s b f) = ground (arith, s, b, f)
Tells-is_dead (error r raw code s b f c) =
    ground (arith, s, b, f, c, same_iff (map lower code) (codes "0x0c0d"))

-- The session of the hash is gone if it was told dead, and nothing else has changed.
abbrev pub Dropped : Bool → Text → Caches → Caches → Type 0
Dropped false hash c c' = c' ≡ c
Dropped true hash c c' =
    (get hash c'.sessions ≡ none)
    × ((j : Text) → hash ≢ j → get j c'.sessions ≡ get j c.sessions)
    × (c'.failures ≡ c.failures)

dropped :
    (b : Bool) (host hash : Text) (c : Caches)
    → Without b'/' hash
    → Dropped b hash c (if b then drop_cached_session true (proxy_url host hash) c else c)
unfolding drop_cached_session
dropped false host hash c plain = refl
dropped true host hash c plain =
    rw (proxy_hash_of-proxy_url host hash plain, drop_cached_session)
      (
        get-pop_self hash c.sessions,
        λ j n. ground (arith, get-pop hash j c.sessions, same_iff hash j),
        refl,
      )

-- Let the proxy hash hold no slash. If a read is answered with status 401 or 403, or with status 200 and
-- a body whose first error is 0x0c0d in any case of its letters, as in the document
-- <rcp><err>0x0c0d</err></rcp>, then the cache has no session for the hash afterwards, and the sessions of other hashes and the counts of failures are as they were. If it
-- gets no answer, or another one, then both dictionaries are as they were.
pub rcp_read-drops :
    (camera : Camera) (host hash command session_id type : Text) (num : ℕ) (w : World Query Caches)
    (dead : Bool)
    → Without b'/' hash
    → Tells (camera w.sent (read_query (proxy_url host hash) command session_id type num)) dead
    → Dropped dead hash w.store
        (rcp_read camera true (proxy_url host hash) command session_id type num w).1.store
rcp_read-drops camera host hash command session_id type num w dead plain told =
    let read = rcp_read-is_dead camera true (proxy_url host hash) command session_id type num w in
    rw (read, Tells-is_dead told) (dropped dead host hash w.store plain)
