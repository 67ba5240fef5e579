-- ===== src/Rcp/Fetch/Sessions.antt =====
-- What a fetch does to the cached sessions.
use mathlib.Core.List.{reverse, reverse-append, append_assoc}
use bosch_shc_camera_client.Common.{
  ℕ, ◌≡◌, ◌≢◌, refl, ap, ◌∙◌, Bool, true, false, List, [], ◌∷◌, ◌++◌, Option, none, some, String,
  arith, if◌then◌else◌, ◌==◌,
}
use bosch_shc_camera_client.Common.Texts.{Text, codes, same, same_iff, split, rstrip}
use bosch_shc_camera_client.Common.Splitting.{Without, split-append, split-Without, rstrip-append}
use bosch_shc_camera_client.Common.Dict.{text_key, get, pop, get-put, get-pop}
use bosch_shc_camera_client.Net.{World}
use bosch_shc_camera_client.Rcp.Wire.{Caches, Query, proxy_url}
use bosch_shc_camera_client.Rcp.Session.Invariant.{
  Stable, AllUsable, AllUsable-pop, AllUsable-Stable,
}
use bosch_shc_camera_client.Rcp.Read.{proxy_hash_of, drop_cached_session, last_but_one}
use bosch_shc_camera_client.Rcp.Fetch.{Platform, mark_fail, mark_ok, fetch_rcp_camera_data}
use bosch_shc_camera_client.Rcp.Fetch.Stable.{PollStable}
use bosch_shc_camera_client.Rcp.Fetch.Invariant.{fetch-Keeps}

-- The segments of a base URL: whatever the host has, the hash, and rcp.xml.
url_segments :
    (host hash : Text)
    → Without b'/' hash
    → split b'/' (proxy_url host hash)
      ≡ (split b'/' (codes "https://" ++ host) ++ hash ∷ []) ++ codes "rcp.xml" ∷ []
unfolding proxy_url split
url_segments host hash h =
    split-append b'/' (codes "https://" ++ host ++ codes "/" ++ hash) (codes "rcp.xml")
    ∙ ap (λ s. s ++ codes "rcp.xml" ∷ [])
        (ap (split b'/') (append_assoc (codes "https://" ++ host) (codes "/") hash)
          ∙ split-append b'/' (codes "https://" ++ host) hash
          ∙ ap (λ s. split b'/' (codes "https://" ++ host) ++ s) (split-Without b'/' hash h))

rstrip-proxy_url :
    (host hash : Text) → rstrip (λ c. c == b'/') (proxy_url host hash) ≡ proxy_url host hash
unfolding proxy_url rstrip
rstrip-proxy_url host hash =
    rstrip-append (λ c. c == b'/') (codes "https://" ++ host ++ codes "/" ++ hash) b'/'
      (codes "rcp.xml") refl

last_two :
    (ws : List Text) (hash : Text)
    → last_but_one (reverse ((ws ++ hash ∷ []) ++ codes "rcp.xml" ∷ [])) ≡ some hash
unfolding same
last_two ws hash =
    rw (reverse-append (ws ++ hash ∷ []) (codes "rcp.xml" ∷ []), reverse-append ws (hash ∷ [])) refl

-- The proxy hash that is read back from the URL of a fetch is the one it was built from, if the hash
-- holds no slash.
pub proxy_hash_of-proxy_url :
    (host hash : Text) → Without b'/' hash → proxy_hash_of (proxy_url host hash) ≡ some hash
unfolding proxy_hash_of
proxy_hash_of-proxy_url host hash h =
    ap (λ s. last_but_one (reverse (split b'/' s))) (rstrip-proxy_url host hash)
    ∙ ap (λ s. last_but_one (reverse s)) (url_segments host hash h)
    ∙ last_two (split b'/' (codes "https://" ++ host)) hash

AllUsable-drop :
    (base : Text) (c : Caches) → AllUsable c → AllUsable (drop_cached_session true base c)
unfolding drop_cached_session
AllUsable-drop base c u = go (proxy_hash_of base)
  where
    go :
        (o : Option Text)
        → AllUsable (elim o [ none ↦ c | some hash ↦ record c { sessions = pop hash c.sessions } ])
    go none = u
    go (some hash) = AllUsable-pop hash c u

AllUsable-PollStable :
    (base session_id : Text) (cmd type : String) (num : ℕ)
    → PollStable base session_id cmd type num (λ w. AllUsable w.store)
unfolding mark_fail mark_ok
AllUsable-PollStable base session_id cmd type num = record {
  read = λ dead w few u. after_read base dead w.store u;
  fail = λ w few u. u;
  succeed = λ w few u. u;
}
  where
    after_read :
        (url : Text) (dead : Bool) (c : Caches)
        → AllUsable c
        → AllUsable (if dead then drop_cached_session true url c else c)
    after_read url true c u = AllUsable-drop url c u
    after_read url false c u = u

-- The sessions of the other hashes are as they were.
abbrev pub SameSessions : Text → Caches → Caches → Type 0
SameSessions hash c c' = (j : Text) → hash ≢ j → get j c'.sessions ≡ get j c.sessions

SameSessions-pop :
    (hash : Text) (c c' : Caches)
    → SameSessions hash c c'
    → SameSessions hash c (record c' { sessions = pop hash c'.sessions })
SameSessions-pop hash c c' p j n =
    ground (arith, get-pop hash j c'.sessions, same_iff hash j, p j n)

SameSessions-Stable :
    (host hash : Text) (c : Caches) → Stable host hash (λ w. SameSessions hash c w.store)
SameSessions-Stable host hash c = record {
  ask = λ w p. p;
  confirm = λ id w p. p;
  drop = λ w p. SameSessions-pop hash c w.store p;
  add = λ id t w u p j n.
      ground (arith, get-put hash j (id, t) w.store.sessions, same_iff hash j, p j n);
}

module _ (host hash : Text) (c : Caches) (plain : Without b'/' hash) where
  SameSessions-drop :
      (c' : Caches)
      → SameSessions hash c c'
      → SameSessions hash c (drop_cached_session true (proxy_url host hash) c')
  unfolding drop_cached_session
  SameSessions-drop c' p =
      rw (proxy_hash_of-proxy_url host hash plain, drop_cached_session)
        (SameSessions-pop hash c c' p)

  SameSessions-read :
      (dead : Bool) (c' : Caches)
      → SameSessions hash c c'
      → SameSessions hash c (if dead then drop_cached_session true (proxy_url host hash) c' else c')
  SameSessions-read true c' p = SameSessions-drop c' p
  SameSessions-read false c' p = p

  SameSessions-PollStable :
      (session_id : Text) (cmd type : String) (num : ℕ)
      → PollStable (proxy_url host hash) session_id cmd type num (λ w. SameSessions hash c w.store)
  unfolding mark_fail mark_ok
  SameSessions-PollStable session_id cmd type num = record {
    read = λ dead w few p. SameSessions-read dead w.store p;
    fail = λ w few p. p;
    succeed = λ w few p. p;
  }

-- If the proxy hash holds no slash and all cached sessions are usable, they are so after a fetch, and the
-- session of any other hash is as it was.
pub fetch-sessions :
    {C : Type 0} (p : Platform C) (host hash j : Text) (now : ℕ) (w : World Query Caches)
    → Without b'/' hash
    → AllUsable w.store
    → hash ≢ j
    → let w' = (fetch_rcp_camera_data p host hash now w).1 in
      AllUsable w'.store × (get j w'.store.sessions ≡ get j w.store.sessions)
fetch-sessions p host hash j now w plain u other = (
  (fetch-Keeps host hash (AllUsable-Stable host hash) (AllUsable-PollStable (proxy_url host hash)) p
        now).at
      w u,
  (fetch-Keeps host hash (SameSessions-Stable host hash w.store)
        (SameSessions-PollStable host hash w.store plain) p now).at
      w (λ k n. refl) j other,
)
