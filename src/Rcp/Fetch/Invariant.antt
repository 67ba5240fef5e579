-- ===== src/Rcp/Fetch/Invariant.antt =====
-- Invariants of a whole fetch.
use bosch_shc_camera_client.Common.{
  ℕ, ◌+◌, ◌≤◌, ◌<◌, ◌≡◌, Bool, true, Option, none, some, String, arith, if◌then◌else◌,
}
use bosch_shc_camera_client.Common.Texts.{Text}
use bosch_shc_camera_client.Common.Dict.{string_key, get-put, get-pop}
use bosch_shc_camera_client.Net.{World}
use bosch_shc_camera_client.Net.Rules.{Keeps, Keeps-pure, Keeps-bind}
use bosch_shc_camera_client.Rcp.Wire.{Caches, Query, proxy_url}
use bosch_shc_camera_client.Rcp.Session.Invariant.{Stable, get_cached_rcp_session-Keeps}
use bosch_shc_camera_client.Rcp.Read.{drop_cached_session}
use bosch_shc_camera_client.Rcp.Fetch.{
  Platform, failures_of, mark_fail, mark_ok, read_with, fetch_rcp_camera_data,
}
use bosch_shc_camera_client.Rcp.Fetch.Stable.{PollStable, read_with-Keeps}

module _ {P : World Query Caches → Type 0} (host hash : Text) (session : Stable host hash P)
    (polls : (session_id : Text) (cmd type : String) (num : ℕ)
      → PollStable (proxy_url host hash) session_id cmd type num P) where
  reads-Keeps :
      {C : Type 0} (p : Platform C) (id : Option Text)
      → Keeps P (read_with p (proxy_url host hash) id)
  unfolding read_with
  reads-Keeps p none = Keeps-pure none
  reads-Keeps p (some session_id) =
      read_with-Keeps (proxy_url host hash) session_id (polls session_id) p

  pub fetch-Keeps :
      {C : Type 0} (p : Platform C) (now : ℕ) → Keeps P (fetch_rcp_camera_data p host hash now)
  unfolding fetch_rcp_camera_data
  fetch-Keeps p now =
      Keeps-bind _ _ (get_cached_rcp_session-Keeps host hash session p.camera now) (reads-Keeps p)

pub drop-failures :
    (dead : Bool) (base : Text) (c : Caches)
    → (if dead then drop_cached_session true base c else c).failures ≡ c.failures
unfolding drop_cached_session
drop-failures dead base c = ground arith

-- No count is above three.
abbrev pub Bounded : Caches → Type 0
Bounded c = (cmd : String) → failures_of cmd c ≤ 3

Bounded-Stable : (host hash : Text) → Stable host hash (λ w. Bounded w.store)
Bounded-Stable host hash = record {
  ask = λ w p. p;
  confirm = λ id w p. p;
  drop = λ w p. p;
  add = λ id t w u p. p;
}

Bounded-fail :
    (cmd j : String) (c : Caches)
    → failures_of cmd c < 3
    → failures_of j c ≤ 3
    → failures_of j (mark_fail cmd c) ≤ 3
unfolding mark_fail
Bounded-fail cmd j c few p = ground (arith, get-put cmd j (failures_of cmd c + 1) c.failures)

Bounded-ok : (cmd j : String) (c : Caches) → failures_of j c ≤ 3 → failures_of j (mark_ok cmd c) ≤ 3
unfolding mark_ok
Bounded-ok cmd j c p = ground (arith, get-pop cmd j c.failures)

Bounded-PollStable :
    (base session_id : Text) (cmd type : String) (num : ℕ)
    → PollStable base session_id cmd type num (λ w. Bounded w.store)
Bounded-PollStable base session_id cmd type num = record {
  read = λ dead w few p j. ground (arith, drop-failures dead base w.store, p j);
  fail = λ w few p j. Bounded-fail cmd j w.store few (p j);
  succeed = λ w few p j. Bounded-ok cmd j w.store (p j);
}

-- If no command has more than three counted failures before a fetch, none has afterwards.
pub fetch-Bounded :
    {C : Type 0} (p : Platform C) (host hash : Text) (now : ℕ) (w : World Query Caches)
    → Bounded w.store
    → Bounded (fetch_rcp_camera_data p host hash now w).1.store
fetch-Bounded p host hash now w b =
    (fetch-Keeps host hash (Bounded-Stable host hash) (Bounded-PollStable (proxy_url host hash)) p
        now).at
      w b
