-- ===== src/Rcp/Fetch/Strikes.antt =====
-- The three strikes: how a poll moves the counts of failures.
use bosch_shc_camera_client.Common.{
  ℕ, ◌+◌, ◌≤◌, ◌<◌, ◌≡◌, Bool, true, Option, none, String, arith, if◌then◌else◌,
}
use bosch_shc_camera_client.Common.Texts.{Text, Bytes, codes}
use bosch_shc_camera_client.Common.Dict.{string_key, get-put, get-pop}
use bosch_shc_camera_client.Net.{World, ok}
use bosch_shc_camera_client.Rcp.Wire.{Caches, Camera, Query}
use bosch_shc_camera_client.Rcp.Read.{rcp_read, drop_cached_session}
use bosch_shc_camera_client.Rcp.Read.Cache.{rcp_read-is_dead}
use bosch_shc_camera_client.Rcp.Judge.Defs.{Verdict, accept, reject, ignore}
use bosch_shc_camera_client.Rcp.Fetch.{failures_of, skip, settle, poll}

-- Dropping a session leaves the counts alone.
drop_cached_session-failures :
    (has_cache : Bool) (base : Text) (c : Caches)
    → (drop_cached_session has_cache base c).failures ≡ c.failures
unfolding drop_cached_session
drop_cached_session-failures has_cache base c = ground arith

pub rcp_read-failures :
    (camera : Camera) (base command session_id type : Text) (num : ℕ) (w : World Query Caches)
    → (rcp_read camera true base command session_id type num w).1.store.failures ≡ w.store.failures
rcp_read-failures camera base command session_id type num w =
    rw (rcp_read-is_dead camera true base command session_id type num w)
      (ground (arith, drop_cached_session-failures true base w.store))

-- The count of a command after a verdict on its reply.
abbrev pub count_after : {A : Type 0} → Verdict A → ℕ → ℕ
count_after (accept a) n = 0
count_after reject n = n + 1
count_after ignore n = n

settle-failures :
    {A : Type 0} (cmd j : String) (v : Verdict A) (w : World Query Caches)
    → failures_of j (settle cmd v w).1.store ≡ (
        if string_key.eqb cmd j
        then count_after v (failures_of cmd w.store)
        else failures_of j w.store)
unfolding settle
settle-failures cmd j (accept a) w = ground (arith, get-pop cmd j w.store.failures)
settle-failures cmd j reject w =
    ground (arith, get-put cmd j (failures_of cmd w.store + 1) w.store.failures)
settle-failures cmd j ignore w = ground (arith, string_key.eqb_iff cmd j)

-- A command with three counted failures or more is not sent, no value is returned and nothing changes.
pub poll_skipped :
    {A : Type 0} (camera : Camera) (base session_id : Text) (cmd type : String) (num : ℕ)
    (judge : Option Bytes → Verdict A) (w : World Query Caches)
    → 3 ≤ failures_of cmd w.store
    → poll camera base session_id cmd type num judge w ≡ (ok none, w)
unfolding poll skip
poll_skipped camera base session_id cmd type num judge w h = ground arith

-- If a command has less than three counted failures and its reply could be read, then the verdict on
-- the reply sets the count of this command (to zero, one more, or as before) and no other count moves.
pub poll-failures :
    {A : Type 0} (camera : Camera) (base session_id : Text) (cmd type : String) (num : ℕ)
    (judge : Option Bytes → Verdict A) (w : World Query Caches) (raw : Option Bytes) (j : String)
    → failures_of cmd w.store < 3
    → (rcp_read camera true base (codes cmd) session_id (codes type) num w).0 ≡ ok raw
    → failures_of j (poll camera base session_id cmd type num judge w).1.store ≡ (
        if string_key.eqb cmd j
        then count_after (judge raw) (failures_of cmd w.store)
        else failures_of j w.store)
unfolding poll skip
poll-failures camera base session_id cmd type num judge w raw j few read =
    let r = rcp_read camera true base (codes cmd) session_id (codes type) num w in
    ground (
      arith,
      settle-failures cmd j (judge raw) r.1,
      rcp_read-failures camera base (codes cmd) session_id (codes type) num w,
    )
