-- ===== src/Rcp/Fetch/Stable.antt =====
-- What a poll does to the world, step by step, and the rule that carries an invariant through all
-- the polls of a fetch.
use bosch_shc_camera_client.Common.{
  ℕ, ◌<◌, Bool, true, [], ◌∷◌, ◌++◌, Option, none, some, String, arith, leb, if◌then◌else◌,
}
use bosch_shc_camera_client.Common.Texts.{Text, Bytes, codes}
use bosch_shc_camera_client.Net.{World, Result, ok, raise, continue, is_exception, pure, ◌>>=◌}
use bosch_shc_camera_client.Net.Rules.{Keeps, Keeps-pure, Keeps-bind, outcome_if, handle-Keeps}
use bosch_shc_camera_client.Rcp.Wire.{Caches, Camera, Rcp, Query}
use bosch_shc_camera_client.Rcp.Read.{rcp_read, read_query, drop_cached_session}
use bosch_shc_camera_client.Rcp.Read.Cache.{rcp_read-is_dead, is_dead}
use bosch_shc_camera_client.Rcp.Judge.{
  judge_dimmer, judge_privacy, judge_bitrate, judge_alarm_catalog, judge_motion_zones,
  judge_motion_coords, judge_tls_cert, judge_network_services, judge_iva_catalog,
}
use bosch_shc_camera_client.Rcp.Judge.Names.{judge_lan_ip, judge_product_name}
use bosch_shc_camera_client.Rcp.Judge.Clock.{judge_clock}
use bosch_shc_camera_client.Rcp.Judge.Defs.{Verdict, accept, reject, ignore}
use bosch_shc_camera_client.Rcp.Fetch.{
  Platform, failures_of, skip, mark_fail, mark_ok, settle, poll, read_all, read_with,
}
use bosch_shc_camera_client.Rcp.Fetch.Strikes.{rcp_read-failures}

-- Closed under the steps of the poll of a command that is not yet struck out: its query, which may
-- drop the cached session, and the two marks.
pub record PollStable (base session_id : Text) (cmd type : String) (num : ℕ)
    (P : World Query Caches → Type 0) : Type 0 where
  pub read :
      (dead : Bool) (w : World Query Caches)
      → failures_of cmd w.store < 3
      → P w
      → P (record {
        sent = w.sent ++ read_query base (codes cmd) session_id (codes type) num ∷ [];
        store = if dead then drop_cached_session true base w.store else w.store;
      })
  pub fail :
      (w : World Query Caches)
      → failures_of cmd w.store < 3
      → P w
      → P (record w { store = mark_fail cmd w.store })
  pub succeed :
      (w : World Query Caches)
      → failures_of cmd w.store < 3
      → P w
      → P (record w { store = mark_ok cmd w.store })

module _ {A : Type 0} {P : World Query Caches → Type 0} (camera : Camera) (base session_id : Text)
    (cmd type : String) (num : ℕ) (judge : Option Bytes → Verdict A)
    (stable : PollStable base session_id cmd type num P) where
  settle-P :
      (v : Verdict A) (w : World Query Caches)
      → failures_of cmd w.store < 3
      → P w
      → P (settle cmd v w).1
  unfolding settle
  settle-P (accept a) w few p = stable.succeed w few p
  settle-P reject w few p = stable.fail w few p
  settle-P ignore w few p = p

  continue-P :
      (r : Result (Option Bytes)) (w : World Query Caches)
      → failures_of cmd w.store < 3
      → P w
      → P (continue r (λ raw. settle cmd (judge raw)) w).1
  continue-P (ok raw) w few p = settle-P (judge raw) w few p
  continue-P (raise e) w few p = p

  read-P :
      (w : World Query Caches)
      → failures_of cmd w.store < 3
      → P w
      → P (rcp_read camera true base (codes cmd) session_id (codes type) num w).1
  read-P w few p =
      rw (rcp_read-is_dead camera true base (codes cmd) session_id (codes type) num w) (
        stable.read
          (is_dead (camera w.sent (read_query base (codes cmd) session_id (codes type) num))) w few
          p)

  pub poll-Keeps : Keeps P (poll camera base session_id cmd type num judge)
  unfolding poll skip
  poll-Keeps = record {
    at = λ w p.
        outcome_if (λ r. P r.1) (leb 3 (failures_of cmd w.store)) _ _ w (λ _. p)
          (λ open_still.
            let few : failures_of cmd w.store < 3 = ground arith in
            let r = rcp_read camera true base (codes cmd) session_id (codes type) num w in
            let still : failures_of cmd r.1.store < 3 =
              ground
                (arith, rcp_read-failures camera base (codes cmd) session_id (codes type) num w) in
            let rest = continue r.0 (λ raw. settle cmd (judge raw)) r.1 in
            handle-Keeps {P = P} is_exception rest.0 (pure none) rest.1 (Keeps-pure {P = P} none)
              (continue-P r.0 r.1 still (read-P w few p)));
  }

module _ {P : World Query Caches → Type 0} (base session_id : Text)
    (stable : (cmd type : String) (num : ℕ) → PollStable base session_id cmd type num P) where
  -- The rule for one poll of the series, and the rest of it.
  then_poll :
      {A B : Type 0} (camera : Camera) (cmd type : String) (num : ℕ)
      (judge : Option Bytes → Verdict A) (f : Option A → Rcp B)
      → ((a : Option A) → Keeps P (f a))
      → Keeps P (poll camera base session_id cmd type num judge >>= f)
  then_poll camera cmd type num judge f k =
      Keeps-bind _ f (poll-Keeps camera base session_id cmd type num judge (stable cmd type num)) k

  pub read_all-Keeps : {C : Type 0} (p : Platform C) → Keeps P (read_all p base session_id)
  unfolding read_all
  read_all-Keeps p = then_poll p.camera "0x0c22" "T_WORD" 1 judge_dimmer _ λ a.
      then_poll p.camera "0x0d00" "P_OCTET" 0 judge_privacy _ λ b.
        then_poll p.camera "0x0a0f" "P_OCTET" 0 (judge_clock p.server_time) _ λ c.
          then_poll p.camera "0x0a36" "P_OCTET" 0 judge_lan_ip _ λ d.
            then_poll p.camera "0x0aea" "P_OCTET" 0 judge_product_name _ λ e.
              then_poll p.camera "0x0c81" "P_OCTET" 0 judge_bitrate _ λ f.
                then_poll p.camera "0x0c38" "P_OCTET" 0 (judge_alarm_catalog p.printable) _ λ g.
                  then_poll p.camera "0x0c00" "P_OCTET" 0 judge_motion_zones _ λ h.
                    then_poll p.camera "0x0c0a" "P_OCTET" 0 judge_motion_coords _ λ i.
                      then_poll p.camera "0x0b91" "P_OCTET" 0 (judge_tls_cert p.load_certificate) _
                        λ j.
                          then_poll p.camera "0x0c62" "P_OCTET" 0
                            (judge_network_services p.printable) _
                            λ k.
                              then_poll p.camera "0x0b60" "P_OCTET" 0 judge_iva_catalog _
                                λ l. Keeps-pure _

  pub read_with-Keeps : {C : Type 0} (p : Platform C) → Keeps P (read_with p base (some session_id))
  unfolding read_with
  read_with-Keeps p = go session_id (read_all-Keeps p)
    where
      go : (id : Text) → Keeps P (read_all p base id) → Keeps P (read_with p base (some id))
      go [] k = Keeps-pure none
      go (c ∷ s) k = Keeps-bind _ _ k (λ d. Keeps-pure (some d))
