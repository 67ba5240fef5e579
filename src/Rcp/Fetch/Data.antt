-- ===== src/Rcp/Fetch/Data.antt =====
-- The data that a fetch returns, and its exceptions.
use bosch_shc_camera_client.Common.{
  ℕ, ◌≤◌, ◌≡◌, refl, ap, ◌∙◌, true, false, [], ◌∷◌, Option, none, some, String, is_empty, arith,
}
use bosch_shc_camera_client.Common.Texts.{Text, Bytes, codes}
use bosch_shc_camera_client.Net.{World, ok, is_exception, continue, ◌>>=◌}
use bosch_shc_camera_client.Net.Rules.{
  Returns, Returns-bind, Returns-pure, Returns-except, Returns-if, Returns-Anything, Anything,
  Total, Total-bind, Total-pure, Total-except, Total-if,
}
use bosch_shc_camera_client.Rcp.Wire.{Caches, Camera, Rcp, Query, proxy_url}
use bosch_shc_camera_client.Rcp.Session.{get_cached_rcp_session}
use bosch_shc_camera_client.Rcp.Read.{rcp_read}
use bosch_shc_camera_client.Rcp.Judge.{
  judge_dimmer, judge_privacy, judge_bitrate, judge_alarm_catalog, judge_motion_zones,
  judge_motion_coords, judge_tls_cert, judge_network_services, judge_iva_catalog,
}
use bosch_shc_camera_client.Rcp.Judge.Defs.{Verdict, accept, reject, ignore}
use bosch_shc_camera_client.Rcp.Judge.Bounds.{
  AreBitrates, IsAddress, IsName, judge_dimmer-le, judge_bitrate-AreBitrates,
  judge_lan_ip-IsAddress, judge_product_name-IsName,
}
use bosch_shc_camera_client.Rcp.Judge.Names.{judge_lan_ip, judge_product_name}
use bosch_shc_camera_client.Rcp.Judge.Clock.{judge_clock}
use bosch_shc_camera_client.Rcp.Fetch.{
  Platform, RcpCameraData, skip, settle, poll, read_all, read_with, fetch_rcp_camera_data,
}

-- A value, if there is one, satisfies `P`.
abbrev pub IfAny : {A : Type 0} → (A → Type 0) → Option A → Type 0
IfAny P none = Unit
IfAny P (some a) = P a

settle-Returns :
    {A : Type 0} {P : A → Type 0} (cmd : String) (v : Verdict A)
    → ((a : A) → v ≡ accept a → P a)
    → Returns (IfAny P) (settle cmd v)
unfolding settle
settle-Returns cmd (accept a) h = record { at = λ w. h a refl }
settle-Returns cmd reject h = record { at = λ w. tt }
settle-Returns cmd ignore h = Returns-pure none tt

poll-Returns :
    {A : Type 0} {P : A → Type 0} (camera : Camera) (base session_id : Text) (cmd type : String)
    (num : ℕ) (judge : Option Bytes → Verdict A)
    → ((raw : Option Bytes) (a : A) → judge raw ≡ accept a → P a)
    → Returns (IfAny P) (poll camera base session_id cmd type num judge)
unfolding poll
poll-Returns camera base session_id cmd type num judge h = record {
  at = λ w.
      (Returns-if (skip cmd w.store) _ _ (Returns-pure none tt) (
          Returns-except is_exception _ _
            (Returns-bind {P = Anything}
              (rcp_read camera true base (codes cmd) session_id (codes type) num) _
              (Returns-Anything _) (λ raw _. settle-Returns cmd (judge raw) (h raw)))
            (Returns-pure none tt))).at
        w;
}

-- The values are in the ranges that the code checks for.
pub record InRange {C : Type 0} (d : RcpCameraData C) : Type 0 where
  pub dimmer_percent : IfAny (λ v. v ≤ 100) d.dimmer
  pub address : IfAny IsAddress d.lan_ip
  pub name : IfAny IsName d.product_name
  pub ladder : IfAny AreBitrates d.bitrate

module _ {B : Type 0} {R : B → Type 0} (camera : Camera) (base session_id : Text) where
  -- A poll of which nothing is claimed.
  then_any :
      {A : Type 0} (cmd type : String) (num : ℕ) (judge : Option Bytes → Verdict A)
      (f : Option A → Rcp B)
      → ((a : Option A) → Returns R (f a))
      → Returns R (poll camera base session_id cmd type num judge >>= f)
  then_any cmd type num judge f k =
      Returns-bind {P = Anything} _ f (Returns-Anything _) (λ a _. k a)

  -- A poll whose value satisfies `P`.
  then_of :
      {A : Type 0} (P : A → Type 0) (cmd type : String) (num : ℕ) (judge : Option Bytes → Verdict A)
      (f : Option A → Rcp B)
      → ((raw : Option Bytes) (a : A) → judge raw ≡ accept a → P a)
      → ((a : Option A) → IfAny P a → Returns R (f a))
      → Returns R (poll camera base session_id cmd type num judge >>= f)
  then_of P cmd type num judge f h k =
      Returns-bind {P = IfAny P} _ f (poll-Returns camera base session_id cmd type num judge h) k

read_all-Returns :
    {C : Type 0} (p : Platform C) (base session_id : Text)
    → Returns InRange (read_all p base session_id)
unfolding read_all
read_all-Returns p base id =
    then_of p.camera base id (λ v. v ≤ 100) "0x0c22" "T_WORD" 1 judge_dimmer _ judge_dimmer-le
      λ a ha. then_any p.camera base id "0x0d00" "P_OCTET" 0 judge_privacy _ λ b.
        then_any p.camera base id "0x0a0f" "P_OCTET" 0 (judge_clock p.server_time) _ λ c.
          then_of p.camera base id IsAddress "0x0a36" "P_OCTET" 0 judge_lan_ip _
            judge_lan_ip-IsAddress
            λ d hd.
              then_of p.camera base id IsName "0x0aea" "P_OCTET" 0 judge_product_name _
                judge_product_name-IsName
                λ e he.
                  then_of p.camera base id AreBitrates "0x0c81" "P_OCTET" 0 judge_bitrate _
                    judge_bitrate-AreBitrates
                    λ f hf.
                      then_any p.camera base id "0x0c38" "P_OCTET" 0
                        (judge_alarm_catalog p.printable) _
                        λ g.
                          then_any p.camera base id "0x0c00" "P_OCTET" 0 judge_motion_zones _ λ h.
                            then_any p.camera base id "0x0c0a" "P_OCTET" 0 judge_motion_coords _
                              λ i.
                                then_any p.camera base id "0x0b91" "P_OCTET" 0
                                  (judge_tls_cert p.load_certificate) _
                                  λ j.
                                    then_any p.camera base id "0x0c62" "P_OCTET" 0
                                      (judge_network_services p.printable) _
                                      λ k.
                                        then_any p.camera base id "0x0b60" "P_OCTET" 0
                                          judge_iva_catalog _
                                          λ l. Returns-pure _ (record {
                                            dimmer_percent = ha;
                                            address = hd;
                                            name = he;
                                            ladder = hf;
                                          })

poll-Total :
    {A : Type 0} (camera : Camera) (base session_id : Text) (cmd type : String) (num : ℕ)
    (judge : Option Bytes → Verdict A)
    → Total (poll camera base session_id cmd type num judge)
unfolding poll
poll-Total camera base session_id cmd type num judge = record {
  at = λ w.
      (Total-if (skip cmd w.store) _ _ (Total-pure none) (Total-except _ _ (Total-pure none))).at w;
}

read_all-Total :
    {C : Type 0} (p : Platform C) (base session_id : Text) → Total (read_all p base session_id)
unfolding read_all
read_all-Total p base id =
    Total-bind _ _ (poll-Total p.camera base id "0x0c22" "T_WORD" 1 judge_dimmer) λ a.
      Total-bind _ _ (poll-Total p.camera base id "0x0d00" "P_OCTET" 0 judge_privacy) λ b.
        Total-bind _ _
          (poll-Total p.camera base id "0x0a0f" "P_OCTET" 0 (judge_clock p.server_time))
          λ c. Total-bind _ _ (poll-Total p.camera base id "0x0a36" "P_OCTET" 0 judge_lan_ip) λ d.
            Total-bind _ _ (poll-Total p.camera base id "0x0aea" "P_OCTET" 0 judge_product_name)
              λ e.
                Total-bind _ _ (poll-Total p.camera base id "0x0c81" "P_OCTET" 0 judge_bitrate) λ f.
                  Total-bind _ _
                    (poll-Total p.camera base id "0x0c38" "P_OCTET" 0
                      (judge_alarm_catalog p.printable))
                    λ g.
                      Total-bind _ _
                        (poll-Total p.camera base id "0x0c00" "P_OCTET" 0 judge_motion_zones)
                        λ h.
                          Total-bind _ _
                            (poll-Total p.camera base id "0x0c0a" "P_OCTET" 0 judge_motion_coords)
                            λ i.
                              Total-bind _ _
                                (poll-Total p.camera base id "0x0b91" "P_OCTET" 0
                                  (judge_tls_cert p.load_certificate))
                                λ j.
                                  Total-bind _ _
                                    (poll-Total p.camera base id "0x0c62" "P_OCTET" 0
                                      (judge_network_services p.printable))
                                    λ k.
                                      Total-bind _ _
                                        (poll-Total p.camera base id "0x0b60" "P_OCTET" 0
                                          judge_iva_catalog)
                                        λ l. Total-pure _

read_with-ok :
    {C : Type 0} (p : Platform C) (base id : Text) (w : World Query Caches) (d : RcpCameraData C)
    → is_empty id ≡ false
    → (read_all p base id w).0 ≡ ok d
    → (read_with p base (some id) w).0 ≡ ok (some d)
unfolding read_with
read_with-ok p base [] w d filled e = grind arith
read_with-ok p base (c ∷ s) w d filled e = rw (e, continue)

-- If a session with an id that is not empty can be had, a fetch always returns data, whatever the camera answers to each command and
-- whatever fails, and each value that it returns is in the range that the code checks for.
pub fetch-InRange :
    {C : Type 0} (p : Platform C) (host hash id : Text) (now : ℕ) (w w' : World Query Caches)
    → get_cached_rcp_session p.camera host hash now w ≡ (ok (some id), w')
    → is_empty id ≡ false
    → (d : RcpCameraData C) × ((fetch_rcp_camera_data p host hash now w).0 ≡ ok (some d))
      × InRange d
unfolding fetch_rcp_camera_data
fetch-InRange p host hash id now w w' e filled =
    let (d, read) = (read_all-Total p (proxy_url host hash) id).at w' in
    let good = (read_all-Returns p (proxy_url host hash) id).at w' in
    (
      d,
      ap (λ r. (continue r.0 (read_with p (proxy_url host hash)) r.1).0) e
          ∙ read_with-ok p (proxy_url host hash) id w' d filled read,
      rw read at good,
    )
