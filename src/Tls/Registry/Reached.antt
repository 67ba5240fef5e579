-- ===== src/Tls/Registry/Reached.antt =====
-- What holds of the dictionaries in every reachable state, and what a stop does to them.
use bosch_shc_camera_client.Common.{
  ℕ, ◌≡◌, ◌≢◌, refl, ap, ◌∙◌, true, false, List, [], ◌∷◌, none, some, String, arith,
}
use bosch_shc_camera_client.Common.Dict.{string_key, get, get-pop, get-pop_self}
use bosch_shc_camera_client.Tls.Registry.{
  Proxy, State, stop_tls_proxy, is_some, connect_failed, stop_each, keys, stop_all_proxies, stops,
  clears, Reach, start, next,
}
use bosch_shc_camera_client.Tls.Registry.Current.{Serves, Inv}
use bosch_shc_camera_client.Tls.Registry.Steps.{Step-Inv}

pub Reach-Inv : {s : State} → Reach s → Inv s
unfolding get
Reach-Inv start = record { agree = λ cam. refl; own = λ cam n g. cc; fresh = λ n h. refl }
Reach-Inv (next r st) = Step-Inv st (Reach-Inv r)

stop_each-Reach : (cams : List String) {s : State} → Reach s → Reach (stop_each cams s)
unfolding stop_each
stop_each-Reach [] r = r
stop_each-Reach (cam ∷ cams) {s} r = stop_each-Reach cams (next r (stops cam s))

-- What a run of `stop_all_proxies` that nothing interrupts leads to is reachable by the steps.
pub stop_all_proxies-Reach : {s : State} → Reach s → Reach (stop_all_proxies s)
unfolding stop_all_proxies
stop_all_proxies-Reach {s} r =
    let r' = stop_each-Reach (keys s.server_cache) r in next r' (clears _)

-- In every reachable state, a camera's server was started for that camera and listens, and the camera
-- has a port as well.
pub registered-Serves :
    {s : State} (cam : String) (n : ℕ)
    → Reach s
    → get cam s.server_cache ≡ some n
    → Serves cam n s × (is_some (get cam s.port_cache) ≡ true)
registered-Serves {s} cam n r e = let v = Reach-Inv r in (v.own cam n e, v.agree cam ∙ ap is_some e)

-- In every reachable state, a camera has a port exactly if it has a server.
pub caches_agree :
    {s : State} (cam : String)
    → Reach s
    → is_some (get cam s.port_cache) ≡ is_some (get cam s.server_cache)
caches_agree cam r = (Reach-Inv r).agree cam

-- A failure to connect of a server which its camera no longer has, whether it trips the breaker or not,
-- leaves both dictionaries, the due callbacks and the made ones as they were.
pub connect_failed_stale :
    (n now : ℕ) (p : Proxy) (s : State)
    → s.proxies n ≡ some p
    → get p.cam_id s.server_cache ≢ some n
    → let t = connect_failed n now s in
      (t.port_cache ≡ s.port_cache)
      × (t.server_cache ≡ s.server_cache)
      × (t.dying ≡ s.dying)
      × (t.died ≡ s.died)
unfolding connect_failed
connect_failed_stale n now p s e stale = ground arith

-- After a stop the camera is in neither dictionary, and another camera has what it had.
pub stop_tls_proxy_lem :
    (cam j : String) (s : State)
    → cam ≢ j
    → let t = stop_tls_proxy cam s in
      (get cam t.port_cache ≡ none)
      × (get cam t.server_cache ≡ none)
      × (get j t.port_cache ≡ get j s.port_cache)
      × (get j t.server_cache ≡ get j s.server_cache)
unfolding stop_tls_proxy
stop_tls_proxy_lem cam j s ne = (
  ground (arith, get-pop_self cam s.port_cache),
  ground (arith, get-pop_self cam s.server_cache),
  ground (arith, get-pop cam j s.port_cache, string_key.eqb_iff cam j),
  ground (arith, get-pop cam j s.server_cache, string_key.eqb_iff cam j),
)

-- After a stop in a reachable state the camera's server does not listen any more.
pub stop_tls_proxy-closes :
    {s : State} (cam : String) (n : ℕ)
    → Reach s
    → get cam s.server_cache ≡ some n
    → (p : Proxy) × ((stop_tls_proxy cam s).proxies n ≡ some p)
      × (p.cam_id ≡ cam)
      × (p.is_listening ≡ false)
unfolding stop_tls_proxy
stop_tls_proxy-closes {s} cam n r e =
    let (p, found, owner, _) = (Reach-Inv r).own cam n e in
    (record p { is_listening = false }, ground (arith, e, found), owner, refl)
