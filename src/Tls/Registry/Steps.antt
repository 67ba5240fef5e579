-- ===== src/Tls/Registry/Steps.antt =====
-- The invariant of the dictionaries under each step.
use bosch_shc_camera_client.Common.{
  ℕ, ◌≡◌, ◌≢◌, refl, inl, inr, Bool, true, false, ◌||◌, List, ◌∷◌, some, String, arith,
  if◌then◌else◌, Option-cases,
}
use bosch_shc_camera_client.Common.Dict.{string_key, get}
use bosch_shc_camera_client.Tls.Breaker.{closed, count_failure, trips}
use bosch_shc_camera_client.Tls.Registry.{
  Proxy, State, set_proxy, close_server, forget, stop_tls_proxy, is_some, stop_existing, is_current,
  fire, connect_failed, connect_done, clear, call_back, Step, stops, begins, starts, fails,
  connects, clears, calls_back,
}
use bosch_shc_camera_client.Tls.Registry.Current.{
  Inv, unused, set_proxy-Inv, close_server-Inv, forget-Inv, forget-Unused, register-Inv,
}

pub stop_tls_proxy-Inv : (cam : String) (s : State) → Inv s → Inv (stop_tls_proxy cam s)
unfolding stop_tls_proxy
stop_tls_proxy-Inv cam s v = elim (Option-cases (get cam s.server_cache)) [
  | inl e ↦ rw (e, stop_tls_proxy) (forget-Inv s v cam)
  | inr (n, e) ↦
      let (p, found, owner, _) = v.own cam n e in
      rw (e, stop_tls_proxy)
        (close_server-Inv (forget cam s) (forget-Inv s v cam) n
          (forget-Unused s v cam n p found owner))
]

stop_existing-Inv : (cam : String) (s : State) → Inv s → Inv (stop_existing cam s)
unfolding stop_existing
stop_existing-Inv cam s v = go (is_some (get cam s.port_cache) || is_some (get cam s.server_cache))
  where
    go : (b : Bool) → Inv (if b then stop_tls_proxy cam s else s)
    go true = stop_tls_proxy-Inv cam s v
    go false = v

clear-Inv : (s : State) → Inv s → Inv (clear s)
unfolding clear get
clear-Inv s v = record { agree = λ cam. refl; own = λ cam n g. cc; fresh = v.fresh }

-- Only the queue of callbacks differs.
Inv-dying : (s : State) (due : List ℕ) → Inv s → Inv (record s { dying = due })
Inv-dying s due v = record { agree = v.agree; own = v.own; fresh = v.fresh }

fire-Inv : (n : ℕ) (p : Proxy) (s : State) → Inv s → s.proxies n ≡ some p → Inv (fire n p s)
unfolding fire
fire-Inv n p s v e = go p.died_fired (is_current n p.cam_id s) refl
  where
    q : Proxy
    q = record p { died_fired = true }

    marked : State
    marked = set_proxy n q s

    marked-Inv : Inv marked
    marked-Inv = set_proxy-Inv s v n p q e refl refl

    here : marked.proxies n ≡ some q
    here = unfold set_proxy in ground arith

    go :
        (fired current : Bool)
        → is_current n p.cam_id s ≡ current
        → Inv (
            if fired
            then s
            else if current
            then close_server n (record (forget p.cam_id marked) { dying = n ∷ s.dying })
            else close_server n marked)
    go true current h = v
    go false true h =
        close_server-Inv _ (Inv-dying _ (n ∷ s.dying) (forget-Inv marked marked-Inv p.cam_id)) n
          (forget-Unused marked marked-Inv p.cam_id n q here refl)
    go false false h =
        close_server-Inv marked marked-Inv n (unused marked marked-Inv n q here other)
      where
        other : get p.cam_id marked.server_cache ≢ some n
        other g = ground (arith, g, h)

connect_failed-Inv : (n now : ℕ) (s : State) → Inv s → Inv (connect_failed n now s)
unfolding connect_failed
connect_failed-Inv n now s v = elim (Option-cases (s.proxies n)) [
  | inl e ↦ rw (e, connect_failed) v
  | inr (p, e) ↦ rw (e, connect_failed) (outcome p e (trips now (count_failure now p.breaker)))
]
  where
    counted : Proxy → Proxy
    counted p = record p { breaker = count_failure now p.breaker }

    counted-Inv : (p : Proxy) → s.proxies n ≡ some p → Inv (set_proxy n (counted p) s)
    counted-Inv p e = set_proxy-Inv s v n p (counted p) e refl refl

    outcome :
        (p : Proxy)
        → s.proxies n ≡ some p
        → (b : Bool)
        → Inv (
            if b then fire n (counted p) (set_proxy n (counted p) s) else set_proxy n (counted p) s)
    outcome p e true =
        fire-Inv n (counted p) (set_proxy n (counted p) s) (counted-Inv p e)
          (unfold set_proxy in ground arith)
    outcome p e false = counted-Inv p e

connect_done-Inv : (n : ℕ) (s : State) → Inv s → Inv (connect_done n s)
unfolding connect_done
connect_done-Inv n s v = elim (Option-cases (s.proxies n)) [
  | inl e ↦ rw (e, connect_done) v
  | inr (p, e) ↦
      rw (e, connect_done) (set_proxy-Inv s v n p (record p { breaker = closed }) e refl refl)
]

pub Step-Inv : {s t : State} → Step s t → Inv s → Inv t
unfolding call_back
Step-Inv (stops cam s) v = stop_tls_proxy-Inv cam s v
Step-Inv (begins cam s) v = stop_existing-Inv cam s v
Step-Inv (starts cam port s) v = register-Inv s v cam port
Step-Inv (fails n now s) v = connect_failed-Inv n now s v
Step-Inv (connects n s) v = connect_done-Inv n s v
Step-Inv (clears s) v = clear-Inv s v
Step-Inv (calls_back n s due) v = record { agree = v.agree; own = v.own; fresh = v.fresh }
