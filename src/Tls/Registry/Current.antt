-- ===== src/Tls/Registry/Current.antt =====
-- The invariant of the dictionaries: both know the same cameras, and a camera's server is a listening
-- one that was started for it.
use bosch_shc_camera_client.Common.{
  ℕ, ◌≤◌, ◌≡◌, ◌≢◌, refl, sym, ap, ◌∙◌, inl, inr, true, false, none, some, String, arith, ◌==◌,
  ==_iff, Bool-cases, Option-cases,
}
use bosch_shc_camera_client.Common.Dict.{string_key, get, put, get-put, get-pop}
use bosch_shc_camera_client.Tls.Breaker.{closed}
use bosch_shc_camera_client.Tls.Registry.{
  Proxy, State, set_proxy, close_server, forget, is_some, register,
}

-- Server n was started for the camera and listens.
abbrev pub Serves : String → ℕ → State → Type 0
Serves cam n s = (p : Proxy) × (s.proxies n ≡ some p) × (p.cam_id ≡ cam) × (p.is_listening ≡ true)

pub record Inv (s : State) : Type 0 where
  pub agree : (cam : String) → is_some (get cam s.port_cache) ≡ is_some (get cam s.server_cache)
  pub own : (cam : String) (n : ℕ) → get cam s.server_cache ≡ some n → Serves cam n s
  pub fresh : (n : ℕ) → s.next_server ≤ n → s.proxies n ≡ none

-- No camera has the server n.
abbrev pub Unused : ℕ → State → Type 0
Unused n s = (cam : String) → get cam s.server_cache ≢ some n

module _ (s : State) (v : Inv s) where
  -- A server that its own camera does not have is unused.
  pub unused :
      (n : ℕ) (p : Proxy) → s.proxies n ≡ some p → get p.cam_id s.server_cache ≢ some n → Unused n s
  unused n p e h cam g =
      let (q, e2, c, _) = v.own cam n g in
      let same_proxy : q ≡ p = ground (arith, e, e2) in
      h (ap (λ k. get k s.server_cache) (ap (λ r. r.cam_id) (sym same_proxy) ∙ c) ∙ g)

  own_after :
      (n : ℕ) (p q : Proxy) (cam : String) (m : ℕ)
      → s.proxies n ≡ some p
      → q.cam_id ≡ p.cam_id
      → q.is_listening ≡ p.is_listening
      → Serves cam m s
      → Serves cam m (set_proxy n q s)
  unfolding set_proxy
  own_after n p q cam m e c l (x, ex, cx, lx) = elim (Bool-cases (m == n)) [
    | inl h ↦
        let equal : m ≡ n = (==_iff m n).0 h in
        let found : s.proxies m ≡ some p = ap (λ k. s.proxies k) equal ∙ e in
        let same_proxy : x ≡ p = ground (arith, ex, found) in
        (
          q,
          rw h,
          c ∙ ap (λ r. r.cam_id) (sym same_proxy) ∙ cx,
          l ∙ ap (λ r. r.is_listening) (sym same_proxy) ∙ lx,
        )
    | inr h ↦ (x, rw h ex, cx, lx)
  ]

  pub set_proxy-Inv :
      (n : ℕ) (p q : Proxy)
      → s.proxies n ≡ some p
      → q.cam_id ≡ p.cam_id
      → q.is_listening ≡ p.is_listening
      → Inv (set_proxy n q s)
  unfolding set_proxy
  set_proxy-Inv n p q e c l = record {
    agree = v.agree;
    own = λ cam m g. own_after n p q cam m e c l (v.own cam m g);
    fresh = λ m h. ground (arith, v.fresh m h);
  }

  -- A server that no camera has may be closed.
  pub close_server-Inv : (n : ℕ) → Unused n s → Inv (close_server n s)
  unfolding close_server set_proxy
  close_server-Inv n u = elim (Option-cases (s.proxies n)) [
    | inl e ↦ rw (e, close_server) v
    | inr (p, e) ↦
        rw (e, close_server)
          (record {
            agree = v.agree;
            own = λ cam m g.
                let (x, ex, cx, lx) = v.own cam m g in (x, ground (arith, ex, u cam, g), cx, lx);
            fresh = λ m h. ground (arith, v.fresh m h, v.fresh n);
          })
  ]

  pub forget-Inv : (cam : String) → Inv (forget cam s)
  unfolding forget
  forget-Inv cam = record {
    agree =
        λ j. ground (arith, get-pop cam j s.port_cache, get-pop cam j s.server_cache, v.agree j);
    own = λ j n g. v.own j n (ground (arith, get-pop cam j s.server_cache));
    fresh = v.fresh;
  }

  -- After its camera is forgotten, the camera's server is unused.
  pub forget-Unused :
      (cam : String) (n : ℕ) (p : Proxy)
      → s.proxies n ≡ some p
      → p.cam_id ≡ cam
      → Unused n (forget cam s)
  unfolding forget
  forget-Unused cam n p e c j g =
      let before : get j s.server_cache ≡ some n = ground (arith, get-pop cam j s.server_cache) in
      let (x, ex, cx, lx) = v.own j n before in
      let same_proxy : x ≡ p = ground (arith, ex, e) in
      let equal : cam ≡ j = sym c ∙ ap (λ r. r.cam_id) (sym same_proxy) ∙ cx in
      ground (arith, get-pop cam j s.server_cache, string_key.eqb_iff cam j, equal)

  register-Serves :
      (cam : String) (port : ℕ) (j : String) (n : ℕ)
      → get j (put cam s.next_server s.server_cache) ≡ some n
      → Serves j n (register cam port s)
  unfolding register set_proxy
  register-Serves cam port j n g = elim (Bool-cases (string_key.eqb cam j)) [
    | inl e ↦
        let server : n ≡ s.next_server =
          ground (arith, get-put cam j s.next_server s.server_cache, e, g) in
        (
          record { cam_id = cam; breaker = closed; died_fired = false; is_listening = true },
          ground (arith, server),
          (string_key.eqb_iff cam j).0 e,
          refl,
        )
    | inr e ↦
        let before : get j s.server_cache ≡ some n =
          ground (arith, get-put cam j s.next_server s.server_cache, e, g) in
        let (x, ex, cx, lx) = v.own j n before in (x, ground (arith, ex, v.fresh n), cx, lx)
  ]

  pub register-Inv : (cam : String) (port : ℕ) → Inv (register cam port s)
  unfolding register set_proxy
  register-Inv cam port = record {
    agree = λ j. ground (
      arith,
      get-put cam j port s.port_cache,
      get-put cam j s.next_server s.server_cache,
      v.agree j,
    );
    own = λ j n g. register-Serves cam port j n g;
    fresh = λ m h. ground (arith, v.fresh m);
  }
