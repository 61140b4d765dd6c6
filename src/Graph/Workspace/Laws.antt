-- ===== src/Graph/Workspace/Laws.antt =====
-- Reads of the workspace after its writes.
use bravo_finder.Prelude.{
  ℕ, ◌<◌, ◌≤◌, ◌≡◌, refl, ◌∙◌, inl, inr, true, false, length, length-set, get_or, get_or-set,
  get_or-set_self, get_or-set_ne, ◌≢◌, Option, none, some, ◌==◌, if◌then◌else◌, Bool-cases, arith,
}
use bravo_finder.Double.{Double, zero_of, no_bearing}
use bravo_finder.Graph.Workspace.{
  SearchWorkspace, live, g_at, geo_at, prev_at, inbound_at, closed, touch, relax, mark_closed,
}

module _ (D : Double) where
  open D use {Carrier, infinity}

  -- Every array has a slot for each of `n` vertices.
  pub record IsSized (n : ℕ) (ws : SearchWorkspace D) : Type 0 where
    pub g_size : n ≤ length ws.g
    pub geo_size : n ≤ length ws.geo
    pub prev_size : n ≤ length ws.prev
    pub inbound_size : n ≤ length ws.inbound
    pub stamp_size : n ≤ length ws.stamp
    pub closed_size : n ≤ length ws.closed_stamp

  touch-IsSized : (n v : ℕ) (ws : SearchWorkspace D) → IsSized n ws → IsSized n (touch D v ws)
  unfolding touch
  touch-IsSized n v ws s = elim (Bool-cases (live D ws v)) [
    | inl e ↦ rw e s
    | inr e ↦ rw e (record {
      g_size = omega (arith, s.g_size, length-set ws.g v infinity);
      geo_size = omega (arith, s.geo_size, length-set ws.geo v (zero_of D));
      prev_size = omega (arith, s.prev_size, length-set {A = Option ℕ} ws.prev v none);
      inbound_size = omega (arith, s.inbound_size, length-set ws.inbound v (no_bearing D));
      stamp_size = omega (arith, s.stamp_size, length-set ws.stamp v ws.generation);
      closed_size = s.closed_size;
    })
  ]

  -- Touching makes the slot live and leaves the others as they read.
  touch-live :
      (v w : ℕ) (ws : SearchWorkspace D)
      → v < length ws.stamp
      → live D (touch D v ws) w ≡ (if v == w then true else live D ws w)
  unfolding touch
  touch-live v w ws h = elim (Bool-cases (live D ws v)) [
    | inl e ↦ rw e (unfold live in ground (arith, e))
    | inr e ↦ rw e (unfold live in ground (arith, get_or-set ws.stamp v w ws.generation 0))
  ]

  closed-touch : (v w : ℕ) (ws : SearchWorkspace D) → closed D (touch D v ws) w ≡ closed D ws w
  unfolding touch
  closed-touch v w ws = elim (Bool-cases (live D ws v)) [
    | inl e ↦ rw e
    | inr e ↦ rw e (unfold closed in refl)
  ]

  -- A slot that is touched keeps no other slot from its value.
  pub record Untouched (v w : ℕ) (ws ws' : SearchWorkspace D) : Type 0 where
    pub g_same : get_or ws'.g w (zero_of D) ≡ get_or ws.g w (zero_of D)
    pub geo_same : get_or ws'.geo w (zero_of D) ≡ get_or ws.geo w (zero_of D)
    pub prev_same : get_or ws'.prev w (some 0) ≡ get_or ws.prev w (some 0)
    pub inbound_same : get_or ws'.inbound w (zero_of D) ≡ get_or ws.inbound w (zero_of D)

  touch-Untouched :
      (v w : ℕ) (ws : SearchWorkspace D) → (v == w) ≡ false → Untouched v w ws (touch D v ws)
  unfolding touch
  touch-Untouched v w ws ne =
      let apart : v ≢ w = ground arith in
      elim (Bool-cases (live D ws v)) [
        | inl e ↦
            rw e (record { g_same = refl; geo_same = refl; prev_same = refl; inbound_same = refl })
        | inr e ↦ rw e (record {
          g_same = get_or-set_ne ws.g v w infinity (zero_of D) apart;
          geo_same = get_or-set_ne ws.geo v w (zero_of D) (zero_of D) apart;
          prev_same = get_or-set_ne ws.prev v w none (some 0) apart;
          inbound_same = get_or-set_ne ws.inbound v w (no_bearing D) (zero_of D) apart;
        })
      ]

  module _ (n v : ℕ) (g geo : Carrier) (prev : Option ℕ) (inbound : Carrier) where
    pub relax-IsSized :
        (ws : SearchWorkspace D) → IsSized n ws → IsSized n (relax D v g geo prev inbound ws)
    unfolding relax
    relax-IsSized ws s =
        let t = touch-IsSized n v ws s in
        record {
          g_size = omega (arith, t.g_size, length-set (touch D v ws).g v g);
          geo_size = omega (arith, t.geo_size, length-set (touch D v ws).geo v geo);
          prev_size = omega (arith, t.prev_size, length-set (touch D v ws).prev v prev);
          inbound_size = omega (arith, t.inbound_size, length-set (touch D v ws).inbound v inbound);
          stamp_size = t.stamp_size;
          closed_size = t.closed_size;
        }

    -- What a write at `v` lets `w` read.
    pub record Relaxed (ws ws' : SearchWorkspace D) (w : ℕ) : Type 0 where
      pub live_eq : live D ws' w ≡ (if v == w then true else live D ws w)
      pub g_eq : g_at D ws' w ≡ (if v == w then g else g_at D ws w)
      pub geo_eq : geo_at D ws' w ≡ (if v == w then geo else geo_at D ws w)
      pub prev_eq : prev_at D ws' w ≡ (if v == w then prev else prev_at D ws w)
      pub inbound_eq : inbound_at D ws' w ≡ (if v == w then inbound else inbound_at D ws w)
      pub closed_eq : closed D ws' w ≡ closed D ws w

    pub relax-Relaxed :
        (ws : SearchWorkspace D) (w : ℕ)
        → IsSized n ws
        → v < n
        → Relaxed ws (relax D v g geo prev inbound ws) w
    unfolding relax
    relax-Relaxed ws w s h =
        let t = touch-IsSized n v ws s in
        let alive = touch-live v w ws (omega (arith, s.stamp_size)) in
        elim (Bool-cases (v == w)) [
          | inl same ↦
              let e : v ≡ w = ground arith in
              let on : live D (touch D v ws) w ≡ true = alive ∙ rw same refl in
              record {
                live_eq = alive;
                g_eq =
                    unfold g_at in
                    rw (same, on, ← e)
                      (get_or-set_self (touch D v ws).g v g (zero_of D) (omega (arith, t.g_size)));
                geo_eq =
                    unfold geo_at in
                    rw (same, on, ← e)
                      (get_or-set_self (touch D v ws).geo v geo (zero_of D)
                        (omega (arith, t.geo_size)));
                prev_eq =
                    unfold prev_at in
                    rw (same, on, ← e)
                      (get_or-set_self (touch D v ws).prev v prev (some 0)
                        (omega (arith, t.prev_size)));
                inbound_eq =
                    unfold inbound_at in
                    rw (same, on, ← e)
                      (get_or-set_self (touch D v ws).inbound v inbound (zero_of D)
                        (omega (arith, t.inbound_size)));
                closed_eq = unfold closed in closed-touch v w ws;
              }
          | inr ne ↦
              let apart : v ≢ w = ground arith in
              let on : live D (touch D v ws) w ≡ live D ws w = alive ∙ rw ne refl in
              let u = touch-Untouched v w ws ne in
              record {
                live_eq = alive;
                g_eq =
                    unfold g_at in
                    rw (ne, on, get_or-set_ne (touch D v ws).g v w g (zero_of D) apart, u.g_same)
                      refl;
                geo_eq =
                    unfold geo_at in
                    rw
                      (
                        ne,
                        on,
                        get_or-set_ne (touch D v ws).geo v w geo (zero_of D) apart,
                        u.geo_same,
                      )
                      refl;
                prev_eq =
                    unfold prev_at in
                    rw
                      (
                        ne,
                        on,
                        get_or-set_ne (touch D v ws).prev v w prev (some 0) apart,
                        u.prev_same,
                      )
                      refl;
                inbound_eq =
                    unfold inbound_at in
                    rw
                      (
                        ne,
                        on,
                        get_or-set_ne (touch D v ws).inbound v w inbound (zero_of D) apart,
                        u.inbound_same,
                      )
                      refl;
                closed_eq = unfold closed in closed-touch v w ws;
              }
        ]

  pub mark_closed-IsSized :
      (n v : ℕ) (ws : SearchWorkspace D) → IsSized n ws → IsSized n (mark_closed D v ws)
  unfolding mark_closed
  mark_closed-IsSized n v ws s = record {
    g_size = s.g_size;
    geo_size = s.geo_size;
    prev_size = s.prev_size;
    inbound_size = s.inbound_size;
    stamp_size = s.stamp_size;
    closed_size = omega (arith, s.closed_size, length-set ws.closed_stamp v ws.generation);
  }

  pub closed-mark_closed :
      (n v w : ℕ) (ws : SearchWorkspace D)
      → IsSized n ws
      → v < n
      → closed D (mark_closed D v ws) w ≡ (if v == w then true else closed D ws w)
  unfolding closed mark_closed
  closed-mark_closed n v w ws s h =
      ground (arith, s.closed_size, get_or-set ws.closed_stamp v w ws.generation 0)
