-- ===== src/Graph/Search/Edges.antt =====
-- The edge loop of the search keeps the invariant, and makes one queue entry an edge at most.
use mathlib.Core.Path.{ap₂}
use bravo_finder.Prelude.{
  ℕ, suc, ◌+◌, ◌<◌, ◌≤◌, ◌≡◌, ◌≢◌, refl, sym, ap, ◌∙◌, subst, inl, inr, true, false, ◌||◌, List, [],
  ◌∷◌, length, Option, none, some, All, Among, length-perm, Bool-cases, arith,
}
use bravo_finder.Double.{Double}
use bravo_finder.Graph.Nav.{GraphEdge, vertex_count, coord_of, edges_of}
use bravo_finder.Graph.Options.{SeededEndpoint, IsHeap, blocks_node, blocks_edge}
use bravo_finder.Graph.Workspace.{SearchWorkspace, g_at, geo_at, inbound_at, closed}
use bravo_finder.Graph.Select.{edge_allowed}
use bravo_finder.Graph.Search.{Query, outbound, turn_cost, relax_allowed, relax_edge, relax_edges}
use bravo_finder.Graph.Search.Spec.{IsUsable, price, priced_inbound}
use bravo_finder.Graph.Search.Routes.{Route, Keeps, Route-Keeps, Route-closed}
use bravo_finder.Graph.Search.Invariant.{
  Inv, Routed, All-map, offered, offered-heap, offered-closed, offered-Keeps, offered-Inv,
  offered_here, Route-avoids,
}

module _ (D : Double) (q : Query D) (sources : List (SeededEndpoint D)) (V : IsHeap D q.H) where
  open D use {Carrier, add, lt}
  open q use {H, graph, options, heuristic}

  abbrev n : ℕ
  n = vertex_count D graph

  -- The search is at the edges of `u`, which is closed.
  pub record Expanding (c u : ℕ) (inb_u : Carrier) (ws : SearchWorkspace D) : Type 0 where
    pub inv : Inv D q sources V c ws
    pub shut : closed D ws u ≡ true
    pub trail : List ℕ
    pub route : Route D q sources ws u trail
    pub short : length trail ≤ c
    pub heading : inb_u ≡ priced_inbound D q sources (inbound_at D ws u)

  -- `k` queue entries more at most, and what is closed is as it was.
  pub record Grew (k : ℕ) (ws ws' : SearchWorkspace D) : Type 0 where
    pub heap_size : length ws'.heap ≤ length ws.heap + k
    pub still : (w : ℕ) → closed D ws' w ≡ closed D ws w
    pub kept : (w : ℕ) → closed D ws w ≡ true → Keeps D q sources ws ws' w

  pub Keeps-refl : (ws : SearchWorkspace D) (w : ℕ) → Keeps D q sources ws ws w
  Keeps-refl ws w = record {
    g_same = refl;
    geo_same = refl;
    prev_same = refl;
    inbound_same = refl;
    closed_same = λ e. e;
  }

  pub Keeps-trans :
      {a b c : SearchWorkspace D} {w : ℕ}
      → Keeps D q sources a b w
      → Keeps D q sources b c w
      → Keeps D q sources a c w
  Keeps-trans k j = record {
    g_same = j.g_same ∙ k.g_same;
    geo_same = j.geo_same ∙ k.geo_same;
    prev_same = j.prev_same ∙ k.prev_same;
    inbound_same = j.inbound_same ∙ k.inbound_same;
    closed_same = λ e. j.closed_same (k.closed_same e);
  }

  pub Grew-refl : (k : ℕ) (ws : SearchWorkspace D) → Grew k ws ws
  Grew-refl k ws = record {
    heap_size = omega arith;
    still = λ w. refl;
    kept = λ w e. Keeps-refl ws w;
  }

  pub Grew-trans :
      {j k : ℕ} {a b c : SearchWorkspace D} → Grew j a b → Grew k b c → Grew (j + k) a c
  Grew-trans p q' = record {
    heap_size = omega (arith, p.heap_size, q'.heap_size);
    still = λ w. q'.still w ∙ p.still w;
    kept = λ w e. Keeps-trans (p.kept w e) (q'.kept w (p.still w ∙ e));
  }

  -- An offer to a vertex that is not closed.
  pub offered-Grew :
      (ws : SearchWorkspace D) (v : ℕ) (f g geo : Carrier) (prev : Option ℕ) (inbound : Carrier)
      (c : ℕ)
      → Inv D q sources V c ws
      → v < n
      → closed D ws v ≡ false
      → Grew 1 ws (offered D q sources V ws v f g geo prev inbound)
  offered-Grew ws v f g geo prev inbound c inv small unclosed = record {
    heap_size = omega (
      arith,
      ap length (offered-heap D q sources V ws v f g geo prev inbound),
      length-perm (V.push-perm (record { f = f; vertex = v }) ws.heap inv.valid),
    );
    still = offered-closed D q sources V ws v f g geo prev inbound inv.sized small;
    kept = λ w shut.
        offered-Keeps D q sources V ws v f g geo prev inbound inv.sized small w
          (λ same. ground (arith, ap (closed D ws) same));
  }

  -- What is known of `u` stays known while nothing closed changes.
  Expanding-Grew :
      {c u k : ℕ} {inb_u : Carrier} {ws ws' : SearchWorkspace D}
      → Expanding c u inb_u ws
      → Grew k ws ws'
      → Inv D q sources V c ws'
      → Expanding c u inb_u ws'
  Expanding-Grew {u} {ws} {ws'} x grew inv = record {
    inv = inv;
    shut = grew.still u ∙ x.shut;
    trail = x.trail;
    route =
        Route-Keeps D q sources ws ws' x.route
          (All-map x.trail grew.kept (Route-closed D q sources ws x.route x.shut));
    short = x.short;
    heading = x.heading ∙ ap (priced_inbound D q sources) (sym (grew.kept u x.shut).inbound_same);
  }

  module _ (c u : ℕ) (inb_u : Carrier) (e : GraphEdge D) (inside : e.to < n)
      (listed : Among e (edges_of D graph u)) where
    abbrev Moved : SearchWorkspace D → SearchWorkspace D → Type 0
    Moved ws ws' = Expanding c u inb_u ws' × Grew 1 ws ws'

    offer_edge :
        (ws : SearchWorkspace D) (extra f : Carrier)
        → Expanding c u inb_u ws
        → closed D ws e.to ≡ false
        → IsUsable D q sources u e extra
        → Moved ws (
            offered D q sources V ws e.to f
              (add
                (add (add (g_at D ws u) e.distance_nm) extra)
                (turn_cost D q inb_u (outbound D q u e.to)))
              (add (geo_at D ws u) e.distance_nm)
              (some u)
              (outbound D q u e.to))
    offer_edge ws extra f x unclosed usable =
        let outb = outbound D q u e.to in
        let g = add (add (add (g_at D ws u) e.distance_nm) extra) (turn_cost D q inb_u outb) in
        let geo = add (geo_at D ws u) e.distance_nm in
        let ws' = offered D q sources V ws e.to f g geo (some u) outb in
        let grew = offered-Grew ws e.to f g geo (some u) outb c x.inv inside unclosed in
        let apart : u ≢ e.to = λ same. ground (arith, ap (closed D ws) same, x.shut) in
        let k = grew.kept u x.shut in
        let (here_g, here_geo, here_prev, here_inb) =
          offered_here D q sources V ws e.to f g geo (some u) outb x.inv.sized inside in
        let r =
          Route-Keeps D q sources ws ws' x.route
            (All-map x.trail grew.kept (Route-closed D q sources ws x.route x.shut)) in
        let mine : Routed D q sources V c ws' e.to = record {
          trail = e.to ∷ x.trail;
          route =
              Route.over_edge e extra r (grew.still u ∙ x.shut)
                (Route-avoids D q sources V ws e.to x.route unclosed apart) usable here_prev
                (here_g
                  ∙ ap
                      (λ inb.
                        add (add (add (g_at D ws u) e.distance_nm) extra) (turn_cost D q inb outb))
                      x.heading
                  ∙ ap₂ (price D q sources u e extra) (sym k.g_same) (sym k.inbound_same))
                (here_geo ∙ ap (λ d. add d e.distance_nm) (sym k.geo_same)) here_inb;
          short = omega (arith, x.short);
        } in
        let inv =
          offered-Inv D q sources V ws e.to f g geo (some u) outb x.inv.sized inside c x.inv
            unclosed mine in
        (Expanding-Grew x grew inv, grew)

    relax_allowed-Moved :
        (ws : SearchWorkspace D) (o : Option Carrier)
        → edge_allowed D options e u (coord_of D graph u) graph e.to ≡ o
        → Expanding c u inb_u ws
        → closed D ws e.to ≡ false
        → blocks_node options.node_filter e.to ≡ false
        → blocks_edge options.edge_filter u e.to ≡ false
        → Moved ws (relax_allowed D q u inb_u e ws o)
    unfolding relax_allowed
    relax_allowed-Moved ws none allowed x unclosed free open_edge = (x, Grew-refl 1 ws)
    relax_allowed-Moved ws (some extra) allowed x unclosed free open_edge =
        let outb = outbound D q u e.to in
        let tentative =
          add (add (add (g_at D ws u) e.distance_nm) extra) (turn_cost D q inb_u outb) in
        let usable : IsUsable D q sources u e extra = record {
          listed = listed;
          free = free;
          open_edge = open_edge;
          allowed = allowed;
        } in
        elim (Bool-cases (lt tentative (g_at D ws e.to))) [
          | inl better ↦
              rw better (offer_edge ws extra (add tentative (heuristic e.to)) x unclosed usable)
          | inr worse ↦ rw worse (x, Grew-refl 1 ws)
        ]

    relax_edge-Moved :
        (ws : SearchWorkspace D) → Expanding c u inb_u ws → Moved ws (relax_edge D q u inb_u e ws)
    unfolding relax_edge
    relax_edge-Moved ws x =
        elim (Bool-cases (
          closed D ws e.to
          || (blocks_node options.node_filter e.to || blocks_edge options.edge_filter u e.to))) [
            | inl skip ↦ rw skip (x, Grew-refl 1 ws)
            | inr go ↦
                rw go (relax_allowed-Moved ws _ refl x (ground arith) (ground arith) (ground arith))
          ]

  -- All the edges of `u`.
  pub relax_edges-Expanding :
      (c u : ℕ) (inb_u : Carrier) (es : List (GraphEdge D)) (ws : SearchWorkspace D)
      → All (λ (e : GraphEdge D). (e.to < n) × Among e (edges_of D graph u)) es
      → Expanding c u inb_u ws
      → Expanding c u inb_u (relax_edges D q u inb_u es ws)
        × Grew (length es) ws (relax_edges D q u inb_u es ws)
  unfolding relax_edges
  relax_edges-Expanding c u inb_u [] ws h x = (x, Grew-refl 0 ws)
  relax_edges-Expanding c u inb_u (e ∷ es) ws h x =
      let (one, grew) = relax_edge-Moved c u inb_u e h.0.0 h.0.1 ws x in
      let (rest, more) = relax_edges-Expanding c u inb_u es (relax_edge D q u inb_u e ws) h.1 one in
      let size : 1 + length es ≡ suc (length es) = omega arith in
      let all = Grew-trans grew more in
      (
        rest,
        subst (λ (k : ℕ). Grew k ws (relax_edges D q u inb_u es (relax_edge D q u inb_u e ws))) size
            all,
      )
