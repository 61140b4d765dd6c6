-- ===== src/Graph/Search/Reuse.antt =====
-- A workspace after a search, which the next search of the same caller takes over.
use bravo_finder.Prelude.{
  ℕ, zero, suc, ◌≤◌, ◌≡◌, ◌≢◌, ◌⊎◌, refl, sym, ap, subst, ◌∙◌, inl, inr, ◌||◌, List, [], ◌∷◌,
  length-set, Option, none, some, set, All, Bool-cases, arith,
}
use bravo_finder.Prelude.Int.{pos_part}
use bravo_finder.Double.{Double, zero_of, no_bearing}
use bravo_finder.Graph.Nav.{GraphEdge, vertex_count, coord_of, edges_of}
use bravo_finder.Graph.Options.{SeededEndpoint, QueueNode, blocks_node, blocks_edge}
use bravo_finder.Graph.Workspace.{SearchWorkspace, live, g_at, closed, touch, relax, mark_closed}
use bravo_finder.Graph.Select.{edge_allowed}
use bravo_finder.Graph.Tables.{outside}
use bravo_finder.Graph.Search.{
  Query, Loop, Outcome, ShortestPath, search_fuel, push_open, seed_source, seed_sources, finish_at,
  relax_allowed, relax_edge, relax_edges, expand, visit, step, run, report, start_loop,
  find_shortest_path_in, outbound, turn_cost,
}
use bravo_finder.Graph.Search.Seeding.{IsIdle, fresh}

All-set :
    {A : Type 0} (P : A → Type 0) (xs : List A) (i : ℕ) (v : A)
    → All P xs
    → P v
    → All P (set xs i v)
All-set P [] i v h p = tt
All-set P (x ∷ xs) zero v h p = (p, h.1)
All-set P (x ∷ xs) (suc i) v h p = (h.0, All-set P xs i v h.1 p)

module _ (D : Double) (k : ℕ) where
  open D use {Carrier, infinity, add, lt, le}

  abbrev Idle : SearchWorkspace D → Type 0
  Idle ws = IsIdle D k ws

  touch-Idle : (v : ℕ) (ws : SearchWorkspace D) → Idle ws → Idle (touch D v ws)
  unfolding touch
  touch-Idle v ws s = elim (Bool-cases (live D ws v)) [
    | inl e ↦ rw e s
    | inr e ↦
        let z = s.sized in
        let len = length-set ws.stamp v ws.generation in
        rw e (record {
          sized = record {
            g_size = omega (arith, len, z.g_size, length-set ws.g v infinity);
            geo_size = omega (arith, len, z.geo_size, length-set ws.geo v (zero_of D));
            prev_size = omega (arith, len, z.prev_size, length-set {A = Option ℕ} ws.prev v none);
            inbound_size =
                omega (arith, len, z.inbound_size, length-set ws.inbound v (no_bearing D));
            stamp_size = omega arith;
            closed_size = omega (arith, len, z.closed_size);
          };
          generation_eq = s.generation_eq;
          stamped =
              All-set (λ (t : ℕ). t ≤ k) ws.stamp v ws.generation s.stamped
                (omega (arith, s.generation_eq));
          closed_before = s.closed_before;
        })
  ]

  relax-Idle :
      (v : ℕ) (g geo : Carrier) (prev : Option ℕ) (inbound : Carrier) (ws : SearchWorkspace D)
      → Idle ws
      → Idle (relax D v g geo prev inbound ws)
  unfolding relax
  relax-Idle v g geo prev inbound ws s =
      let t = touch-Idle v ws s in
      let z = t.sized in
      record {
        sized = record {
          g_size = omega (arith, z.g_size, length-set (touch D v ws).g v g);
          geo_size = omega (arith, z.geo_size, length-set (touch D v ws).geo v geo);
          prev_size = omega (arith, z.prev_size, length-set (touch D v ws).prev v prev);
          inbound_size = omega (arith, z.inbound_size, length-set (touch D v ws).inbound v inbound);
          stamp_size = z.stamp_size;
          closed_size = z.closed_size;
        };
        generation_eq = t.generation_eq;
        stamped = t.stamped;
        closed_before = t.closed_before;
      }

  mark_closed-Idle : (v : ℕ) (ws : SearchWorkspace D) → Idle ws → Idle (mark_closed D v ws)
  unfolding mark_closed
  mark_closed-Idle v ws s =
      let z = s.sized in
      record {
        sized = record {
          g_size = z.g_size;
          geo_size = z.geo_size;
          prev_size = z.prev_size;
          inbound_size = z.inbound_size;
          stamp_size = z.stamp_size;
          closed_size = omega (arith, z.closed_size, length-set ws.closed_stamp v ws.generation);
        };
        generation_eq = s.generation_eq;
        stamped = s.stamped;
        closed_before =
            All-set (λ (t : ℕ). t ≤ k) ws.closed_stamp v ws.generation s.closed_before
              (omega (arith, s.generation_eq));
      }

  heap-Idle :
      (h : List (QueueNode D)) (ws : SearchWorkspace D) → Idle ws → Idle (record ws { heap = h })
  heap-Idle h ws s =
      let z = s.sized in
      record {
        sized = record {
          g_size = z.g_size;
          geo_size = z.geo_size;
          prev_size = z.prev_size;
          inbound_size = z.inbound_size;
          stamp_size = z.stamp_size;
          closed_size = z.closed_size;
        };
        generation_eq = s.generation_eq;
        stamped = s.stamped;
        closed_before = s.closed_before;
      }

module _ (D : Double) (q : Query D) (k : ℕ) where
  open D use {Carrier, add, lt, le}
  open q use {graph, options, heuristic, source_bearing, goal_seed}

  abbrev Kept : SearchWorkspace D → Type 0
  Kept ws = IsIdle D k ws

  offer-Idle :
      (v : ℕ) (f g geo : Carrier) (prev : Option ℕ) (inbound : Carrier) (ws : SearchWorkspace D)
      → Kept ws
      → Kept (push_open D q v f (relax D v g geo prev inbound ws))
  unfolding push_open
  offer-Idle v f g geo prev inbound ws s =
      heap-Idle D k _ (relax D v g geo prev inbound ws) (relax-Idle D k v g geo prev inbound ws s)

  seed_sources-Idle :
      (ss : List (SeededEndpoint D)) (ws : SearchWorkspace D)
      → Kept ws
      → Kept (seed_sources D q ss ws)
  unfolding seed_sources seed_source
  seed_sources-Idle [] ws s = s
  seed_sources-Idle (x ∷ ss) ws s =
      let v = pos_part x.vertex in
      seed_sources-Idle ss (seed_source D q x ws)
        (elim (Bool-cases (outside x.vertex (vertex_count D graph))) [
          | inl out ↦ rw out s
          | inr within ↦ elim (Bool-cases (blocks_node options.node_filter v)) [
            | inl banned ↦ rw (within, banned) s
            | inr free ↦ elim (Bool-cases (lt x.cost (g_at D ws v))) [
              | inr worse ↦ rw (within, free, worse) s
              | inl better ↦ rw (within, free, better) (offer-Idle v _ x.cost x.cost none _ ws s)
            ]
          ]
        ])

  relax_allowed-Idle :
      (u : ℕ) (inb : Carrier) (e : GraphEdge D) (ws : SearchWorkspace D) (o : Option Carrier)
      → Kept ws
      → Kept (relax_allowed D q u inb e ws o)
  unfolding relax_allowed
  relax_allowed-Idle u inb e ws none s = s
  relax_allowed-Idle u inb e ws (some extra) s =
      elim (Bool-cases (
        lt
          (add (add (add (g_at D ws u) e.distance_nm) extra)
            (turn_cost D q inb (outbound D q u e.to)))
          (g_at D ws e.to))) [
            | inl better ↦ rw better (offer-Idle e.to _ _ _ (some u) _ ws s)
            | inr worse ↦ rw worse s
          ]

  relax_edges-Idle :
      (u : ℕ) (inb : Carrier) (es : List (GraphEdge D)) (ws : SearchWorkspace D)
      → Kept ws
      → Kept (relax_edges D q u inb es ws)
  unfolding relax_edges relax_edge
  relax_edges-Idle u inb [] ws s = s
  relax_edges-Idle u inb (e ∷ es) ws s =
      relax_edges-Idle u inb es (relax_edge D q u inb e ws)
        (elim (Bool-cases (
          closed D ws e.to
          || (blocks_node options.node_filter e.to || blocks_edge options.edge_filter u e.to))) [
            | inl skip ↦ rw skip s
            | inr go ↦ rw go (
                relax_allowed-Idle u inb e ws
                  (edge_allowed D options e u (coord_of D graph u) graph e.to) s)
          ])

  finish_at-ws : (u : ℕ) (l : Loop D) → (finish_at D q u l).ws ≡ l.ws
  unfolding finish_at
  finish_at-ws u l = ground arith

  expand-Idle : (u : ℕ) (l : Loop D) → Kept l.ws → Kept (expand D q u l).ws
  unfolding expand
  expand-Idle u l s =
      relax_edges-Idle u _ (edges_of D graph u)
        (finish_at D q u (record l { ws = mark_closed D u l.ws })).ws
        (subst Kept (sym (finish_at-ws u (record l { ws = mark_closed D u l.ws })))
          (mark_closed-Idle D k u l.ws s))

  abbrev OutcomeKept : Outcome D → Type 0
  OutcomeKept (Outcome.done l) = Kept l.ws
  OutcomeKept (Outcome.next l) = Kept l.ws

  visit-Idle : (top : QueueNode D) (l : Loop D) → Kept l.ws → OutcomeKept (visit D q top l)
  unfolding visit
  visit-Idle top l s = elim (Bool-cases (closed D l.ws top.vertex)) [
    | inl shut ↦ rw shut s
    | inr unclosed ↦ elim (Bool-cases (le l.best_total top.f)) [
      | inl enough ↦ rw (unclosed, enough) s
      | inr go ↦ rw (unclosed, go) (expand-Idle top.vertex l s)
    ]
  ]

  step-Idle :
      (l : Loop D) (o : Option (QueueNode D × List (QueueNode D)))
      → q.H.pop l.ws.heap ≡ o
      → Kept l.ws
      → OutcomeKept (step D q l)
  unfolding step
  step-Idle l none e s = rw (e, step) s
  step-Idle l (some (top, rest)) e s = rw (e, step) (visit-Idle top _ (heap-Idle D k rest l.ws s))

  abbrev after : ℕ → Outcome D → Option (Loop D)
  after fuel (Outcome.done l) = some l
  after fuel (Outcome.next l) = run D q fuel l

  abbrev with_workspace :
      Loop D → Option (ShortestPath D) → Option (ShortestPath D × SearchWorkspace D)
  with_workspace l none = none
  with_workspace l (some p) = some (p, l.ws)

  abbrev handed_back : ℕ → Option (Loop D) → Option (ShortestPath D × SearchWorkspace D)
  handed_back fuel none = none
  handed_back fuel (some l) = with_workspace l (report D q fuel l l.best_goal)

  run-Idle : (fuel : ℕ) (l l' : Loop D) → Kept l.ws → run D q fuel l ≡ some l' → Kept l'.ws
  unfolding run
  run-Idle zero l l' s e = cc
  run-Idle (suc fuel) l l' s e =
      go (step D q l) refl (step-Idle l (q.H.pop l.ws.heap) refl s) (λ m t. run-Idle fuel m l' t)
    where
      go :
          (o : Outcome D)
          → step D q l ≡ o
          → OutcomeKept o
          → ((m : Loop D) → Kept m.ws → run D q fuel m ≡ some l' → Kept l'.ws)
          → Kept l'.ws
      go (Outcome.done m) e₂ t again =
          let at_end : some m ≡ some l' = sym (ap (after fuel) e₂) ∙ e in
          let same : m ≡ l' = cc in subst (λ (x : Loop D). Kept x.ws) same t
      go (Outcome.next m) e₂ t again = again m t (sym (ap (after fuel) e₂) ∙ e)

  -- The workspace that a search hands back is idle again, one generation later.
  pub find_shortest_path_in-Idle :
      (sources : List (SeededEndpoint D)) (ws : SearchWorkspace D) (p : ShortestPath D)
      (ws' : SearchWorkspace D)
      → Kept (fresh D (vertex_count D graph) ws)
      → Kept ws ⊎ (sources ≢ [])
      → find_shortest_path_in D q sources ws ≡ some (p, ws')
      → Kept ws'
  unfolding find_shortest_path_in start_loop
  find_shortest_path_in-Idle [] ws p ws' fresh_idle (inl idle) e =
      let same : ws ≡ ws' = cc in subst Kept same idle
  find_shortest_path_in-Idle [] ws p ws' fresh_idle (inr some_source) e = absurd (some_source refl)
  find_shortest_path_in-Idle (s ∷ ss) ws p ws' fresh_idle o e =
      searched (run D q (search_fuel D graph (s ∷ ss)) (start_loop D q (s ∷ ss) ws)) refl e
    where
      reported :
          (l : Loop D) (o : Option (ShortestPath D))
          → with_workspace l o ≡ some (p, ws')
          → Kept l.ws
          → Kept ws'
      reported l none e₂ t = cc
      reported l (some p₂) e₂ t = let same : l.ws ≡ ws' = cc in subst Kept same t

      searched :
          (r : Option (Loop D))
          → run D q (search_fuel D graph (s ∷ ss)) (start_loop D q (s ∷ ss) ws) ≡ r
          → handed_back (search_fuel D graph (s ∷ ss)) r ≡ some (p, ws')
          → Kept ws'
      searched none r e₂ = cc
      searched (some l) r e₂ =
          reported l (report D q (search_fuel D graph (s ∷ ss)) l l.best_goal) e₂ (
            run-Idle (search_fuel D graph (s ∷ ss)) (start_loop D q (s ∷ ss) ws) l
              (seed_sources-Idle (s ∷ ss) _
                (heap-Idle D k [] (fresh D (vertex_count D graph) ws) fresh_idle))
              r)
