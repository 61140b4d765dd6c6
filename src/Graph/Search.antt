-- ===== src/Graph/Search.antt =====
-- The A* search of libs/engine/core/graph/astar.cc. The priority queue is the parameter `H`; the
-- heuristic is the function that `MultiGoalHeuristic` memoizes. The while loops take fuel, and
-- `none` is a loop that ran out of it. The source asserts that the tables have an entry for each
-- vertex, as `FindShortestPathMulti` makes them; here a vertex past the end of `goal_seed` is no goal.
pub mod Spec
pub mod Routes
pub mod Invariant
pub mod Edges
pub mod Progress
pub mod Steps
pub mod Rounds
pub mod Seeding
pub mod Goals
pub mod Answers
pub mod Reuse
pub mod Handover
use mathlib.Core.List.{reverse}
use bravo_finder.Prelude.{
  ℕ, zero, suc, ◌+◌, ◌-◌, Bool, true, false, not, ◌&&◌, ◌||◌, List, [], ◌∷◌, length, get_or, Option,
  none, some, if◌then◌else◌,
}
use bravo_finder.Prelude.Int.{ℤ, pos, pos_part}
use bravo_finder.Double.{Double, zero_of, no_bearing}
use bravo_finder.Coordinate.{bearing_to}
use bravo_finder.Graph.Nav.{GraphEdge, NavGraph, vertex_count, coord_of, edges_of}
use bravo_finder.Graph.Options.{
  SearchOptions, SeededEndpoint, QueueNode, OpenSet, blocks_node, blocks_edge, turn_angle_deg,
  turn_cost_of,
}
use bravo_finder.Graph.Workspace.{
  SearchWorkspace, new_workspace, reset, next_generation, g_at, geo_at, prev_at, inbound_at, closed,
  relax, mark_closed,
}
use bravo_finder.Graph.Select.{edge_allowed}
use bravo_finder.Graph.Tables.{
  outside, build_seed_table, build_bearing_table, new_heuristic, heuristic_value, not_an_endpoint,
}

module _ (D : Double) where
  open D use {Carrier, infinity, add, lt, le}

  pub record ShortestPath : Type 0 where
    pub vertices : List ℕ
    pub distance_nm : Carrier
    pub cost : Carrier
    pub found : Bool

  abbrev pub not_found : ShortestPath
  not_found = record { vertices = []; distance_nm = zero_of D; cost = zero_of D; found = false }

  -- The variables of the main loop. The open set is the workspace's heap.
  pub record Loop : Type 0 where
    pub ws : SearchWorkspace D
    pub best_total : Carrier
    pub best_goal : Option ℕ

  pub data Outcome : Type 0 where
    done next : Loop → Outcome

  unfoldable pub degree_sum : ℕ → NavGraph D → ℕ
  degree_sum zero graph = 0
  degree_sum (suc v) graph = length (edges_of D graph v) + degree_sum v graph

  -- Every vertex is expanded once, and every edge and every source makes one entry at most.
  unfoldable pub search_fuel : NavGraph D → List (SeededEndpoint D) → ℕ
  search_fuel graph sources = length sources + degree_sum (vertex_count D graph) graph + 1

-- The parameters of one search.
pub record Query (D : Double) : Type 0 where
  pub H : OpenSet D
  pub graph : NavGraph D
  pub goal_seed : List D.Carrier
  pub source_bearing : List D.Carrier
  pub goal_bearing : List D.Carrier
  pub options : SearchOptions D
  pub heuristic : ℕ → D.Carrier

module _ (D : Double) (q : Query D) where
  open D use {Carrier, infinity, add, lt, le}
  open q use {H, graph, goal_seed, source_bearing, goal_bearing, options, heuristic}

  unfoldable pub push_open : ℕ → Carrier → SearchWorkspace D → SearchWorkspace D
  push_open v f ws = record ws { heap = H.push (record { f = f; vertex = v }) ws.heap }

  unfoldable pub seed_source : SeededEndpoint D → SearchWorkspace D → SearchWorkspace D
  unfolding push_open
  seed_source s ws =
      let v = pos_part s.vertex in
      if outside s.vertex (vertex_count D graph)
      then ws
      else if blocks_node options.node_filter v
      then ws
      else if lt s.cost (g_at D ws v)
      then push_open v (add s.cost (heuristic v))
          (relax D v s.cost s.cost none (get_or source_bearing v (zero_of D)) ws)
      else ws

  unfoldable pub seed_sources : List (SeededEndpoint D) → SearchWorkspace D → SearchWorkspace D
  seed_sources [] ws = ws
  seed_sources (s ∷ ss) ws = seed_sources ss (seed_source s ws)

  -- The turn from the path's inbound heading at `u` onto the procedure's outbound heading.
  unfoldable pub goal_turn : ℕ → SearchWorkspace D → Carrier → Carrier
  goal_turn u ws total =
      let inb = inbound_at D ws u in
      let outb = get_or goal_bearing u (zero_of D) in
      if options.turn_penalty.enabled && (le (zero_of D) inb && le (zero_of D) outb)
      then add total (turn_cost_of D options.turn_penalty (turn_angle_deg D inb outb))
      else total

  unfoldable pub finish_at : ℕ → Loop D → Loop D
  unfolding goal_turn
  finish_at u l =
      let seed = get_or goal_seed u (not_an_endpoint D) in
      let total = goal_turn u l.ws (add (g_at D l.ws u) seed) in
      if le (zero_of D) seed && lt total l.best_total
      then record l { best_total = total; best_goal = some u }
      else l

  -- The heading along the edge from `u` to `v`, and the price of turning onto it from `inb`.
  unfoldable pub outbound : ℕ → ℕ → Carrier
  outbound u v =
      if options.turn_penalty.enabled
      then bearing_to D (coord_of D graph u) (coord_of D graph v)
      else no_bearing D

  unfoldable pub turn_cost : Carrier → Carrier → Carrier
  turn_cost inb outb =
      if options.turn_penalty.enabled && le (zero_of D) inb
      then turn_cost_of D options.turn_penalty (turn_angle_deg D inb outb)
      else zero_of D

  unfoldable pub relax_allowed :
      ℕ → Carrier → GraphEdge D → SearchWorkspace D → Option Carrier → SearchWorkspace D
  unfolding outbound turn_cost push_open
  relax_allowed u inb_u e ws none = ws
  relax_allowed u inb_u e ws (some extra_cost) =
      let outb = outbound u e.to in
      let tentative =
        add (add (add (g_at D ws u) e.distance_nm) extra_cost) (turn_cost inb_u outb) in
      if lt tentative (g_at D ws e.to)
      then push_open e.to (add tentative (heuristic e.to))
          (relax D e.to tentative (add (geo_at D ws u) e.distance_nm) (some u) outb ws)
      else ws

  unfoldable pub relax_edge : ℕ → Carrier → GraphEdge D → SearchWorkspace D → SearchWorkspace D
  unfolding relax_allowed
  relax_edge u inb_u e ws =
      if closed D ws e.to
        || (blocks_node options.node_filter e.to || blocks_edge options.edge_filter u e.to)
      then ws
      else relax_allowed u inb_u e ws (edge_allowed D options e u (coord_of D graph u) graph e.to)

  unfoldable pub relax_edges :
      ℕ → Carrier → List (GraphEdge D) → SearchWorkspace D → SearchWorkspace D
  relax_edges u inb_u [] ws = ws
  relax_edges u inb_u (e ∷ es) ws = relax_edges u inb_u es (relax_edge u inb_u e ws)

  -- The loop's body for a node that is not closed and can still improve the result.
  unfoldable pub expand : ℕ → Loop D → Loop D
  unfolding finish_at
  expand u l =
      let l' = finish_at u (record l { ws = mark_closed D u l.ws }) in
      let inb_u = if options.turn_penalty.enabled then inbound_at D l'.ws u else no_bearing D in
      record l' { ws = relax_edges u inb_u (edges_of D graph u) l'.ws }

  unfoldable pub visit : QueueNode D → Loop D → Outcome D
  visit top l =
      if closed D l.ws top.vertex
      then Outcome.next l
      else if le l.best_total top.f
      then Outcome.done l
      else Outcome.next (expand top.vertex l)

  unfoldable pub step : Loop D → Outcome D
  step l = elim (H.pop l.ws.heap) [
    | none ↦ Outcome.done l
    | some (top, rest) ↦ visit top (record l { ws = record (l.ws) { heap = rest } })
  ]

  unfoldable pub run : ℕ → Loop D → Option (Loop D)
  run zero l = none
  run (suc fuel) l = elim (step l) [ Outcome.done l' ↦ some l' | Outcome.next l' ↦ run fuel l' ]

  -- `for (at = best_goal; at != kNoVertex; at = Prev(at)) push_back(at)`, and the reversal.
  unfoldable pub walk_back : ℕ → SearchWorkspace D → Option ℕ → List ℕ → Option (List ℕ)
  walk_back fuel ws none out = some out
  walk_back zero ws (some at) out = none
  walk_back (suc fuel) ws (some at) out = walk_back fuel ws (prev_at D ws at) (at ∷ out)

  unfoldable pub report : ℕ → Loop D → Option ℕ → Option (ShortestPath D)
  unfolding walk_back
  report fuel l none = some (not_found D)
  report fuel l (some u) = elim (walk_back fuel l.ws (some u) []) [
    | none ↦ none
    | some vertices ↦ some (record {
      vertices = vertices;
      distance_nm = add (geo_at D l.ws u) (get_or goal_seed u (not_an_endpoint D));
      cost = l.best_total;
      found = true;
    })
  ]

  unfoldable pub start_loop : List (SeededEndpoint D) → SearchWorkspace D → Loop D
  unfolding seed_sources
  start_loop sources ws =
      let fresh = next_generation D (reset D (vertex_count D graph) ws) in
      record {
        ws = seed_sources sources (record fresh { heap = [] });
        best_total = infinity;
        best_goal = none;
      }

  -- The search with a workspace of the caller's: the path, and the workspace after it. No source is
  -- answered before the workspace is touched.
  unfoldable pub find_shortest_path_in :
      List (SeededEndpoint D) → SearchWorkspace D → Option (ShortestPath D × SearchWorkspace D)
  find_shortest_path_in [] ws = some (not_found D, ws)
  find_shortest_path_in (s ∷ ss) ws =
      let fuel = search_fuel D graph (s ∷ ss) in
      elim (run fuel (start_loop (s ∷ ss) ws)) [
        | none ↦ none
        | some l ↦ elim (report fuel l l.best_goal) [ none ↦ none | some p ↦ some (p, l.ws) ]
      ]

module _ (D : Double) (H : OpenSet D) (graph : NavGraph D) where
  open D use {Carrier}

  abbrev pub query_for :
      List (SeededEndpoint D) → List (SeededEndpoint D) → SearchOptions D → Query D
  query_for sources goals options =
      let n = vertex_count D graph in
      record {
        H = H;
        graph = graph;
        goal_seed = build_seed_table D goals n;
        source_bearing = build_bearing_table D sources n;
        goal_bearing = build_bearing_table D goals n;
        options = options;
        heuristic = heuristic_value D (new_heuristic D graph goals);
      }

  unfoldable pub find_shortest_path_multi :
      List (SeededEndpoint D) → List (SeededEndpoint D) → SearchOptions D → Option (ShortestPath D)
  unfolding find_shortest_path_in
  find_shortest_path_multi sources goals options =
      elim (find_shortest_path_in D (query_for sources goals options) sources (new_workspace D)) [
        | none ↦ none
        | some (p, _) ↦ some p
      ]

  abbrev seedless : ℤ → SeededEndpoint D
  seedless v = record { vertex = v; cost = zero_of D; bearing = no_bearing D }

  unfoldable pub find_shortest_path : ℤ → ℤ → SearchOptions D → Option (ShortestPath D)
  unfolding find_shortest_path_multi
  find_shortest_path start goal options =
      find_shortest_path_multi (seedless start ∷ []) (seedless goal ∷ []) options
