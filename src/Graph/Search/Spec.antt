-- ===== src/Graph/Search/Spec.antt =====
-- What a search is to find, with no workspace and no queue: a walk along usable edges, priced as the
-- program prices it, from a source to a goal.
use mathlib.Core.List.{reverse}
use bravo_finder.Prelude.{
  ℕ, ◌<◌, ◌≡◌, ◌≢◌, true, false, ◌&&◌, List, [], ◌∷◌, get_or, some, if◌then◌else◌, All, Among,
}
use bravo_finder.Prelude.Int.{pos_part}
use bravo_finder.Double.{Double, zero_of, no_bearing}
use bravo_finder.Graph.Nav.{GraphEdge, NavGraph, vertex_count, coord_of, edges_of}
use bravo_finder.Graph.Options.{
  SeededEndpoint, blocks_node, blocks_edge, turn_angle_deg, turn_cost_of,
}
use bravo_finder.Graph.Select.{edge_allowed}
use bravo_finder.Graph.Tables.{outside, not_an_endpoint}
use bravo_finder.Graph.Search.{Query, ShortestPath, outbound, turn_cost}

-- The edges of a graph end at its vertices.
abbrev pub IsWellFormed : (D : Double) → NavGraph D → Type 0
IsWellFormed D graph = All (λ (e : GraphEdge D). e.to < vertex_count D graph) graph.edges

abbrev pub Nodup : List ℕ → Type 0
Nodup [] = Unit {0}
Nodup (v ∷ vs) = All (λ w. w ≢ v) vs × Nodup vs

module _ (D : Double) (q : Query D) (sources : List (SeededEndpoint D)) where
  open D use {Carrier, add, le}
  open q use {graph, goal_seed, source_bearing, goal_bearing, options}

  -- A source that the search may start from.
  pub record IsStart (s : SeededEndpoint D) : Type 0 where
    pub listed : Among s sources
    pub within : outside s.vertex (vertex_count D graph) ≡ false
    pub free : blocks_node options.node_filter (pos_part s.vertex) ≡ false

  -- An edge that the search may take from `u`, with what the constraints add to its length.
  pub record IsUsable (u : ℕ) (e : GraphEdge D) (extra : Carrier) : Type 0 where
    pub listed : Among e (edges_of D graph u)
    pub free : blocks_node options.node_filter e.to ≡ false
    pub open_edge : blocks_edge options.edge_filter u e.to ≡ false
    pub allowed : edge_allowed D options e u (coord_of D graph u) graph e.to ≡ some extra

  -- The heading that turns are priced from.
  abbrev pub priced_inbound : Carrier → Carrier
  priced_inbound inb = if options.turn_penalty.enabled then inb else no_bearing D

  -- The price after one more edge.
  abbrev pub price : ℕ → GraphEdge D → Carrier → Carrier → Carrier → Carrier
  price u e extra g inb =
      add (add (add g e.distance_nm) extra)
        (turn_cost D q (priced_inbound inb) (outbound D q u e.to))

  -- A walk to a vertex: its price, its length, the heading at its end, and its vertices, last first.
  pub data Walk : ℕ → Carrier → Carrier → Carrier → List ℕ → Type 0 where
    start :
        (s : SeededEndpoint D)
        → IsStart s
        → Walk
            (pos_part s.vertex)
            s.cost
            s.cost
            (get_or source_bearing (pos_part s.vertex) (zero_of D))
            (pos_part s.vertex ∷ [])
    along :
        {u : ℕ} {g geo inb : Carrier} {us : List ℕ}
        → Walk u g geo inb us
        → (e : GraphEdge D) (extra : Carrier) → IsUsable u e extra
        → Walk e.to
            (price u e extra g inb)
            (add geo e.distance_nm)
            (outbound D q u e.to)
            (e.to ∷ us)

  -- The price of ending at `u` with the heading `inb`, as the program computes it.
  abbrev pub total_at : ℕ → Carrier → Carrier → Carrier
  total_at u g inb =
      let outb = get_or goal_bearing u (zero_of D) in
      let total = add g (get_or goal_seed u (not_an_endpoint D)) in
      if options.turn_penalty.enabled && (le (zero_of D) inb && le (zero_of D) outb)
      then add total (turn_cost_of D options.turn_penalty (turn_angle_deg D inb outb))
      else total

  -- A reported path is a walk with no vertex twice, ends at a goal, and reports the walk's own
  -- length and price with the goal's added.
  pub record IsAnswer (p : ShortestPath D) : Type 0 where
    pub goal : ℕ
    pub g : Carrier
    pub geo : Carrier
    pub inb : Carrier
    pub back : List ℕ
    pub walk : Walk goal g geo inb back
    pub simple : Nodup back
    pub order : p.vertices ≡ reverse back
    pub is_goal : le (zero_of D) (get_or goal_seed goal (not_an_endpoint D)) ≡ true
    pub priced : p.cost ≡ total_at goal g inb
    pub measured : p.distance_nm ≡ add geo (get_or goal_seed goal (not_an_endpoint D))
