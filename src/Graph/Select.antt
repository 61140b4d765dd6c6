-- ===== src/Graph/Select.antt =====
-- Constraint evaluation and the choice among parallel edges, of libs/engine/core/graph/astar.cc.
use bravo_finder.Prelude.{ℕ, not, List, [], ◌∷◌, Option, none, some, ◌==◌, if◌then◌else◌}
use bravo_finder.Double.{Double, zero_of}
use bravo_finder.Coordinate.{Coordinate}
use bravo_finder.Graph.Nav.{
  GraphEdge, NavGraph, RouteRequest, EdgeContext, Constraint, coord_of, edges_of,
}
use bravo_finder.Graph.Options.{SearchOptions}

module _ (D : Double) where
  open D use {Carrier, infinity, add, lt}

  -- The loop over the constraints: no value if one blocks, otherwise the penalties added to `extra`.
  unfoldable pub evaluate_all :
      List (Constraint D) → EdgeContext D → RouteRequest D → Carrier → Option Carrier
  evaluate_all [] ctx request extra = some extra
  evaluate_all (c ∷ cs) ctx request extra =
      let v = c ctx request in
      let rest = evaluate_all cs ctx request (add extra v.extra_cost) in
      if not v.allowed then none else rest

  unfoldable pub evaluate_under :
      List (Constraint D) → EdgeContext D → Option (RouteRequest D) → Option Carrier
  unfolding evaluate_all
  evaluate_under [] ctx request = some (zero_of D)
  evaluate_under (c ∷ cs) ctx none = none
  evaluate_under (c ∷ cs) ctx (some request) = evaluate_all (c ∷ cs) ctx request (zero_of D)

  -- The extra cost of an edge that is allowed.
  unfoldable pub edge_allowed :
      SearchOptions D → GraphEdge D → ℕ → Coordinate D → NavGraph D → ℕ → Option Carrier
  unfolding evaluate_under
  edge_allowed options edge from from_coord graph to =
      evaluate_under options.constraints
        (record {
          edge = edge;
          from_coord = from_coord;
          to_coord = coord_of D graph to;
          from = from;
        })
        options.request

  -- The best edge so far, with its cost.
  unfoldable pub better_edge :
      Option (GraphEdge D × Carrier) → GraphEdge D → Carrier → Option (GraphEdge D × Carrier)
  better_edge none e total = if lt total infinity then some (e, total) else none
  better_edge (some (b, best_cost)) e total =
      if lt total best_cost then some (e, total) else some (b, best_cost)

  unfoldable pub try_edge :
      Option (GraphEdge D × Carrier) → GraphEdge D → Option Carrier → Option (GraphEdge D × Carrier)
  unfolding better_edge
  try_edge best e none = best
  try_edge best e (some extra) = better_edge best e (add e.distance_nm extra)

  unfoldable pub select_among :
      NavGraph D
      → ℕ
      → ℕ
      → SearchOptions D
      → List (GraphEdge D)
      → Option (GraphEdge D × Carrier)
      → Option (GraphEdge D × Carrier)
  unfolding try_edge
  select_among graph from to options [] best = best
  select_among graph from to options (e ∷ es) best = select_among graph from to options es (
      if not (e.to == to)
      then best
      else try_edge best e (edge_allowed options e from (coord_of D graph from) graph to))

  unfoldable pub select_edge : NavGraph D → ℕ → ℕ → SearchOptions D → Option (GraphEdge D × Carrier)
  select_edge graph from to options =
      select_among graph from to options (edges_of D graph from) none
