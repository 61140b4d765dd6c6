-- ===== src/Graph/Constraints/Runs.antt =====
-- The constraints of libs/engine/core/constraints at concrete edges and searches.
use bravo_finder.Prelude.{◌≡◌, ◌↔◌, refl, inl, true, false, [], ◌∷◌, none, some, arith}
use bravo_finder.Prelude.Int.{pos, negsuc}
use bravo_finder.Graph.Nav.{FlRange, LevelPreference, RouteRequest}
use bravo_finder.Graph.Options.{SearchOptions}
use bravo_finder.Graph.Search.{Query, ShortestPath, query_for}
use bravo_finder.Graph.Constraints.{altitude_verdict, avoid_waypoint}
use bravo_finder.Graph.Constraints.Laws.{Level, altitude_verdict_iff}
use bravo_finder.Graph.Runs.{whole, sorted_list, triangle, at, leg}

abbrev cruise : FlRange
cruise = record { min_fl = pos 300; max_fl = pos 380 }

-- The edge has a ceiling of 600 and no floor.
altitude_verdict_iff_example :
    ((altitude_verdict whole (leg 2 9) cruise).allowed ≡ true) ↔ Level (pos 0) (pos 600) cruise
altitude_verdict_iff_example = altitude_verdict_iff whole (leg 2 9) cruise (omega arith) (inl refl)

abbrev request : RouteRequest whole
request = record {
  departure = [];
  arrival = [];
  altitude = none;
  level = LevelPreference.none;
  k = pos 1;
  departure_runway = [];
  arrival_runway = [];
  departure_sid = [];
  arrival_star = [];
  avoid_waypoints = [];
  airway_rules = [];
  random_seed = none;
  forced_points = [];
}

-- Vertex 1 is avoided.
abbrev around : SearchOptions whole
around = record {
  constraints = avoid_waypoint whole (1 ∷ []) ∷ [];
  request = some request;
  turn_penalty = record { enabled = false };
  node_filter = record { airport_first = negsuc 0; airport_last = negsuc 0; banned = none };
  edge_filter = record { banned = none };
}

abbrev asked : Query whole
asked = query_for whole sorted_list triangle (at 0 ∷ []) (at 2 ∷ []) around

abbrev direct : ShortestPath whole
direct = record { vertices = 0 ∷ 2 ∷ []; distance_nm = pos 9; cost = pos 9; found = true }
