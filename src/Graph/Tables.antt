-- ===== src/Graph/Tables.antt =====
-- `BuildSeedTable` and `BuildBearingTable` of libs/engine/core/graph/astar.cc, and the memoized
-- heuristic `MultiGoalHeuristic` of astar.h and astar.cc.
use bravo_finder.Prelude.{
  ℕ, Bool, not, ◌||◌, List, [], ◌∷◌, length, get_or, set, replicate, if◌then◌else◌, map,
}
use bravo_finder.Prelude.Int.{ℤ, pos, negsuc, pos_part, ltb_ℤ}
use bravo_finder.Double.{Double, zero_of, no_bearing}
use bravo_finder.Coordinate.{Coordinate, pi, half_circle, earth_radius_nm}
use bravo_finder.Graph.Nav.{NavGraph, vertex_count, coord_of}
use bravo_finder.Graph.Options.{SeededEndpoint}

-- `v < 0 || v >= n`.
unfoldable pub outside : ℤ → ℕ → Bool
outside v n = ltb_ℤ v (pos 0) || not (ltb_ℤ v (pos n))

module _ (D : Double) where
  open D use {Carrier, lit, infinity, add, sub, mul, div, sqrt, sin, cos, lt, le}

  -- -1.0
  abbrev pub not_an_endpoint : Carrier
  not_an_endpoint = lit (negsuc 0) 0

  -- `seed[v] < 0.0 || cost < seed[v]`
  unfoldable pub improves : Carrier → Carrier → Bool
  improves seed cost = lt seed (zero_of D) || lt cost seed

  unfoldable pub seed_step : ℕ → List Carrier → SeededEndpoint D → List Carrier
  unfolding outside improves
  seed_step n seed e =
      if outside e.vertex n
      then seed
      else if improves (get_or seed (pos_part e.vertex) (zero_of D)) e.cost
      then set seed (pos_part e.vertex) e.cost
      else seed

  unfoldable pub seed_loop : ℕ → List (SeededEndpoint D) → List Carrier → List Carrier
  unfolding seed_step
  seed_loop n [] seed = seed
  seed_loop n (e ∷ es) seed = seed_loop n es (seed_step n seed e)

  unfoldable pub build_seed_table : List (SeededEndpoint D) → ℕ → List Carrier
  build_seed_table endpoints n = seed_loop n endpoints (replicate n not_an_endpoint)

  unfoldable pub bearing_step :
      ℕ → List Carrier × List Carrier → SeededEndpoint D → List Carrier × List Carrier
  unfolding outside improves
  bearing_step n (bearing, best_seed) e =
      if outside e.vertex n
      then (bearing, best_seed)
      else if improves (get_or best_seed (pos_part e.vertex) (zero_of D)) e.cost
      then (set bearing (pos_part e.vertex) e.bearing, set best_seed (pos_part e.vertex) e.cost)
      else (bearing, best_seed)

  unfoldable pub bearing_loop :
      ℕ → List (SeededEndpoint D) → List Carrier × List Carrier → List Carrier × List Carrier
  unfolding bearing_step
  bearing_loop n [] t = t
  bearing_loop n (e ∷ es) t = bearing_loop n es (bearing_step n t e)

  unfoldable pub build_bearing_table : List (SeededEndpoint D) → ℕ → List Carrier
  build_bearing_table endpoints n =
      (bearing_loop n endpoints (replicate n (no_bearing D), replicate n not_an_endpoint)).0

  pub record UnitVec : Type 0 where
    pub x : Carrier
    pub y : Carrier
    pub z : Carrier

  unfoldable pub project_unit_sphere : Coordinate D → UnitVec
  project_unit_sphere c =
      let lat_r = div (mul c.latitude (pi D)) (half_circle D) in
      let lon_r = div (mul c.longitude (pi D)) (half_circle D) in
      let cos_lat = cos lat_r in
      record { x = mul cos_lat (cos lon_r); y = mul cos_lat (sin lon_r); z = sin lat_r }

  pub record MultiGoalHeuristic : Type 0 where
    pub graph : NavGraph D
    pub goals : List (SeededEndpoint D)
    pub goals_xyz : List UnitVec
    pub cache : List Carrier

  unfoldable pub goal_xyz : NavGraph D → SeededEndpoint D → UnitVec
  unfolding outside project_unit_sphere
  goal_xyz graph g =
      if outside g.vertex (vertex_count D graph)
      then record { x = zero_of D; y = zero_of D; z = zero_of D }
      else project_unit_sphere (coord_of D graph (pos_part g.vertex))

  unfoldable pub new_heuristic : NavGraph D → List (SeededEndpoint D) → MultiGoalHeuristic
  new_heuristic graph goals = record {
    graph = graph;
    goals = goals;
    goals_xyz = map (goal_xyz graph) goals;
    cache = replicate (vertex_count D graph) not_an_endpoint;
  }

  unfoldable pub chord_cost : UnitVec → UnitVec → Carrier → Carrier
  chord_cost v g cost =
      let dx = sub v.x g.x in
      let dy = sub v.y g.y in
      let dz = sub v.z g.z in
      let chord = sqrt (add (add (mul dx dx) (mul dy dy)) (mul dz dz)) in
      add (mul (earth_radius_nm D) chord) cost

  -- The loop over the goals, `goals_xyz` in lock-step.
  unfoldable pub least_goal :
      ℕ → UnitVec → List (SeededEndpoint D) → List UnitVec → Carrier → Carrier
  unfolding outside chord_cost
  least_goal n v [] gs best = best
  least_goal n v (gp ∷ gps) [] best = best
  least_goal n v (gp ∷ gps) (g ∷ gs) best =
      let h = chord_cost v g gp.cost in
      least_goal n v gps gs (if outside gp.vertex n then best else if lt h best then h else best)

  -- The value that a cache miss computes.
  unfoldable pub heuristic_value : MultiGoalHeuristic → ℕ → Carrier
  unfolding least_goal
  heuristic_value h vertex =
      least_goal (length h.cache) (project_unit_sphere (coord_of D h.graph vertex)) h.goals
        h.goals_xyz infinity

  -- `operator()`: the value, and the object with its cache after the call.
  unfoldable pub heuristic_call : ℕ → MultiGoalHeuristic → Carrier × MultiGoalHeuristic
  heuristic_call vertex h =
      let slot = get_or h.cache vertex (zero_of D) in
      let best = heuristic_value h vertex in
      if le (zero_of D) slot
      then (slot, h)
      else (best, record h { cache = set h.cache vertex best })
