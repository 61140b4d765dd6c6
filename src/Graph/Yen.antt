-- ===== src/Graph/Yen.antt =====
-- The k shortest paths of libs/engine/core/graph/yen_kshortest.cc. The candidate set of <set> is a
-- list in order, without two equivalent elements. The deviation -1 is `none`. The searches share the
-- heuristic, and one workspace that each takes over from the last.
pub mod Rounds
pub mod Lists
pub mod Forward
pub mod Candidates
pub mod Spurs
pub mod Detours
pub mod Steps
pub mod Paths
pub mod Runs
use bravo_finder.Prelude.{
  ℕ, zero, suc, ◌+◌, ◌-◌, Bool, true, false, not, ◌&&◌, ◌||◌, List, [], ◌∷◌, ◌++◌, map, length,
  get_or, set, take, replicate, Option, none, some, ltb, leb, ◌==◌, if◌then◌else◌,
}
use bravo_finder.Prelude.Int.{ℤ, pos, negsuc, pos_part, ltb_ℤ, eqb_ℤ}
use bravo_finder.Double.{Double, zero_of, no_bearing}
use bravo_finder.Coordinate.{bearing_to}
use bravo_finder.FixedString.Memory.{lex_lt}
use bravo_finder.Graph.Nav.{GraphEdge, NavGraph, vertex_count, coord_of}
use bravo_finder.Graph.Options.{
  SearchOptions, SeededEndpoint, OpenSet, NodeFilter, EdgeFilter, edge_key, is_banned, blocks_node,
  blocks_edge, turn_angle_deg, turn_cost_of,
}
use bravo_finder.Graph.Workspace.{SearchWorkspace, new_workspace}
use bravo_finder.Graph.Select.{select_edge}
use bravo_finder.Graph.Tables.{
  build_seed_table, build_bearing_table, new_heuristic, heuristic_value, not_an_endpoint,
}
use bravo_finder.Graph.Search.{ShortestPath, Query, find_shortest_path_in}

-- `std::sort` with `std::unique` and `erase`.
unfoldable pub insert_sorted : ℕ → List ℕ → List ℕ
insert_sorted v [] = v ∷ []
insert_sorted v (x ∷ xs) =
    let rest = insert_sorted v xs in
    if ltb x v then x ∷ rest else if ltb v x then v ∷ x ∷ xs else x ∷ xs

unfoldable pub sort_unique : List ℕ → List ℕ
sort_unique [] = []
sort_unique (x ∷ xs) = insert_sorted x (sort_unique xs)

unfoldable pub merge_banned : Option (List ℕ) → List ℕ → List ℕ
merge_banned none yen = sort_unique yen
merge_banned (some caller) yen = sort_unique (caller ++ yen)

unfoldable pub front : List ℕ → ℕ
front [] = 0
front (v ∷ vs) = v

unfoldable pub last_of : List ℕ → ℕ
last_of [] = 0
last_of (v ∷ []) = v
last_of (v ∷ w ∷ vs) = last_of (w ∷ vs)

module _ (D : Double) where
  open D use {Carrier, add, eq, lt, le}

  unfoldable pub any_blocked : SearchOptions D → List ℕ → Bool
  any_blocked options [] = false
  any_blocked options (v ∷ vs) = blocks_node options.node_filter v || any_blocked options vs

  -- The loop over the steps: the cost, the distance and the bearings so far.
  pub record Costed : Type 0 where
    pub cost : Carrier
    pub distance : Carrier
    pub bearings : List Carrier

  unfoldable pub step_bearing : NavGraph D → SearchOptions D → ℕ → ℕ → List Carrier → List Carrier
  step_bearing graph options u v bearings =
      if options.turn_penalty.enabled
      then bearings ++ (bearing_to D (coord_of D graph u) (coord_of D graph v) ∷ [])
      else bearings

  unfoldable pub take_step :
      NavGraph D → SearchOptions D → ℕ → ℕ → Option (GraphEdge D × Carrier) → Costed → Option Costed
  unfolding step_bearing
  take_step graph options u v none c = none
  take_step graph options u v (some (e, edge_cost)) c = some (record {
    cost = add c.cost edge_cost;
    distance = add c.distance e.distance_nm;
    bearings = step_bearing graph options u v c.bearings;
  })

  unfoldable pub cost_steps : NavGraph D → SearchOptions D → List ℕ → Costed → Option Costed
  unfolding take_step
  cost_steps graph options [] c = some c
  cost_steps graph options (u ∷ []) c = some c
  cost_steps graph options (u ∷ v ∷ vs) c =
      if blocks_edge options.edge_filter u v
      then none
      else elim (take_step graph options u v (select_edge D graph u v options) c) [
        | none ↦ none
        | some c' ↦ cost_steps graph options (v ∷ vs) c'
      ]

  unfoldable pub interior_turns : SearchOptions D → List Carrier → Carrier → Carrier
  interior_turns options [] cost = cost
  interior_turns options (a ∷ []) cost = cost
  interior_turns options (a ∷ b ∷ bs) cost =
      interior_turns options (b ∷ bs)
        (add cost (turn_cost_of D options.turn_penalty (turn_angle_deg D a b)))

  unfoldable pub last_bearing : List Carrier → Carrier
  last_bearing [] = zero_of D
  last_bearing (a ∷ []) = a
  last_bearing (a ∷ b ∷ bs) = last_bearing (b ∷ bs)

  unfoldable pub turn_onto : SearchOptions D → Carrier → Carrier → Carrier → Carrier
  turn_onto options a b cost = add cost (turn_cost_of D options.turn_penalty (turn_angle_deg D a b))

  -- The turns at the source fix, at the interior vertices and at the goal fix.
  unfoldable pub all_turns : SearchOptions D → Carrier → Carrier → Costed → Carrier
  unfolding interior_turns last_bearing turn_onto
  all_turns options src_bearing goal_bearing c =
      let bs = c.bearings in
      let at_source =
        if le (zero_of D) src_bearing
        then turn_onto options src_bearing (get_or bs 0 (zero_of D)) c.cost
        else c.cost in
      let inside = interior_turns options bs at_source in
      if le (zero_of D) goal_bearing
      then turn_onto options (last_bearing bs) goal_bearing inside
      else inside

  abbrev no_cost : Costed
  no_cost = record { cost = zero_of D; distance = zero_of D; bearings = [] }

  unfoldable pub cost_of_path :
      NavGraph D → List ℕ → SearchOptions D → Carrier → Carrier → Option (Carrier × Carrier)
  unfolding any_blocked cost_steps all_turns turn_onto
  cost_of_path graph path options src_bearing goal_bearing =
      if ltb (length path) 2
      then some (
        (if options.turn_penalty.enabled
              && (le (zero_of D) src_bearing && le (zero_of D) goal_bearing)
            then turn_onto options src_bearing goal_bearing (zero_of D)
            else zero_of D),
        zero_of D,
      )
      else if any_blocked options path
      then none
      else elim (cost_steps graph options path no_cost) [
        | none ↦ none
        | some c ↦ some (
          (if options.turn_penalty.enabled
              then all_turns options src_bearing goal_bearing c
              else c.cost),
          c.distance,
        )
      ]

  unfoldable pub cost_of_path_multi :
      NavGraph D
      → List ℕ
      → List Carrier
      → List Carrier
      → List Carrier
      → List Carrier
      → SearchOptions D
      → Option (Carrier × Carrier)
  unfolding cost_of_path front last_of
  cost_of_path_multi graph [] source_seed goal_seed source_bearing goal_bearing options = none
  cost_of_path_multi graph (v ∷ vs) source_seed goal_seed source_bearing goal_bearing options =
      let s = get_or source_seed v (zero_of D) in
      let g = get_or goal_seed (last_of (v ∷ vs)) (not_an_endpoint D) in
      if lt s (zero_of D) || lt g (zero_of D)
      then none
      else elim (cost_of_path graph (v ∷ vs) options (get_or source_bearing v (zero_of D))
          (get_or goal_bearing (last_of (v ∷ vs)) (zero_of D))) [
            | none ↦ none
            | some (enroute_cost, enroute_dist) ↦
                some (add (add s enroute_cost) g, add (add s enroute_dist) g)
          ]

  pub record Candidate : Type 0 where
    pub cost : Carrier
    pub distance : Carrier
    pub vertices : List ℕ
    pub deviation : Option ℕ

  unfoldable pub candidate_lt : Candidate → Candidate → Bool
  unfolding lex_lt
  candidate_lt a b =
      if not (eq a.cost b.cost) then lt a.cost b.cost else lex_lt a.vertices b.vertices

  -- `std::set::insert`.
  unfoldable pub insert_candidate : Candidate → List Candidate → List Candidate
  unfolding candidate_lt
  insert_candidate c [] = c ∷ []
  insert_candidate c (x ∷ xs) =
      let rest = insert_candidate c xs in
      if candidate_lt x c then x ∷ rest else if candidate_lt c x then c ∷ x ∷ xs else x ∷ xs
