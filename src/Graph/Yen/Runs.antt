-- ===== src/Graph/Yen/Runs.antt =====
-- The k shortest paths of libs/engine/core/graph/yen_kshortest.cc on the triangle of Graph.Runs.
use bravo_finder.Prelude.{ℕ, zero, ◌≡◌, refl, true, List, [], ◌∷◌, Option, none, some, arith}
use bravo_finder.Prelude.Int.{ℤ, pos, eqb_ℤ}
use bravo_finder.Graph.Options.{SeededEndpoint}
use bravo_finder.Graph.Search.{ShortestPath, query_for, find_shortest_path_multi}
use bravo_finder.Graph.Search.Answers.{AnsweredTo}
use bravo_finder.Graph.Runs.{
  whole, sorted_list, sorted_list-IsHeap, triangle, triangle-IsWellFormed, plain, at,
}
use bravo_finder.Graph.Yen.Rounds.{plan_for, find_k_shortest_paths_multi}
use bravo_finder.Graph.Yen.Candidates.{IsOrdered}
use bravo_finder.Graph.Yen.Paths.{Ranked, find_k_shortest_paths_multi-Ranked}

abbrev both_ways : Option (List (ShortestPath whole))
both_ways =
    find_k_shortest_paths_multi whole sorted_list triangle (at 0 ∷ []) (at 2 ∷ []) (pos 3) plain

whole-IsOrdered : IsOrdered whole
whole-IsOrdered = record { rank = λ a. a; eq_rank = λ a b ha hb. refl; lt_rank = λ a b ha hb. refl }

whole_self : (a : ℤ) → eqb_ℤ a a ≡ true
whole_self a = ground arith

find_k_shortest_paths_multi-Ranked_example :
    (p : ShortestPath whole) × (find_shortest_path_multi whole sorted_list triangle
        (at 0 ∷ [])
        (at 2 ∷ [])
        plain
      ≡ some p)
    × AnsweredTo whole
        (query_for whole sorted_list triangle (at 0 ∷ []) (at 2 ∷ []) plain)
        (at 0 ∷ [])
        (at 2 ∷ [])
        p
    × Ranked whole (plan_for whole sorted_list triangle (at 0 ∷ []) (at 2 ∷ []) plain) 2 p (
        find_k_shortest_paths_multi whole sorted_list triangle
          (at 0 ∷ [])
          (at 2 ∷ [])
          (pos 3)
          plain)
unfolding bravo_finder.Graph.Nav.vertex_count
find_k_shortest_paths_multi-Ranked_example =
    find_k_shortest_paths_multi-Ranked whole sorted_list sorted_list-IsHeap triangle
      triangle-IsWellFormed whole-IsOrdered (at 0 ∷ []) (at 2 ∷ []) plain 2 refl
      (λ path cost distance e. whole_self cost) refl (omega arith)

-- The second way round is the direct one, and there is no third.
two_routes :
    both_ways
    ≡ some (
        record { vertices = 0 ∷ 1 ∷ 2 ∷ []; distance_nm = pos 7; cost = pos 7; found = true }
        ∷ record { vertices = 0 ∷ 2 ∷ []; distance_nm = pos 9; cost = pos 9; found = true }
        ∷ [])
unfolding bravo_finder.Graph.Nav.vertex_count bravo_finder.Graph.Nav.coord_of
    bravo_finder.Graph.Nav.edges_of bravo_finder.Graph.Options.edge_key
    bravo_finder.Graph.Options.is_banned bravo_finder.Graph.Options.blocks_node
    bravo_finder.Graph.Options.blocks_edge bravo_finder.Graph.Options.turn_angle_deg
    bravo_finder.Graph.Options.turn_cost_of bravo_finder.Graph.Workspace.resize
    bravo_finder.Graph.Workspace.new_workspace bravo_finder.Graph.Workspace.reset
    bravo_finder.Graph.Workspace.next_generation bravo_finder.Graph.Workspace.live
    bravo_finder.Graph.Workspace.g_at bravo_finder.Graph.Workspace.geo_at
    bravo_finder.Graph.Workspace.prev_at bravo_finder.Graph.Workspace.inbound_at
    bravo_finder.Graph.Workspace.closed bravo_finder.Graph.Workspace.touch
    bravo_finder.Graph.Workspace.relax bravo_finder.Graph.Workspace.mark_closed
    bravo_finder.Graph.Select.evaluate_all bravo_finder.Graph.Select.evaluate_under
    bravo_finder.Graph.Select.edge_allowed bravo_finder.Graph.Tables.outside
    bravo_finder.Graph.Tables.improves bravo_finder.Graph.Tables.seed_step
    bravo_finder.Graph.Tables.seed_loop bravo_finder.Graph.Tables.build_seed_table
    bravo_finder.Graph.Tables.bearing_step bravo_finder.Graph.Tables.bearing_loop
    bravo_finder.Graph.Tables.build_bearing_table bravo_finder.Graph.Tables.project_unit_sphere
    bravo_finder.Graph.Tables.goal_xyz bravo_finder.Graph.Tables.new_heuristic
    bravo_finder.Graph.Tables.chord_cost bravo_finder.Graph.Tables.least_goal
    bravo_finder.Graph.Tables.heuristic_value bravo_finder.Graph.Search.degree_sum
    bravo_finder.Graph.Search.search_fuel bravo_finder.Graph.Search.push_open
    bravo_finder.Graph.Search.seed_source bravo_finder.Graph.Search.seed_sources
    bravo_finder.Graph.Search.goal_turn bravo_finder.Graph.Search.finish_at
    bravo_finder.Graph.Search.outbound bravo_finder.Graph.Search.turn_cost
    bravo_finder.Graph.Search.relax_allowed bravo_finder.Graph.Search.relax_edge
    bravo_finder.Graph.Search.relax_edges bravo_finder.Graph.Search.expand
    bravo_finder.Graph.Search.visit bravo_finder.Graph.Search.step bravo_finder.Graph.Search.run
    bravo_finder.Graph.Search.walk_back bravo_finder.Graph.Search.report
    bravo_finder.Graph.Search.start_loop bravo_finder.Graph.Search.find_shortest_path_in
    bravo_finder.Coordinate.to_radians bravo_finder.Coordinate.bearing_to
    bravo_finder.Graph.Runs.insert bravo_finder.Prelude.Int.◌+ℤ◌ bravo_finder.Prelude.Int.◌*ℤ◌
    bravo_finder.Prelude.Int.◌-ℤ◌ bravo_finder.Graph.Yen.insert_sorted
    bravo_finder.Graph.Yen.sort_unique bravo_finder.Graph.Yen.merge_banned
    bravo_finder.Graph.Yen.front bravo_finder.Graph.Yen.last_of bravo_finder.Graph.Yen.any_blocked
    bravo_finder.Graph.Yen.step_bearing bravo_finder.Graph.Yen.take_step
    bravo_finder.Graph.Yen.cost_steps bravo_finder.Graph.Yen.interior_turns
    bravo_finder.Graph.Yen.last_bearing bravo_finder.Graph.Yen.turn_onto
    bravo_finder.Graph.Yen.all_turns bravo_finder.Graph.Yen.cost_of_path
    bravo_finder.Graph.Yen.cost_of_path_multi bravo_finder.Graph.Yen.candidate_lt
    bravo_finder.Graph.Yen.insert_candidate bravo_finder.Graph.Yen.Rounds.drop_last
    bravo_finder.Graph.Yen.Rounds.shares_root bravo_finder.Graph.Yen.Rounds.range
    bravo_finder.Graph.Yen.Rounds.spur_range bravo_finder.Graph.Yen.Rounds.count_goals
    bravo_finder.Graph.Yen.Rounds.ends_at_root bravo_finder.Graph.Yen.Rounds.banned_at
    bravo_finder.Graph.Yen.Rounds.banned_sources bravo_finder.Graph.Yen.Rounds.is_among
    bravo_finder.Graph.Yen.Rounds.spur_sources bravo_finder.Graph.Yen.Rounds.add_candidate
    bravo_finder.Graph.Yen.Rounds.fold_in bravo_finder.Graph.Yen.Rounds.source_spur
    bravo_finder.Graph.Yen.Rounds.clear_bearing bravo_finder.Graph.Yen.Rounds.inbound_at_spur
    bravo_finder.Graph.Yen.Rounds.spur_options bravo_finder.Graph.Yen.Rounds.node_spur
    bravo_finder.Graph.Yen.Rounds.one_spur bravo_finder.Graph.Yen.Rounds.all_spurs
    bravo_finder.Graph.Yen.Rounds.rounds bravo_finder.Graph.Yen.Rounds.first_state
    bravo_finder.Graph.Yen.Rounds.after_first find_k_shortest_paths_multi
    bravo_finder.FixedString.Memory.lex_lt bravo_finder.Graph.Select.select_edge
    bravo_finder.Graph.Select.select_among bravo_finder.Graph.Select.try_edge
    bravo_finder.Graph.Select.better_edge
two_routes = refl
