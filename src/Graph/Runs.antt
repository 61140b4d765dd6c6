-- ===== src/Graph/Runs.antt =====
-- The search of libs/engine/core/graph/astar.cc on a small graph, with a sorted list for the heap
-- and whole numbers for `double`.
use mathlib.Core.List.{Permᴰ}
use mathlib.Core.List.Permᴰ.{refl as perm_refl}
use bravo_finder.Prelude.{
  ℕ, ◌≡◌, refl, true, false, not, List, [], ◌∷◌, Option, none, some, All, Bool-cases, inl, inr,
  if◌then◌else◌, arith,
}
use bravo_finder.Prelude.Int.{ℤ, pos, negsuc, ltb_ℤ, eqb_ℤ, ◌+ℤ◌, ◌-ℤ◌, ◌*ℤ◌}
use bravo_finder.Double.{Double}
use bravo_finder.Coordinate.{Coordinate}
use bravo_finder.Graph.Nav.{NavGraph, GraphEdge, AirwayLevel}
use bravo_finder.Graph.Options.{SearchOptions, SeededEndpoint, QueueNode, OpenSet, IsHeap}
use bravo_finder.Graph.Options.Keys.{edge_key-injective}
use bravo_finder.Graph.Workspace.{SearchWorkspace, new_workspace}
use bravo_finder.Graph.Search.{
  ShortestPath, find_shortest_path_in, find_shortest_path_multi, query_for,
}
use bravo_finder.Graph.Search.Spec.{IsWellFormed}
use bravo_finder.Graph.Search.Seeding.{IsRested}
use bravo_finder.Graph.Search.Handover.{find_shortest_path_in-IsRested}
use bravo_finder.Graph.Search.Answers.{
  Answered, AnsweredTo, find_shortest_path_in-Answered, find_shortest_path_multi-Answered,
  new_workspace-IsRested,
}

abbrev pub whole : Double
whole = record {
  Carrier = ℤ;
  lit = λ m k. m;
  infinity = pos 1000000;
  add = ◌+ℤ◌;
  sub = ◌-ℤ◌;
  mul = ◌*ℤ◌;
  div = λ a b. a;
  abs = λ a. a;
  sqrt = λ a. a;
  sin = λ a. pos 0;
  cos = λ a. pos 0;
  atan2 = λ a b. pos 0;
  eq = eqb_ℤ;
  lt = ltb_ℤ;
  le = λ a b. not (ltb_ℤ b a);
}

unfoldable pub insert : QueueNode whole → List (QueueNode whole) → List (QueueNode whole)
insert x [] = x ∷ []
insert x (y ∷ h) = if ltb_ℤ x.f y.f then x ∷ y ∷ h else y ∷ insert x h

abbrev take_first : List (QueueNode whole) → Option (QueueNode whole × List (QueueNode whole))
take_first [] = none
take_first (x ∷ h) = some (x, h)

abbrev pub sorted_list : OpenSet whole
sorted_list = record { push = insert; pop = take_first }

abbrev IsSorted : List (QueueNode whole) → Type 0
IsSorted [] = Unit {0}
IsSorted (x ∷ h) = All (λ (y : QueueNode whole). ltb_ℤ y.f x.f ≡ false) h × IsSorted h

insert-All :
    (P : QueueNode whole → Type 0) (x : QueueNode whole) (h : List (QueueNode whole))
    → P x
    → All P h
    → All P (insert x h)
unfolding insert
insert-All P x [] p ps = (p, tt)
insert-All P x (y ∷ h) p ps = elim (Bool-cases (ltb_ℤ x.f y.f)) [
  | inl below ↦ rw below (p, ps)
  | inr above ↦ rw above (ps.0, insert-All P x h p ps.1)
]

weaken :
    (x y : QueueNode whole) (h : List (QueueNode whole))
    → ltb_ℤ x.f y.f ≡ true
    → All (λ (z : QueueNode whole). ltb_ℤ z.f y.f ≡ false) h
    → All (λ (z : QueueNode whole). ltb_ℤ z.f x.f ≡ false) h
weaken x y [] e p = tt
weaken x y (z ∷ h) e p = (ground (arith, p.0), weaken x y h e p.1)

insert-IsSorted :
    (x : QueueNode whole) (h : List (QueueNode whole)) → IsSorted h → IsSorted (insert x h)
unfolding insert
insert-IsSorted x [] s = (tt, tt)
insert-IsSorted x (y ∷ h) s = elim (Bool-cases (ltb_ℤ x.f y.f)) [
  | inl below ↦ rw below ((ground arith, weaken x y h below s.0), s)
  | inr above ↦ rw above (
    insert-All (λ (z : QueueNode whole). ltb_ℤ z.f y.f ≡ false) x h above s.0,
    insert-IsSorted x h s.1,
  )
]

insert-perm : (x : QueueNode whole) (h : List (QueueNode whole)) → Permᴰ (insert x h) (x ∷ h)
unfolding insert
insert-perm x [] = perm_refl (x ∷ [])
insert-perm x (y ∷ h) = elim (Bool-cases (ltb_ℤ x.f y.f)) [
  | inl below ↦ rw below (perm_refl (x ∷ y ∷ h))
  | inr above ↦ rw above (Permᴰ.trans (Permᴰ.cons refl (insert-perm x h)) (Permᴰ.swap refl refl))
]

pub sorted_list-IsHeap : IsHeap whole sorted_list
sorted_list-IsHeap = record {
  Valid = IsSorted;
  valid-nil = tt;
  valid-push = insert-IsSorted;
  push-perm = λ x h s. insert-perm x h;
  pop-nil = refl;
  pop-cons = λ x h s. (x, h, refl, perm_refl (x ∷ h), s.1, s.0);
}

abbrev origin : Coordinate whole
origin = record { latitude = pos 0; longitude = pos 0 }

abbrev pub leg : ℕ → ℕ → GraphEdge whole
leg to length = record {
  to = to;
  distance_nm = pos length;
  airway_id = 0;
  base_fl = pos 0;
  top_fl = pos 600;
  level = AirwayLevel.both;
}

-- From 0 to 2 directly, or by way of 1.
abbrev pub triangle : NavGraph whole
triangle = record {
  coords = origin ∷ origin ∷ origin ∷ [];
  offsets = 0 ∷ 2 ∷ 3 ∷ 3 ∷ [];
  edges = leg 2 9 ∷ leg 1 3 ∷ leg 2 4 ∷ [];
}

pub triangle-IsWellFormed : IsWellFormed whole triangle
unfolding bravo_finder.Graph.Nav.vertex_count
triangle-IsWellFormed = (omega arith, (omega arith, (omega arith, tt)))

abbrev pub plain : SearchOptions whole
plain = record {
  constraints = [];
  request = none;
  turn_penalty = record { enabled = false };
  node_filter = record { airport_first = negsuc 0; airport_last = negsuc 0; banned = none };
  edge_filter = record { banned = none };
}

abbrev pub at : ℕ → SeededEndpoint whole
at v = record { vertex = pos v; cost = pos 0; bearing = negsuc 0 }

-- The two legs are shorter than the direct one.
shortest :
    find_shortest_path_multi whole sorted_list triangle (at 0 ∷ []) (at 2 ∷ []) plain
    ≡ some (record { vertices = 0 ∷ 1 ∷ 2 ∷ []; distance_nm = pos 7; cost = pos 7; found = true })
unfolding bravo_finder.Graph.Nav.vertex_count bravo_finder.Graph.Nav.coord_of
    bravo_finder.Graph.Nav.edges_of bravo_finder.Graph.Options.edge_key
    bravo_finder.Graph.Options.is_banned bravo_finder.Graph.Options.blocks_node
    bravo_finder.Graph.Options.blocks_edge bravo_finder.Graph.Options.turn_angle_deg
    bravo_finder.Graph.Options.turn_cost_of bravo_finder.Graph.Workspace.resize new_workspace
    bravo_finder.Graph.Workspace.reset bravo_finder.Graph.Workspace.next_generation
    bravo_finder.Graph.Workspace.live bravo_finder.Graph.Workspace.g_at
    bravo_finder.Graph.Workspace.geo_at bravo_finder.Graph.Workspace.prev_at
    bravo_finder.Graph.Workspace.inbound_at bravo_finder.Graph.Workspace.closed
    bravo_finder.Graph.Workspace.touch bravo_finder.Graph.Workspace.relax
    bravo_finder.Graph.Workspace.mark_closed bravo_finder.Graph.Select.evaluate_all
    bravo_finder.Graph.Select.evaluate_under bravo_finder.Graph.Select.edge_allowed
    bravo_finder.Graph.Tables.outside bravo_finder.Graph.Tables.improves
    bravo_finder.Graph.Tables.seed_step bravo_finder.Graph.Tables.seed_loop
    bravo_finder.Graph.Tables.build_seed_table bravo_finder.Graph.Tables.bearing_step
    bravo_finder.Graph.Tables.bearing_loop bravo_finder.Graph.Tables.build_bearing_table
    bravo_finder.Graph.Tables.project_unit_sphere bravo_finder.Graph.Tables.goal_xyz
    bravo_finder.Graph.Tables.new_heuristic bravo_finder.Graph.Tables.chord_cost
    bravo_finder.Graph.Tables.least_goal bravo_finder.Graph.Tables.heuristic_value
    bravo_finder.Graph.Search.degree_sum bravo_finder.Graph.Search.search_fuel
    bravo_finder.Graph.Search.push_open bravo_finder.Graph.Search.seed_source
    bravo_finder.Graph.Search.seed_sources bravo_finder.Graph.Search.goal_turn
    bravo_finder.Graph.Search.finish_at bravo_finder.Graph.Search.outbound
    bravo_finder.Graph.Search.turn_cost bravo_finder.Graph.Search.relax_allowed
    bravo_finder.Graph.Search.relax_edge bravo_finder.Graph.Search.relax_edges
    bravo_finder.Graph.Search.expand bravo_finder.Graph.Search.visit bravo_finder.Graph.Search.step
    bravo_finder.Graph.Search.run bravo_finder.Graph.Search.walk_back
    bravo_finder.Graph.Search.report bravo_finder.Graph.Search.start_loop find_shortest_path_in
    find_shortest_path_multi bravo_finder.Coordinate.to_radians bravo_finder.Coordinate.bearing_to
    insert ◌+ℤ◌ ◌*ℤ◌ ◌-ℤ◌
shortest = refl

find_shortest_path_multi-Answered_example :
    (p : ShortestPath whole) × (find_shortest_path_multi whole sorted_list triangle
        (at 0 ∷ [])
        (at 2 ∷ [])
        plain
      ≡ some p)
    × AnsweredTo whole
        (query_for whole sorted_list triangle (at 0 ∷ []) (at 2 ∷ []) plain)
        (at 0 ∷ [])
        (at 2 ∷ [])
        p
find_shortest_path_multi-Answered_example =
    find_shortest_path_multi-Answered whole sorted_list sorted_list-IsHeap triangle
      triangle-IsWellFormed refl (at 0 ∷ []) (at 2 ∷ []) plain

find_shortest_path_in-Answered_example :
    (p : ShortestPath whole) × (ws' : SearchWorkspace whole) × (find_shortest_path_in whole
        (query_for whole sorted_list triangle (at 0 ∷ []) (at 2 ∷ []) plain)
        (at 0 ∷ [])
        (new_workspace whole)
      ≡ some (p, ws'))
    × Answered whole
        (query_for whole sorted_list triangle (at 0 ∷ []) (at 2 ∷ []) plain)
        (at 0 ∷ [])
        p
find_shortest_path_in-Answered_example =
    find_shortest_path_in-Answered whole
      (query_for whole sorted_list triangle (at 0 ∷ []) (at 2 ∷ []) plain) (at 0 ∷ [])
      sorted_list-IsHeap triangle-IsWellFormed (new_workspace whole) (new_workspace-IsRested whole)

abbrev tail_vertex : ℕ
tail_vertex = 3

abbrev head_vertex : ℕ
head_vertex = 7

edge_key-injective_example : (tail_vertex ≡ tail_vertex) × (head_vertex ≡ head_vertex)
edge_key-injective_example =
    edge_key-injective tail_vertex head_vertex tail_vertex head_vertex (omega arith) (omega arith)
      refl

find_shortest_path_in-IsRested_example :
    (p : ShortestPath whole) × (ws' : SearchWorkspace whole) × (find_shortest_path_in whole
        (query_for whole sorted_list triangle (at 0 ∷ []) (at 2 ∷ []) plain)
        (at 0 ∷ [])
        (new_workspace whole)
      ≡ some (p, ws'))
    × Answered whole
        (query_for whole sorted_list triangle (at 0 ∷ []) (at 2 ∷ []) plain)
        (at 0 ∷ [])
        p
    × IsRested whole ws'
unfolding new_workspace
find_shortest_path_in-IsRested_example =
    find_shortest_path_in-IsRested whole
      (query_for whole sorted_list triangle (at 0 ∷ []) (at 2 ∷ []) plain) (at 0 ∷ [])
      sorted_list-IsHeap triangle-IsWellFormed (new_workspace whole) (new_workspace-IsRested whole)
      (omega arith)
