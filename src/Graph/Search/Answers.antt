-- ===== src/Graph/Search/Answers.antt =====
-- The search always returns, and what it returns is an answer to the question that Spec asks.
use mathlib.Core.List.{reverse_aux}
use bravo_finder.Prelude.{
  ℕ, zero, suc, ◌+◌, ◌<◌, ◌≤◌, ◌≡◌, ◌⊎◌, refl, subst, inl, inr, true, false, get_or, List, [], ◌∷◌,
  length, Option, none, some, arith,
}
use bravo_finder.Double.{Double, zero_of}
use bravo_finder.Graph.Nav.{NavGraph, vertex_count}
use bravo_finder.Graph.Options.{SeededEndpoint, SearchOptions, OpenSet, IsHeap}
use bravo_finder.Graph.Workspace.{SearchWorkspace, new_workspace, g_at, geo_at, inbound_at}
use bravo_finder.Graph.Search.{
  Query, Loop, ShortestPath, not_found, degree_sum, search_fuel, run, walk_back, report, start_loop,
  find_shortest_path_in, query_for, find_shortest_path_multi,
}
use bravo_finder.Graph.Search.Spec.{IsWellFormed, IsAnswer}
use bravo_finder.Graph.Tables.{not_an_endpoint}
use bravo_finder.Graph.Search.Goals.{IsGoal, build_seed_table-IsGoal}
use bravo_finder.Graph.Search.Routes.{Route, Route-Nodup, Route-Walk}
use bravo_finder.Graph.Search.Progress.{open_degree-le}
use bravo_finder.Graph.Search.Steps.{Good, BestGoal}
use bravo_finder.Graph.Search.Rounds.{run-Good}
use bravo_finder.Graph.Search.Seeding.{IsRested, start_loop-Seeded}

-- No path, or a path that answers.
abbrev pub Answered : (D : Double) → Query D → List (SeededEndpoint D) → ShortestPath D → Type 0
Answered D q sources p = (p ≡ not_found D) ⊎ (IsAnswer D q sources p × (p.found ≡ true))

-- The same, and the path ends at one of the goals, whose cost is the one added.
abbrev pub AnsweredTo :
    (D : Double)
    → Query D
    → List (SeededEndpoint D)
    → List (SeededEndpoint D)
    → ShortestPath D
    → Type 0
AnsweredTo D q sources goals p =
    (p ≡ not_found D)
    ⊎ ((a : IsAnswer D q sources p) × (p.found ≡ true)
        × IsGoal D goals (vertex_count D q.graph) a.goal
            (get_or q.goal_seed a.goal (not_an_endpoint D)))

module _ (D : Double) (q : Query D) (sources : List (SeededEndpoint D)) (V : IsHeap D q.H)
    (wf : IsWellFormed D q.graph) where
  open q use {graph}

  walk_back-Route :
      (ws : SearchWorkspace D) (fuel : ℕ) {v : ℕ} {vs : List ℕ} (out : List ℕ)
      → Route D q sources ws v vs
      → length vs ≤ fuel
      → walk_back D q fuel ws (some v) out ≡ some (reverse_aux vs out)
  unfolding walk_back
  walk_back-Route ws zero out (Route.from_source s _ _ _ _ _) enough = absurd (omega arith)
  walk_back-Route ws zero out (Route.over_edge e extra r _ _ _ _ _ _ _) enough =
      absurd (omega arith)
  walk_back-Route ws (suc fuel) out (Route.from_source s start back _ _ _) enough =
      rw (back, walk_back) refl
  walk_back-Route ws (suc fuel) out (Route.over_edge e extra r _ _ _ back _ _ _) enough =
      rw (back, walk_back) (walk_back-Route ws fuel (e.to ∷ out) r (omega arith))

  report-Answered :
      (fuel c : ℕ) (l : Loop D) (o : Option ℕ)
      → c < fuel
      → BestGoal D q sources V c l.ws l.best_total o
      → (p : ShortestPath D) × (report D q fuel l o ≡ some p) × Answered D q sources p
  unfolding report
  report-Answered fuel c l none enough best = (not_found D, refl, inl refl)
  report-Answered fuel c l (some u) enough best =
      let back = walk_back-Route l.ws fuel [] best.route (omega (arith, best.short)) in
      (
        _,
        rw (back, report) refl,
        inr (
          record {
            goal = u;
            g = g_at D l.ws u;
            geo = geo_at D l.ws u;
            inb = inbound_at D l.ws u;
            back = best.trail;
            walk = Route-Walk D q sources l.ws best.route;
            simple = Route-Nodup D q sources l.ws best.route;
            order = refl;
            is_goal = best.is_goal;
            priced = best.priced;
            measured = refl;
          },
          refl,
        ),
      )

  returned :
      (s : SeededEndpoint D) (ss : List (SeededEndpoint D)) (ws : SearchWorkspace D) (l : Loop D)
      (p : ShortestPath D)
      → run D q (search_fuel D graph (s ∷ ss)) (start_loop D q (s ∷ ss) ws) ≡ some l
      → report D q (search_fuel D graph (s ∷ ss)) l l.best_goal ≡ some p
      → find_shortest_path_in D q (s ∷ ss) ws ≡ some (p, l.ws)
  unfolding find_shortest_path_in
  returned s ss ws l p ran reported =
      rw (ran, find_shortest_path_in) (rw (reported, find_shortest_path_in) refl)

  -- On a graph whose edges end at its vertices, with any heap that keeps the standard's promises, and
  -- a workspace as an earlier search leaves it: the search returns, within its fuel, and reports
  -- either no path or a path that is a walk of usable edges from a free source to a goal, with no
  -- vertex twice, with the walk's own length and price and the goal's added.
  pub find_shortest_path_in-Answered :
      (ws : SearchWorkspace D)
      → IsRested D ws
      → (p : ShortestPath D) × (ws' : SearchWorkspace D) × (find_shortest_path_in D q sources ws
          ≡ some (p, ws'))
        × Answered D q sources p
  find_shortest_path_in-Answered ws rested = answer sources refl
    where
      searched :
          (p : ShortestPath D) × (l : Loop D) × (run D q
              (search_fuel D graph sources)
              (start_loop D q sources ws)
            ≡ some l)
          × (report D q (search_fuel D graph sources) l l.best_goal ≡ some p)
          × Answered D q sources p
      searched =
          let fuel = search_fuel D graph sources in
          let seeded = start_loop-Seeded D q sources V ws rested in
          let start = start_loop D q sources ws in
          let edges = open_degree-le D graph start.ws (vertex_count D graph) in
          let good : Good D q sources V 0 start = record {
            inv = seeded.inv;
            best = unfold start_loop in tt;
          } in
          let m = length sources + degree_sum D (vertex_count D graph) graph in
          let enough : m < fuel = unfold search_fuel in omega arith in
          let (l, c, ran, done, low) =
            run-Good D q sources V wf fuel m 0 fuel start enough
              (omega (arith, seeded.entries, edges)) (omega (arith, enough)) good in
          let (p, reported, answered) = report-Answered fuel c l l.best_goal low done.best in
          (p, l, ran, reported, answered)

      answer :
          (ss : List (SeededEndpoint D))
          → sources ≡ ss
          → (p : ShortestPath D) × (ws' : SearchWorkspace D) × (find_shortest_path_in D q ss ws
              ≡ some (p, ws'))
            × Answered D q sources p
      answer [] e = (not_found D, ws, unfold find_shortest_path_in in refl, inl refl)
      answer (s ∷ ss) e =
          let (p, l, ran, reported, answered) = searched in
          let ran' =
            subst (λ xs. run D q (search_fuel D graph xs) (start_loop D q xs ws) ≡ some l) e ran in
          let reported' =
            subst (λ xs. report D q (search_fuel D graph xs) l l.best_goal ≡ some p) e reported in
          (p, l.ws, returned s ss ws l p ran' reported', answered)

pub new_workspace-IsRested : (D : Double) → IsRested D (new_workspace D)
unfolding new_workspace
new_workspace-IsRested D = record {
  idle = record {
    sized = record {
      g_size = omega arith;
      geo_size = omega arith;
      prev_size = omega arith;
      inbound_size = omega arith;
      stamp_size = omega arith;
      closed_size = omega arith;
    };
    generation_eq = refl;
    stamped = tt;
    closed_before = tt;
  };
  searches_left = omega arith;
}

-- The tables that the search makes of the goals hold the goals' own costs.
pub at_goal :
    (D : Double) (H : OpenSet D) (graph : NavGraph D) (sources goals : List (SeededEndpoint D))
    (options : SearchOptions D)
    → D.le (zero_of D) (not_an_endpoint D) ≡ false
    → (p : ShortestPath D) → Answered D (query_for D H graph sources goals options) sources p
    → AnsweredTo D (query_for D H graph sources goals options) sources goals p
at_goal D H graph sources goals options negative p (inl nothing) = inl nothing
at_goal D H graph sources goals options negative p (inr (a, found)) =
    inr (a, found, build_seed_table-IsGoal D goals (vertex_count D graph) negative a.goal a.is_goal)

-- A search between any lists of sources and goals, in a workspace of its own, on a graph whose edges
-- end at its vertices and with any heap that keeps the standard's promises, returns within its fuel:
-- no path, or a path that is a walk of usable edges from a free source to the vertex of one of the
-- given goals, with no vertex twice, with the walk's own length and price and that goal's cost added.
-- Of `double` it is assumed that 0 is not at most -1.
pub find_shortest_path_multi-Answered :
    (D : Double) (H : OpenSet D) (V : IsHeap D H) (graph : NavGraph D) (wf : IsWellFormed D graph)
    (negative : D.le (zero_of D) (not_an_endpoint D) ≡ false)
    (sources goals : List (SeededEndpoint D)) (options : SearchOptions D)
    → (p : ShortestPath D) × (find_shortest_path_multi D H graph sources goals options ≡ some p)
      × AnsweredTo D (query_for D H graph sources goals options) sources goals p
find_shortest_path_multi-Answered D H V graph wf negative sources goals options =
    let q = query_for D H graph sources goals options in
    let (p, ws', found, answered) =
      find_shortest_path_in-Answered D q sources V wf (new_workspace D)
        (new_workspace-IsRested D) in
    (p, returns p ws' found, at_goal D H graph sources goals options negative p answered)
  where
    returns :
        (p : ShortestPath D) (ws' : SearchWorkspace D)
        → find_shortest_path_in D
            (query_for D H graph sources goals options)
            sources
            (new_workspace D)
          ≡ some (p, ws')
        → find_shortest_path_multi D H graph sources goals options ≡ some p
    returns p ws' found =
        unfold find_shortest_path_multi in rw (found, find_shortest_path_multi) refl
