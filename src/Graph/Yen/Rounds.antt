-- ===== src/Graph/Yen/Rounds.antt =====
-- The spur searches and the rounds of `FindKShortestPathsMulti` in
-- libs/engine/core/graph/yen_kshortest.cc. `none` is a search that ran out of fuel.
use bravo_finder.Prelude.{
  ℕ, zero, suc, ◌+◌, ◌-◌, Bool, true, false, not, ◌&&◌, ◌||◌, List, [], ◌∷◌, ◌++◌, length, get_or,
  set, take, replicate, Option, none, some, ltb, ◌==◌, if◌then◌else◌,
}
use bravo_finder.Prelude.Int.{ℤ, pos, pos_part, ltb_ℤ, eqb_ℤ}
use bravo_finder.Double.{Double, zero_of, no_bearing}
use bravo_finder.Coordinate.{bearing_to}
use bravo_finder.Graph.Nav.{NavGraph, vertex_count, coord_of}
use bravo_finder.Graph.Options.{SearchOptions, SeededEndpoint, OpenSet, edge_key}
use bravo_finder.Graph.Workspace.{SearchWorkspace, new_workspace}
use bravo_finder.Graph.Tables.{
  build_seed_table, build_bearing_table, new_heuristic, heuristic_value, not_an_endpoint,
}
use bravo_finder.Graph.Search.{ShortestPath, Query, find_shortest_path_in}
use bravo_finder.Graph.Yen.{Candidate, merge_banned, front, insert_candidate, cost_of_path_multi}

unfoldable pub drop_last : List ℕ → List ℕ
drop_last [] = []
drop_last (v ∷ []) = []
drop_last (v ∷ w ∷ vs) = v ∷ drop_last (w ∷ vs)

-- `std::equal` of the root with the front of a path that is long enough.
unfoldable pub shares_root : List ℕ → List ℕ → Bool
shares_root [] vs = true
shares_root (r ∷ root) [] = false
shares_root (r ∷ root) (v ∷ vs) = r == v && shares_root root vs

unfoldable pub range : ℕ → ℕ → List (Option ℕ)
range i zero = []
range i (suc m) = some i ∷ range (suc i) m

-- `for (int i = last_deviation; i < size; ++i)`.
unfoldable pub spur_range : Option ℕ → ℕ → List (Option ℕ)
unfolding range
spur_range none size = none ∷ range 0 size
spur_range (some i) size = range i (size - i)

module _ (D : Double) where
  open D use {Carrier, le}

  unfoldable pub count_goals : List Carrier → ℕ
  count_goals [] = 0
  count_goals (g ∷ gs) = (if le (zero_of D) g then 1 else 0) + count_goals gs

  -- Whether an accepted path is the root, and the banned edges of those that go on from it at `i`.
  unfoldable pub ends_at_root : List ℕ → List (ShortestPath D) → Bool
  unfolding shares_root
  ends_at_root root [] = false
  ends_at_root root (p ∷ ps) =
      shares_root root p.vertices && length p.vertices == length root || ends_at_root root ps

  unfoldable pub banned_at : ℕ → List ℕ → List (ShortestPath D) → List ℕ
  unfolding shares_root edge_key
  banned_at i root [] = []
  banned_at i root (p ∷ ps) =
      let rest = banned_at i root ps in
      if shares_root root p.vertices && not (length p.vertices == length root)
      then edge_key (get_or p.vertices i 0) (get_or p.vertices (i + 1) 0) ∷ rest
      else rest

  unfoldable pub banned_sources : List (ShortestPath D) → List ℕ
  unfolding front
  banned_sources [] = []
  banned_sources (p ∷ ps) =
      let rest = banned_sources ps in
      if length p.vertices == 0 then rest else front p.vertices ∷ rest

  unfoldable pub is_among : ℤ → List ℕ → Bool
  is_among v [] = false
  is_among v (x ∷ xs) = eqb_ℤ (pos x) v || is_among v xs

  unfoldable pub spur_sources : List ℕ → List (SeededEndpoint D) → List (SeededEndpoint D)
  unfolding is_among
  spur_sources banned [] = []
  spur_sources banned (s ∷ ss) =
      let rest = spur_sources banned ss in if is_among s.vertex banned then rest else s ∷ rest

  -- What stays the same during a run.
  pub record Plan : Type 0 where
    pub H : OpenSet D
    pub graph : NavGraph D
    pub sources : List (SeededEndpoint D)
    pub options : SearchOptions D
    pub source_seed : List Carrier
    pub goal_seed : List Carrier
    pub source_bearing : List Carrier
    pub goal_bearing : List Carrier
    pub heuristic : ℕ → Carrier

  -- What changes: the workspace, the candidates, and the two tables of the spur searches.
  pub record State : Type 0 where
    pub ws : SearchWorkspace D
    pub candidates : List (Candidate D)
    pub spur_source_bearing : List Carrier
    pub spur_bearing_vertex : Option ℕ
    pub spur_goal_seed : List Carrier

  unfoldable pub add_candidate :
      Plan → List ℕ → ShortestPath D → Option ℕ → List (Candidate D) → List (Candidate D)
  unfolding drop_last
  add_candidate plan root spur deviation candidates =
      let total = drop_last root ++ spur.vertices in
      if not spur.found || length spur.vertices == 0
      then candidates
      else elim (cost_of_path_multi D plan.graph total plan.source_seed plan.goal_seed
          plan.source_bearing plan.goal_bearing plan.options) [
            | none ↦ candidates
            | some (cost, distance) ↦
                insert_candidate D
                  (record {
                    cost = cost;
                    distance = distance;
                    vertices = total;
                    deviation = deviation;
                  })
                  candidates
          ]

  abbrev pub base_query : Plan → Query D
  base_query plan = record {
    H = plan.H;
    graph = plan.graph;
    goal_seed = plan.goal_seed;
    source_bearing = plan.source_bearing;
    goal_bearing = plan.goal_bearing;
    options = plan.options;
    heuristic = plan.heuristic;
  }

  -- A search's path goes to the candidates, and its workspace to the next search.
  unfoldable pub fold_in :
      Plan → List ℕ → Option ℕ → State → Option (ShortestPath D × SearchWorkspace D) → Option State
  unfolding add_candidate
  fold_in plan root deviation st none = none
  fold_in plan root deviation st (some (spur, ws)) =
      some
        (record st { ws = ws; candidates = add_candidate plan root spur deviation st.candidates })

  unfoldable pub source_spur : Plan → List (ShortestPath D) → State → Option State
  unfolding spur_sources banned_sources fold_in
  source_spur plan accepted st =
      let starts = spur_sources (banned_sources accepted) plan.sources in
      if length starts == 0
      then some st
      else fold_in plan [] none st (find_shortest_path_in D (base_query plan) starts st.ws)

  unfoldable pub clear_bearing : Option ℕ → List Carrier → List Carrier
  clear_bearing none table = table
  clear_bearing (some v) table = set table v (no_bearing D)

  unfoldable pub inbound_at_spur : Plan → List ℕ → ℕ → Carrier
  inbound_at_spur plan prev_path zero =
      get_or plan.source_bearing (get_or prev_path 0 0) (zero_of D)
  inbound_at_spur plan prev_path (suc i) =
      bearing_to D (coord_of D plan.graph (get_or prev_path i 0))
        (coord_of D plan.graph (get_or prev_path (suc i) 0))

  unfoldable pub spur_options : Plan → List (ShortestPath D) → List ℕ → ℕ → SearchOptions D
  unfolding merge_banned banned_at drop_last
  spur_options plan accepted root i = record plan.options {
    node_filter = record plan.options.node_filter {
      banned = some (merge_banned plan.options.node_filter.banned (drop_last root));
    };
    edge_filter = record {
      banned = some (merge_banned plan.options.edge_filter.banned (banned_at i root accepted));
    };
  }

  abbrev pub spur_query : Plan → SearchOptions D → List Carrier → List Carrier → Query D
  spur_query plan options goal_seed source_bearing = record {
    H = plan.H;
    graph = plan.graph;
    goal_seed = goal_seed;
    source_bearing = source_bearing;
    goal_bearing = plan.goal_bearing;
    options = options;
    heuristic = plan.heuristic;
  }

  abbrev pub seed_at : ℕ → SeededEndpoint D
  seed_at v = record { vertex = pos v; cost = zero_of D; bearing = no_bearing D }

  unfoldable pub node_spur : Plan → List (ShortestPath D) → List ℕ → ℕ → State → Option State
  unfolding ends_at_root count_goals clear_bearing inbound_at_spur spur_options fold_in
  node_spur plan accepted prev_path i st =
      let spur_node = get_or prev_path i 0 in
      let root = take (suc i) prev_path in
      let ends_at_spur = ends_at_root root accepted in
      let source_bearing =
        set (clear_bearing st.spur_bearing_vertex st.spur_source_bearing) spur_node
          (inbound_at_spur plan prev_path i) in
      let goal_seed =
        if ends_at_spur
        then set st.spur_goal_seed spur_node (not_an_endpoint D)
        else st.spur_goal_seed in
      if ends_at_spur
        && (le (zero_of D) (get_or plan.goal_seed spur_node (not_an_endpoint D))
            && ltb (count_goals plan.goal_seed) 2)
      then some st
      else fold_in plan root (some i)
          (record st {
            spur_source_bearing = source_bearing;
            spur_bearing_vertex = some spur_node;
            spur_goal_seed =
                set goal_seed spur_node (get_or plan.goal_seed spur_node (not_an_endpoint D));
          })
          (find_shortest_path_in D
            (spur_query plan (spur_options plan accepted root i) goal_seed source_bearing)
            (seed_at spur_node ∷ []) st.ws)

  unfoldable pub one_spur : Plan → List (ShortestPath D) → List ℕ → Option ℕ → State → Option State
  unfolding source_spur node_spur
  one_spur plan accepted prev_path none st = source_spur plan accepted st
  one_spur plan accepted prev_path (some i) st = node_spur plan accepted prev_path i st

  unfoldable pub all_spurs :
      Plan → List (ShortestPath D) → List ℕ → List (Option ℕ) → State → Option State
  unfolding one_spur
  all_spurs plan accepted prev_path [] st = some st
  all_spurs plan accepted prev_path (i ∷ is) st = elim (one_spur plan accepted prev_path i st) [
    | none ↦ none
    | some st' ↦ all_spurs plan accepted prev_path is st'
  ]

  abbrev pub path_of : Candidate D → ShortestPath D
  path_of c = record {
    vertices = c.vertices;
    distance_nm = c.distance;
    cost = c.cost;
    found = true;
  }

  -- `rounds` is how many paths are still wanted, and `prev` the path accepted last.
  unfoldable pub rounds :
      ℕ → Plan → List (ShortestPath D) → List ℕ → Option ℕ → State → Option (List (ShortestPath D))
  unfolding spur_range
  rounds zero plan accepted prev last_deviation st = some accepted
  rounds (suc k) plan accepted prev last_deviation st =
      elim (all_spurs plan accepted prev (spur_range last_deviation (length prev)) st) [
        | none ↦ none
        | some st' ↦ elim st'.candidates [
          | [] ↦ some accepted
          | c ∷ cs ↦
              rounds k plan (accepted ++ (path_of c ∷ [])) c.vertices c.deviation
                (record st' { candidates = cs })
        ]
      ]

  abbrev pub plan_for :
      OpenSet D
      → NavGraph D
      → List (SeededEndpoint D)
      → List (SeededEndpoint D)
      → SearchOptions D
      → Plan
  plan_for H graph sources goals options =
      let n = vertex_count D graph in
      record {
        H = H;
        graph = graph;
        sources = sources;
        options = options;
        source_seed = build_seed_table D sources n;
        goal_seed = build_seed_table D goals n;
        source_bearing = build_bearing_table D sources n;
        goal_bearing = build_bearing_table D goals n;
        heuristic = heuristic_value D (new_heuristic D graph goals);
      }

  unfoldable pub first_state : Plan → SearchWorkspace D → State
  first_state plan ws = record {
    ws = ws;
    candidates = [];
    spur_source_bearing = replicate (vertex_count D plan.graph) (no_bearing D);
    spur_bearing_vertex = none;
    spur_goal_seed = plan.goal_seed;
  }

  -- The first search's answer, and the rounds after it.
  unfoldable pub after_first :
      ℕ → Plan → Option (ShortestPath D × SearchWorkspace D) → Option (List (ShortestPath D))
  unfolding rounds first_state
  after_first more plan none = none
  after_first more plan (some (p, ws)) =
      let others = rounds more plan (p ∷ []) p.vertices none (first_state plan ws) in
      if not p.found then some [] else others

  unfoldable pub find_k_shortest_paths_multi :
      OpenSet D
      → NavGraph D
      → List (SeededEndpoint D)
      → List (SeededEndpoint D)
      → ℤ
      → SearchOptions D
      → Option (List (ShortestPath D))
  unfolding after_first
  find_k_shortest_paths_multi H graph sources goals k options =
      let plan = plan_for H graph sources goals options in
      if not (ltb_ℤ (pos 0) k) || (length sources == 0 || length goals == 0)
      then some []
      else after_first (pos_part k - 1) plan
          (find_shortest_path_in D (base_query plan) sources (new_workspace D))

  unfoldable pub find_k_shortest_paths :
      OpenSet D → NavGraph D → ℤ → ℤ → ℤ → SearchOptions D → Option (List (ShortestPath D))
  unfolding find_k_shortest_paths_multi
  find_k_shortest_paths H graph start goal k options =
      find_k_shortest_paths_multi H graph
        (record { vertex = start; cost = zero_of D; bearing = no_bearing D } ∷ [])
        (record { vertex = goal; cost = zero_of D; bearing = no_bearing D } ∷ []) k options
