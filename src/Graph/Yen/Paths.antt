-- ===== src/Graph/Yen/Paths.antt =====
-- The whole of `FindKShortestPathsMulti`: it returns, and its paths are different routes.
use mathlib.Core.List.{append_assoc, append-nil}
use bravo_finder.Prelude.{
  ℕ, zero, suc, ◌+◌, ◌*◌, ◌-◌, ◌^◌, ◌<◌, ◌≤◌, ◌≡◌, ◌≢◌, refl, sym, ap, subst, ◌∙◌, inl, inr, true,
  false, not, ◌||◌, List, [], ◌∷◌, ◌++◌, length, Option, none, some, All, All-append, get_or,
  length-set, replicate, length-replicate, Bool-cases, ◌==◌, if◌then◌else◌, arith,
}
use bravo_finder.Prelude.Int.{pos, pos_part, ltb_ℤ}
use bravo_finder.Double.{Double, zero_of}
use bravo_finder.Graph.Nav.{NavGraph, vertex_count}
use bravo_finder.Graph.Options.{SearchOptions, SeededEndpoint, OpenSet, IsHeap}
use bravo_finder.Graph.Workspace.{SearchWorkspace, new_workspace}
use bravo_finder.Graph.Tables.{
  outside, improves, seed_step, seed_loop, build_seed_table, build_bearing_table, not_an_endpoint,
}
use bravo_finder.Graph.Search.{
  Query, query_for, ShortestPath, find_shortest_path_in, find_shortest_path_multi,
}
use bravo_finder.Graph.Search.Spec.{IsWellFormed, IsAnswer}
use bravo_finder.Graph.Search.Seeding.{IsIdle, fresh-IsIdle}
use bravo_finder.Graph.Search.Answers.{
  AnsweredTo, at_goal, find_shortest_path_in-Answered, new_workspace-IsRested,
}
use bravo_finder.Graph.Search.Reuse.{find_shortest_path_in-Idle}
use bravo_finder.Graph.Yen.Forward.{IsAnswer-Forward}
use bravo_finder.Graph.Yen.{Candidate, candidate_lt, cost_of_path_multi}
use bravo_finder.Graph.Yen.Rounds.{
  Plan, State, spur_range, path_of, rounds, plan_for, first_state, after_first,
  find_k_shortest_paths_multi,
}
use bravo_finder.Graph.Yen.Lists.{Nodup-length}
use bravo_finder.Graph.Yen.Candidates.{IsOrdered, InOrder, candidate_lt_same}
use bravo_finder.Graph.Yen.Spurs.{IsPath, IsPlan, IsCandidate, IsState, price_of}
use bravo_finder.Graph.Yen.Steps.{
  fewer_left, all_spurs-IsState, spur_range-InPath, length-spur_range,
}

-- No two of the paths have the same vertices.
abbrev pub Apart : (D : Double) → List (ShortestPath D) → Type 0
Apart D [] = Unit {0}
Apart D (p ∷ ps) = All (λ (q : ShortestPath D). p.vertices ≢ q.vertices) ps × Apart D ps

Apart-append :
    (D : Double) (ps : List (ShortestPath D)) (q : ShortestPath D)
    → Apart D ps
    → All (λ (p : ShortestPath D). p.vertices ≢ q.vertices) ps
    → Apart D (ps ++ (q ∷ []))
Apart-append D [] q a h = (tt, tt)
Apart-append D (p ∷ ps) q a h = (
  All-append (λ (r : ShortestPath D). p.vertices ≢ r.vertices) ps (q ∷ []) a.0 (h.0, tt),
  Apart-append D ps q a.1 h.1,
)

module _ (D : Double) (plan : Plan D) where
  abbrev pub N : ℕ
  N = vertex_count D plan.graph

  -- A path after the first: in the graph, without repetition, and with the price of the whole of it.
  pub record IsFurther (p : ShortestPath D) : Type 0 where
    pub path : IsPath N p.vertices
    pub priced :
        cost_of_path_multi D plan.graph p.vertices plan.source_seed plan.goal_seed
          plan.source_bearing plan.goal_bearing plan.options
        ≡ some (p.cost, p.distance_nm)
    pub found : p.found ≡ true

  -- What the rounds make of the answer `p` of the first search, of which `n` more are wanted.
  abbrev pub Ranked : ℕ → ShortestPath D → Option (List (ShortestPath D)) → Type 0
  Ranked n p r =
      (more : List (ShortestPath D)) × (r ≡ some (if p.found then p ∷ more else []))
      × (length more ≤ n)
      × All IsFurther more
      × Apart D (p ∷ more)

module _ (D : Double) (plan : Plan D) (P : IsPlan D plan) where
  at_most :
      (extra left : ℕ) (accepted : List (ShortestPath D)) (st : State D)
      → IsState D plan P (extra + left) accepted st
      → IsState D plan P left accepted st
  at_most zero left accepted st s = subst (λ k. IsState D plan P k accepted st) (omega arith) s
  at_most (suc extra) left accepted st s = at_most extra left accepted st (
      fewer_left D plan P (extra + left) accepted st
        (subst (λ k. IsState D plan P k accepted st) (omega arith) s))

  candidates_apart :
      (accepted : List (ShortestPath D)) (c d : Candidate D)
      → IsCandidate D plan P accepted c
      → IsCandidate D plan P accepted d
      → candidate_lt D c d ≡ true
      → c.vertices ≢ d.vertices
  candidates_apart accepted c d hc hd less e =
      let prices : some (c.cost, c.distance) ≡ some (d.cost, d.distance) =
        sym hc.costed ∙ ap (price_of D plan P) e ∙ hd.costed in
      let same : c.cost ≡ d.cost = cc prices in
      let not_less =
        candidate_lt_same D P.order c d (P.numbers c.vertices c.cost c.distance hc.costed) same e in
      let wrong : true ≡ false = sym less ∙ not_less in cc wrong

  -- The best candidate is accepted, and the others are new beside it.
  rest_new :
      (accepted : List (ShortestPath D)) (c : Candidate D) (cs : List (Candidate D))
      → IsCandidate D plan P accepted c
      → All (λ (d : Candidate D). candidate_lt D c d ≡ true) cs
      → All (IsCandidate D plan P accepted) cs
      → All (IsCandidate D plan P (accepted ++ (path_of D c ∷ []))) cs
  rest_new accepted c [] hc o h = tt
  rest_new accepted c (d ∷ ds) hc o h = (
    record {
      path = h.0.path;
      costed = h.0.costed;
      fresh =
          All-append (λ (p : ShortestPath D). p.vertices ≢ d.vertices) accepted (path_of D c ∷ [])
            h.0.fresh (candidates_apart accepted c d hc h.0 o.0, tt);
    },
    rest_new accepted c ds hc o.1 h.1,
  )

  -- What the rounds add to the accepted paths.
  abbrev Added : ℕ → List (ShortestPath D) → Option (List (ShortestPath D)) → Type 0
  Added k accepted r =
      (more : List (ShortestPath D)) × (r ≡ some (accepted ++ more))
      × (length more ≤ k)
      × All (IsFurther D plan) more
      × Apart D (accepted ++ more)

  abbrev Again : ℕ → Type 0
  Again k =
      (accepted : List (ShortestPath D)) (prev : List ℕ) (d : Option ℕ) (st : State D)
      → IsPath (N D plan) prev
      → Apart D accepted
      → IsState D plan P (k * (N D plan + 1)) accepted st
      → Added k accepted (rounds D k plan accepted prev d st)

  nothing_more :
      (k : ℕ) (accepted : List (ShortestPath D))
      → Apart D accepted
      → Added k accepted (some accepted)
  nothing_more k accepted apart =
      let same = sym (append-nil accepted) in
      ([], ap some same, omega arith, tt, subst (Apart D) same apart)

  abbrev with_best :
      ℕ → List (ShortestPath D) → State D → List (Candidate D) → Option (List (ShortestPath D))
  with_best k accepted st [] = some accepted
  with_best k accepted st (c ∷ rest) =
      rounds D k plan (accepted ++ (path_of D c ∷ [])) c.vertices c.deviation
        (record st { candidates = rest })

  -- The rest of a round: no candidate, or the best of them and the rounds after it.
  accept_best :
      (k : ℕ) (accepted : List (ShortestPath D)) (st : State D) (cs : List (Candidate D))
      → Again k
      → st.candidates ≡ cs
      → Apart D accepted
      → IsState D plan P (k * (N D plan + 1)) accepted st
      → Added (suc k) accepted (with_best k accepted st cs)
  accept_best k accepted st [] again e apart s = nothing_more (suc k) accepted apart
  accept_best k accepted st (c ∷ rest) again e apart s =
      let all = subst (All (IsCandidate D plan P accepted)) e s.candidates in
      let order = subst (InOrder D P.order) e s.order in
      let grown = Apart-append D accepted (path_of D c) apart all.0.fresh in
      let (more, ran, few, further, others) =
        again (accepted ++ (path_of D c ∷ [])) c.vertices c.deviation
          (record st { candidates = rest }) all.0.path grown
          (record {
            idle = s.idle;
            budget = s.budget;
            table = s.table;
            candidates = rest_new accepted c rest all.0 order.0 all.1;
            order = order.1;
          }) in
      let assoc = append_assoc accepted (path_of D c ∷ []) more in
      (
        path_of D c ∷ more,
        ran ∙ ap some assoc,
        omega (arith, few),
        (record { path = all.0.path; priced = all.0.costed; found = refl }, further),
        subst (Apart D) assoc others,
      )

  rounds-Added : (k : ℕ) → Again k
  unfolding rounds
  rounds-Added zero accepted prev d st path apart s = nothing_more zero accepted apart
  rounds-Added (suc k) accepted prev d st path apart s =
      let is = spur_range d (length prev) in
      let short = Nodup-length (N D plan) prev path.simple path.inside in
      let few = length-spur_range D plan P d (length prev) in
      let left = k * (N D plan + 1) in
      let enough : length is + ((N D plan + 1 - length is) + left) ≡ suc k * (N D plan + 1) =
        grind arith in
      let (st', ran, s') =
        all_spurs-IsState D plan P accepted prev is ((N D plan + 1 - length is) + left) st path
          (spur_range-InPath D plan P prev d)
          (subst (λ m. IsState D plan P m accepted st) (sym enough) s) in
      rw (rounds, ran)
        (accept_best k accepted st' st'.candidates (rounds-Added k) refl apart
          (at_most (N D plan + 1 - length is) left accepted st' s'))

  after_first-Ranked :
      (n : ℕ) (p : ShortestPath D) (ws : SearchWorkspace D)
      → (p.found ≡ true → IsPath (N D plan) p.vertices)
      → IsIdle D ws.generation ws
      → ws.generation + n * (N D plan + 1) < 2 ^ 32
      → Ranked D plan n p (after_first D n plan (some (p, ws)))
  unfolding after_first first_state
  after_first-Ranked n p ws path idle enough = elim (Bool-cases p.found) [
    | inl here ↦
        let (more, ran, few, further, apart) =
          rounds-Added n (p ∷ []) p.vertices none (first_state D plan ws) (path here) (tt, tt)
            (record {
              idle = idle;
              budget = enough;
              table = P.goals;
              candidates = tt;
              order = tt;
            }) in
        let all = rounds D n plan (p ∷ []) p.vertices none (first_state D plan ws) in
        (
          more,
          ap (λ b. if not b then some [] else all) here
              ∙ ran
              ∙ sym (ap (λ b. some (if b then p ∷ more else [])) here),
          few,
          further,
          apart,
        )
    | inr missing ↦
        let all = rounds D n plan (p ∷ []) p.vertices none (first_state D plan ws) in
        (
          [],
          ap (λ b. if not b then some [] else all) missing
              ∙ sym (ap (λ b. some (if b then p ∷ [] else [])) missing),
          omega arith,
          tt,
          (tt, tt),
        )
  ]

IsAnswer-IsPath :
    (D : Double) (q : Query D) (sources : List (SeededEndpoint D)) (wf : IsWellFormed D q.graph)
    (p : ShortestPath D)
    → IsAnswer D q sources p
    → IsPath (vertex_count D q.graph) p.vertices
IsAnswer-IsPath D q sources wf p a =
    let f = IsAnswer-Forward D q sources wf p a in
    record {
      nonempty = λ e. let wrong = sym f.onward_path.split ∙ e in cc;
      simple = f.simple;
      inside = f.inside;
    }

module _ (D : Double) where
  length-seed_loop :
      (n : ℕ) (es : List (SeededEndpoint D)) (seed : List D.Carrier)
      → length (seed_loop D n es seed) ≡ length seed
  unfolding seed_loop seed_step
  length-seed_loop n [] seed = refl
  length-seed_loop n (e ∷ es) seed =
      length-seed_loop n es (seed_step D n seed e) ∙ elim (Bool-cases (outside e.vertex n)) [
        | inl out ↦ rw out refl
        | inr inside ↦
            elim (Bool-cases (improves D (get_or seed (pos_part e.vertex) (zero_of D)) e.cost)) [
              | inl better ↦ rw (inside, better) (length-set seed (pos_part e.vertex) e.cost)
              | inr not_better ↦ rw (inside, not_better) refl
            ]
      ]

  length-build_seed_table :
      (es : List (SeededEndpoint D)) (n : ℕ) → length (build_seed_table D es n) ≡ n
  unfolding build_seed_table
  length-build_seed_table es n =
      length-seed_loop n es (replicate n (not_an_endpoint D))
      ∙ length-replicate n (not_an_endpoint D)

  first_alone :
      (H : OpenSet D) (graph : NavGraph D) (sources goals : List (SeededEndpoint D))
      (options : SearchOptions D) (p : ShortestPath D) (ws : SearchWorkspace D)
      → find_shortest_path_in D
          (query_for D H graph sources goals options)
          sources
          (new_workspace D)
        ≡ some (p, ws)
      → find_shortest_path_multi D H graph sources goals options ≡ some p
  unfolding find_shortest_path_multi
  first_alone H graph sources goals options p ws found = rw (found, find_shortest_path_multi) refl

  goes_on :
      (H : OpenSet D) (graph : NavGraph D) (sources goals : List (SeededEndpoint D))
      (options : SearchOptions D) (n : ℕ) (p : ShortestPath D) (ws : SearchWorkspace D)
      → (length sources == 0 || length goals == 0) ≡ false
      → find_shortest_path_in D
          (query_for D H graph sources goals options)
          sources
          (new_workspace D)
        ≡ some (p, ws)
      → find_k_shortest_paths_multi D H graph sources goals (pos (suc n)) options
        ≡ after_first D n (plan_for D H graph sources goals options) (some (p, ws))
  unfolding find_k_shortest_paths_multi
  goes_on H graph sources goals options n p ws ends found =
      let positive : ltb_ℤ (pos 0) (pos (suc n)) ≡ true = ground arith in
      let count : suc n - 1 ≡ n = omega arith in rw (positive, ends, found, count) refl

  -- For at least one source and one goal, on a graph whose edges end at its vertices, with any heap
  -- that keeps the standard's promises, comparisons of numbers that are those of an order, costs of
  -- whole paths that are numbers, `0 <= -1` false and fewer searches than a 32-bit generation number
  -- counts, the request for `suc n` paths returns. Nothing is reported if the single search for the
  -- shortest path finds nothing; otherwise its answer, which ends at one of the given goals, comes
  -- first, and after it at most `n` more paths, each of vertices of the graph without repetition, with the price and length of the path as
  -- a whole. No two of the paths are the same sequence of vertices.
  pub find_k_shortest_paths_multi-Ranked :
      (H : OpenSet D) (V : IsHeap D H) (graph : NavGraph D) (wf : IsWellFormed D graph)
      (order : IsOrdered D) (sources goals : List (SeededEndpoint D)) (options : SearchOptions D)
      (n : ℕ)
      → D.le (zero_of D) (not_an_endpoint D) ≡ false
      → ((path : List ℕ) (cost distance : D.Carrier)
          → cost_of_path_multi D graph path
              (build_seed_table D sources (vertex_count D graph))
              (build_seed_table D goals (vertex_count D graph))
              (build_bearing_table D sources (vertex_count D graph))
              (build_bearing_table D goals (vertex_count D graph))
              options
            ≡ some (cost, distance)
          → D.eq cost cost ≡ true)
      → (length sources == 0 || length goals == 0) ≡ false
      → n * (vertex_count D graph + 1) + 1 < 2 ^ 32
      → (p : ShortestPath D) × (find_shortest_path_multi D H graph sources goals options ≡ some p)
        × AnsweredTo D (query_for D H graph sources goals options) sources goals p
        × Ranked D
            (plan_for D H graph sources goals options)
            n
            p
            (find_k_shortest_paths_multi D H graph sources goals (pos (suc n)) options)
  find_k_shortest_paths_multi-Ranked H V graph wf order sources goals options n negative numbers
        ends enough =
      let plan = plan_for D H graph sources goals options in
      let P : IsPlan D plan = record {
        heap = V;
        graph = wf;
        order = order;
        negative = negative;
        numbers = numbers;
        goals = length-build_seed_table goals (vertex_count D graph);
      } in
      let q = query_for D H graph sources goals options in
      let rested = new_workspace-IsRested D in
      let (p, ws, found, answered) =
        find_shortest_path_in-Answered D q sources V wf (new_workspace D) rested in
      let idle =
        find_shortest_path_in-Idle D q ((new_workspace D).generation + 1) sources (new_workspace D)
          p ws (fresh-IsIdle D (vertex_count D graph) (new_workspace D) rested)
          (inr (λ e. ground (arith, ends, ap length e))) found in
      let one : ws.generation ≡ 1 = idle.generation_eq ∙ (unfold new_workspace in refl) in
      let path : p.found ≡ true → IsPath (vertex_count D graph) p.vertices = λ here. elim answered [
        | inl nothing ↦
            let wrong : false ≡ true = sym (ap (λ (x : ShortestPath D). x.found) nothing) ∙ here in
            absurd (cc wrong)
        | inr (a, _) ↦ IsAnswer-IsPath D q sources wf p a
      ] in
      let ranked =
        after_first-Ranked D plan P n p ws path
          (subst (λ g. IsIdle D g ws) (sym idle.generation_eq) idle) (omega (arith, one, enough)) in
      (
        p,
        first_alone H graph sources goals options p ws found,
        at_goal D H graph sources goals options negative p answered,
        subst (Ranked D plan n p) (sym (goes_on H graph sources goals options n p ws ends found))
            ranked,
      )
