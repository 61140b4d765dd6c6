-- ===== src/Graph/Yen/Spurs.antt =====
-- One spur search: it returns, and a path that it adds is a new one.
use bravo_finder.Prelude.{
  ℕ, suc, ◌+◌, ◌^◌, ◌<◌, ◌≡◌, ◌≢◌, refl, sym, ap, subst, ◌∙◌, inl, inr, true, false, not, ◌||◌,
  List, [], ◌∷◌, ◌++◌, length, Option, none, some, All, Bool-cases, ◌==◌, arith,
}
use bravo_finder.Double.{Double, zero_of}
use bravo_finder.Graph.Nav.{vertex_count}
use bravo_finder.Graph.Options.{SearchOptions, SeededEndpoint, IsHeap}
use bravo_finder.Graph.Tables.{not_an_endpoint}
use bravo_finder.Graph.Search.{ShortestPath, find_shortest_path_in}
use bravo_finder.Graph.Search.Spec.{IsWellFormed, Nodup}
use bravo_finder.Graph.Search.Seeding.{IsIdle, IsRested, fresh-IsIdle}
use bravo_finder.Graph.Search.Answers.{find_shortest_path_in-Answered}
use bravo_finder.Graph.Search.Reuse.{find_shortest_path_in-Idle}
use bravo_finder.Graph.Yen.{Candidate, cost_of_path_multi, insert_candidate}
use bravo_finder.Graph.Yen.Rounds.{Plan, State, drop_last, add_candidate, fold_in, spur_query}
use bravo_finder.Graph.Yen.Forward.{Forward, IsAnswer-Forward}
use bravo_finder.Graph.Yen.Candidates.{
  IsOrdered, InOrder, insert_candidate-All, insert_candidate-InOrder,
}

-- A path without repetition among the vertices of the graph.
pub record IsPath (n : ℕ) (vs : List ℕ) : Type 0 where
  pub nonempty : vs ≢ []
  pub simple : Nodup vs
  pub inside : All (λ x. x < n) vs

-- What the lemmas on a run of Yen's algorithm suppose of it.
pub record IsPlan (D : Double) (plan : Plan D) : Type 1 where
  pub heap : IsHeap D plan.H
  pub graph : IsWellFormed D plan.graph
  pub order : IsOrdered D
  -- `0 <= -1` does not hold.
  pub negative : D.le (zero_of D) (not_an_endpoint D) ≡ false
  pub numbers :
      (path : List ℕ) (cost distance : D.Carrier)
      → cost_of_path_multi D plan.graph path plan.source_seed plan.goal_seed plan.source_bearing
          plan.goal_bearing plan.options
        ≡ some (cost, distance)
      → D.eq cost cost ≡ true
  pub goals : length plan.goal_seed ≡ vertex_count D plan.graph

module _ (D : Double) (plan : Plan D) (P : IsPlan D plan) where
  open D use {Carrier, le}
  open plan use {graph, options, source_seed, goal_seed, source_bearing, goal_bearing}

  abbrev pub n : ℕ
  n = vertex_count D graph

  abbrev pub price_of : List ℕ → Option (Carrier × Carrier)
  price_of path =
      cost_of_path_multi D graph path source_seed goal_seed source_bearing goal_bearing options

  abbrev pub IsNew : List (ShortestPath D) → List ℕ → Type 0
  IsNew accepted vs = All (λ (p : ShortestPath D). p.vertices ≢ vs) accepted

  pub record IsCandidate (accepted : List (ShortestPath D)) (c : Candidate D) : Type 0 where
    pub path : IsPath n c.vertices
    pub costed : price_of c.vertices ≡ some (c.cost, c.distance)
    pub fresh : IsNew accepted c.vertices

  -- Between two spur searches, of which `left` more may come.
  pub record IsState (left : ℕ) (accepted : List (ShortestPath D)) (st : State D) : Type 0 where
    pub idle : IsIdle D st.ws.generation st.ws
    pub budget : st.ws.generation + left < 2 ^ 32
    pub table : length st.spur_goal_seed ≡ n
    pub candidates : All (IsCandidate accepted) st.candidates
    pub order : InOrder D P.order st.candidates

  candidates_numbers :
      (accepted : List (ShortestPath D)) (cs : List (Candidate D))
      → All (IsCandidate accepted) cs
      → All (λ (c : Candidate D). D.eq c.cost c.cost ≡ true) cs
  candidates_numbers accepted [] h = tt
  candidates_numbers accepted (c ∷ cs) h =
      (P.numbers c.vertices c.cost c.distance h.0.costed, candidates_numbers accepted cs h.1)

  -- The candidates after a path that has the price `r`.
  abbrev priced_into :
      List ℕ → Option ℕ → List (Candidate D) → Option (Carrier × Carrier) → List (Candidate D)
  priced_into total deviation cs none = cs
  priced_into total deviation cs (some (cost, distance)) =
      insert_candidate D
        (record { cost = cost; distance = distance; vertices = total; deviation = deviation }) cs

  abbrev Kept : List (ShortestPath D) → List (Candidate D) → Type 0
  Kept accepted cs = All (IsCandidate accepted) cs × InOrder D P.order cs

  priced_into-Kept :
      (accepted : List (ShortestPath D)) (total : List ℕ) (deviation : Option ℕ)
      (cs : List (Candidate D)) (r : Option (Carrier × Carrier))
      → price_of total ≡ r
      → IsPath n total × IsNew accepted total
      → Kept accepted cs
      → Kept accepted (priced_into total deviation cs r)
  priced_into-Kept accepted total deviation cs none e good k = k
  priced_into-Kept accepted total deviation cs (some (cost, distance)) e good (h, o) =
      let c : Candidate D = record {
        cost = cost;
        distance = distance;
        vertices = total;
        deviation = deviation;
      } in
      let mine : IsCandidate accepted c = record { path = good.0; costed = e; fresh = good.1 } in
      (
        insert_candidate-All D P.order (IsCandidate accepted) c cs mine h,
        insert_candidate-InOrder D P.order c cs (P.numbers total cost distance e)
            (candidates_numbers accepted cs h) o,
      )

  add_candidate-Kept :
      (accepted : List (ShortestPath D)) (root : List ℕ) (spur : ShortestPath D)
      (deviation : Option ℕ) (cs : List (Candidate D))
      → (spur.found ≡ true
          → IsPath n (drop_last root ++ spur.vertices)
            × IsNew accepted (drop_last root ++ spur.vertices))
      → Kept accepted cs
      → Kept accepted (add_candidate D plan root spur deviation cs)
  unfolding add_candidate
  add_candidate-Kept accepted root spur deviation cs ok k =
      elim (Bool-cases (not spur.found || length spur.vertices == 0)) [
        | inl skip ↦ rw skip k
        | inr go ↦
            let total = drop_last root ++ spur.vertices in
            rw go (
              priced_into-Kept accepted total deviation cs (price_of total) refl (ok (ground arith))
                k)
      ]

  -- A search from `starts`, and its path among the candidates.
  pub search_step :
      (accepted : List (ShortestPath D)) (root : List ℕ) (deviation : Option ℕ) (left : ℕ)
      (st : State D) (q_options : SearchOptions D) (q_goals q_bearing : List Carrier)
      (starts : List (SeededEndpoint D))
      → starts ≢ []
      → IsState (suc left) accepted st
      → ((p : ShortestPath D)
          → Forward D (spur_query D plan q_options q_goals q_bearing) starts P.graph p
          → IsPath n (drop_last root ++ p.vertices) × IsNew accepted (drop_last root ++ p.vertices))
      → (st' : State D) × (fold_in D plan root deviation st
            (find_shortest_path_in D (spur_query D plan q_options q_goals q_bearing) starts st.ws)
          ≡ some st')
        × IsState left accepted st'
  unfolding fold_in
  search_step accepted root deviation left st q_options q_goals q_bearing starts ne s ok =
      let q = spur_query D plan q_options q_goals q_bearing in
      let rested : IsRested D st.ws = record {
        idle = s.idle;
        searches_left = omega (arith, s.budget);
      } in
      let (p, ws', found, answered) =
        find_shortest_path_in-Answered D q starts P.heap P.graph st.ws rested in
      let idle =
        find_shortest_path_in-Idle D q (st.ws.generation + 1) starts st.ws p ws'
          (fresh-IsIdle D n st.ws rested) (inr ne) found in
      let good : p.found ≡ true
          → IsPath n (drop_last root ++ p.vertices)
            × IsNew accepted (drop_last root ++ p.vertices) =
        λ yes. elim answered [
          | inl nothing ↦
              let wrong : false ≡ true = sym (ap (λ (x : ShortestPath D). x.found) nothing) ∙ yes in
              cc
          | inr (a, _) ↦ ok p (IsAnswer-Forward D q starts P.graph p a)
        ] in
      let kept =
        add_candidate-Kept accepted root p deviation st.candidates good (s.candidates, s.order) in
      (
        record st { ws = ws'; candidates = add_candidate D plan root p deviation st.candidates },
        rw found refl,
        record {
          idle = subst (λ g. IsIdle D g ws') (sym idle.generation_eq) idle;
          budget = omega (arith, idle.generation_eq, s.budget);
          table = s.table;
          candidates = kept.0;
          order = kept.1;
        },
      )
