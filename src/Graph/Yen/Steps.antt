-- ===== src/Graph/Yen/Steps.antt =====
-- The spur searches of a round: each returns, and they leave the candidates new and in order.
use bravo_finder.Prelude.{
  ℕ, zero, suc, ◌+◌, ◌-◌, ◌<◌, ◌≤◌, ◌≡◌, refl, sym, ap, subst, ◌∙◌, inl, inr, true, false, ◌&&◌,
  List, [], ◌∷◌, length, length-set, get_or, get_or-set_self, set, take, Option, none, some, All,
  Bool-cases, ltb, ◌==◌, if◌then◌else◌, arith,
}
use bravo_finder.Double.{Double, zero_of}
use bravo_finder.Graph.Nav.{vertex_count}
use bravo_finder.Graph.Tables.{not_an_endpoint}
use bravo_finder.Graph.Search.{ShortestPath}
use bravo_finder.Graph.Yen.Rounds.{
  Plan, State, range, spur_range, count_goals, ends_at_root, banned_sources, spur_sources,
  source_spur, clear_bearing, inbound_at_spur, spur_options, seed_at, node_spur, one_spur,
  all_spurs,
}
use bravo_finder.Graph.Yen.Lists.{cut}
use bravo_finder.Graph.Yen.Spurs.{IsPath, IsPlan, IsState, search_step}
use bravo_finder.Graph.Yen.Detours.{All-at, Cut-Detour, other_source}

module _ (D : Double) (plan : Plan D) (P : IsPlan D plan) where
  open D use {Carrier, le}

  abbrev N : ℕ
  N = vertex_count D plan.graph

  pub fewer_left :
      (left : ℕ) (accepted : List (ShortestPath D)) (st : State D)
      → IsState D plan P (suc left) accepted st
      → IsState D plan P left accepted st
  fewer_left left accepted st s = record {
    idle = s.idle;
    budget = omega (arith, s.budget);
    table = s.table;
    candidates = s.candidates;
    order = s.order;
  }

  source_spur-IsState :
      (accepted : List (ShortestPath D)) (left : ℕ) (st : State D)
      → IsState D plan P (suc left) accepted st
      → (st' : State D) × (source_spur D plan accepted st ≡ some st')
        × IsState D plan P left accepted st'
  unfolding source_spur
  source_spur-IsState accepted left st s =
      let starts = spur_sources D (banned_sources D accepted) plan.sources in
      elim (Bool-cases (length starts == 0)) [
        | inl nothing ↦ (st, rw nothing refl, fewer_left left accepted st s)
        | inr more ↦
            let (st', ran, s') =
              search_step D plan P accepted [] none left st plan.options plan.goal_seed
                plan.source_bearing starts (λ e. ground (arith, more, ap length e)) s
                (λ p f. other_source D plan P accepted p f) in
            (st', rw more ran, s')
      ]

  -- The spur search behind the vertex at `i` of `prev`.
  module _ (accepted : List (ShortestPath D)) (prev : List ℕ) (i : ℕ) (st : State D) where
    abbrev u : ℕ
    u = get_or prev i 0

    abbrev root : List ℕ
    root = take (suc i) prev

    abbrev bearing : List Carrier
    bearing =
        set (clear_bearing D st.spur_bearing_vertex st.spur_source_bearing) u
          (inbound_at_spur D plan prev i)

    abbrev goals : List Carrier
    goals =
        if ends_at_root D root accepted
        then set st.spur_goal_seed u (not_an_endpoint D)
        else st.spur_goal_seed

    u_inside : IsPath N prev → i < length prev → u < N
    u_inside path short =
        let c = cut i prev short in
        subst (λ v. v < N) (sym c.at)
          (All-at (λ v. v < N) c.pre c.v c.post (subst (All (λ v. v < N)) c.whole path.inside))

    goal_closed :
        length st.spur_goal_seed ≡ N
        → u < N
        → ends_at_root D root accepted ≡ true
        → le (zero_of D) (get_or goals u (not_an_endpoint D)) ≡ false
    goal_closed table inside ends =
        let here =
          get_or-set_self st.spur_goal_seed u (not_an_endpoint D) (not_an_endpoint D)
            (omega (arith, table, inside)) in
        rw (ends, here) P.negative

    node_spur-IsState :
        (left : ℕ)
        → IsPath N prev
        → i < length prev
        → IsState D plan P (suc left) accepted st
        → (st' : State D) × (node_spur D plan accepted prev i st ≡ some st')
          × IsState D plan P left accepted st'
    unfolding node_spur
    node_spur-IsState left path short s =
        elim (Bool-cases (
          ends_at_root D root accepted
          && (le (zero_of D) (get_or plan.goal_seed u (not_an_endpoint D))
              && ltb (count_goals D plan.goal_seed) 2))) [
                | inl skip ↦ (st, rw skip refl, fewer_left left accepted st s)
                | inr go ↦
                    let goals_length : length goals ≡ N =
                      ground (arith, length-set st.spur_goal_seed u (not_an_endpoint D), s.table) in
                    let (st', ran, s') =
                      search_step D plan P accepted root (some i) left
                        (record st {
                          spur_source_bearing = bearing;
                          spur_bearing_vertex = some u;
                          spur_goal_seed =
                              set goals u (get_or plan.goal_seed u (not_an_endpoint D));
                        })
                        (spur_options D plan accepted root i) goals bearing (seed_at D u ∷ [])
                        (λ e. cc)
                        (record {
                          idle = s.idle;
                          budget = s.budget;
                          table = length-set goals u _ ∙ goals_length;
                          candidates = s.candidates;
                          order = s.order;
                        })
                        (Cut-Detour D plan P accepted prev i goals bearing path (cut i prev short)
                          (goal_closed s.table (u_inside path short))) in
                    (st', rw go ran, s')
              ]

  -- The spurs of a round point into the path.
  abbrev pub InPath : List ℕ → Option ℕ → Type 0
  InPath prev none = Unit {0}
  InPath prev (some i) = i < length prev

  one_spur-IsState :
      (accepted : List (ShortestPath D)) (prev : List ℕ) (i : Option ℕ) (left : ℕ) (st : State D)
      → IsPath N prev
      → InPath prev i
      → IsState D plan P (suc left) accepted st
      → (st' : State D) × (one_spur D plan accepted prev i st ≡ some st')
        × IsState D plan P left accepted st'
  unfolding one_spur
  one_spur-IsState accepted prev none left st path short s = source_spur-IsState accepted left st s
  one_spur-IsState accepted prev (some i) left st path short s =
      node_spur-IsState accepted prev i st left path short s

  pub all_spurs-IsState :
      (accepted : List (ShortestPath D)) (prev : List ℕ) (is : List (Option ℕ)) (left : ℕ)
      (st : State D)
      → IsPath N prev
      → All (InPath prev) is
      → IsState D plan P (length is + left) accepted st
      → (st' : State D) × (all_spurs D plan accepted prev is st ≡ some st')
        × IsState D plan P left accepted st'
  unfolding all_spurs
  all_spurs-IsState accepted prev [] left st path short s =
      (st, refl, subst (λ k. IsState D plan P k accepted st) (omega arith) s)
  all_spurs-IsState accepted prev (i ∷ is) left st path short s =
      let (st₁, ran, s₁) =
        one_spur-IsState accepted prev i (length is + left) st path short.0
          (subst (λ k. IsState D plan P k accepted st) (omega arith) s) in
      let (st₂, ran₂, s₂) = all_spurs-IsState accepted prev is left st₁ path short.1 s₁ in
      (st₂, rw (ran, all_spurs) ran₂, s₂)

  range-InPath : (prev : List ℕ) (m i : ℕ) → m ≤ length prev - i → All (InPath prev) (range i m)
  unfolding range
  range-InPath prev zero i h = tt
  range-InPath prev (suc m) i h = (omega (arith, h), range-InPath prev m (suc i) (omega (arith, h)))

  length-range : (m i : ℕ) → length (range i m) ≡ m
  unfolding range
  length-range zero i = refl
  length-range (suc m) i = ap suc (length-range m (suc i))

  pub spur_range-InPath :
      (prev : List ℕ) (d : Option ℕ) → All (InPath prev) (spur_range d (length prev))
  unfolding spur_range
  spur_range-InPath prev none = (tt, range-InPath prev (length prev) 0 (omega arith))
  spur_range-InPath prev (some i) = range-InPath prev (length prev - i) i (omega arith)

  pub length-spur_range : (d : Option ℕ) (m : ℕ) → length (spur_range d m) ≤ m + 1
  unfolding spur_range
  length-spur_range none m = omega (arith, length-range m 0)
  length-spur_range (some i) m = omega (arith, length-range (m - i) i)
