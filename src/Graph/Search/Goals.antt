-- ===== src/Graph/Search/Goals.antt =====
-- What `BuildSeedTable` of libs/engine/core/graph/astar.cc makes of a list of goals: an entry that is
-- not negative is the cost of a goal that was given, at its own vertex.
use bravo_finder.Prelude.{
  ℕ, ◌<◌, ◌≡◌, ◌≢◌, sym, ap, subst, ◌∙◌, inl, inr, true, false, List, [], ◌∷◌, length, length-set,
  length-replicate, get_or, get_or-set_self, get_or-set_ne, get_or-replicate, set, replicate, All,
  Among, Bool-cases, ◌==◌, arith,
}
use bravo_finder.Prelude.Int.{pos_part}
use bravo_finder.Double.{Double, zero_of}
use bravo_finder.Graph.Options.{SeededEndpoint}
use bravo_finder.Graph.Tables.{
  outside, improves, seed_step, seed_loop, build_seed_table, not_an_endpoint,
}
use bravo_finder.Graph.Search.Progress.{Among-self}
use bravo_finder.Graph.Search.Seeding.{outside-lt}

module _ (D : Double) (goals : List (SeededEndpoint D)) (n : ℕ) where
  open D use {Carrier, le}

  -- One of the goals is at the vertex `v` of the graph, and costs `seed`.
  pub record IsGoal (v : ℕ) (seed : Carrier) : Type 0 where
    pub endpoint : SeededEndpoint D
    pub listed : Among endpoint goals
    pub within : outside endpoint.vertex n ≡ false
    pub place : pos_part endpoint.vertex ≡ v
    pub seeded : endpoint.cost ≡ seed

  record IsTable (table : List Carrier) : Type 0 where
    size : length table ≡ n
    entries :
        (v : ℕ)
        → le (zero_of D) (get_or table v (not_an_endpoint D)) ≡ true
        → IsGoal v (get_or table v (not_an_endpoint D))

  seed_step-IsTable :
      (e : SeededEndpoint D) (table : List Carrier)
      → Among e goals
      → IsTable table
      → IsTable (seed_step D n table e)
  unfolding seed_step
  seed_step-IsTable e table listed t = elim (Bool-cases (outside e.vertex n)) [
    | inl out ↦ rw out t
    | inr within ↦
        let i = pos_part e.vertex in
        elim (Bool-cases (improves D (get_or table i (zero_of D)) e.cost)) [
          | inr keeps ↦ rw (within, keeps) t
          | inl better ↦
              rw (within, better)
                (record {
                  size = length-set table i e.cost ∙ t.size;
                  entries = λ v good. elim (Bool-cases (i == v)) [
                    | inl same ↦
                        let e_at : i ≡ v = ground (arith, same) in
                        let bound : i < length table =
                          omega (arith, outside-lt e.vertex n within, t.size) in
                        record {
                          endpoint = e;
                          listed = listed;
                          within = within;
                          place = e_at;
                          seeded =
                              sym (get_or-set_self table i e.cost (not_an_endpoint D) bound)
                              ∙ ap (λ k. get_or (set table i e.cost) k (not_an_endpoint D)) e_at;
                        }
                    | inr other ↦
                        let apart : i ≢ v = ground (arith, other) in
                        let as_was = get_or-set_ne table i v e.cost (not_an_endpoint D) apart in
                        subst (IsGoal v) (sym as_was)
                          (t.entries v (ap (le (zero_of D)) (sym as_was) ∙ good))
                  ];
                })
        ]
  ]

  seed_loop-IsTable :
      (es : List (SeededEndpoint D)) (table : List Carrier)
      → All (λ e. Among e goals) es
      → IsTable table
      → IsTable (seed_loop D n es table)
  unfolding seed_loop
  seed_loop-IsTable [] table h t = t
  seed_loop-IsTable (e ∷ es) table h t =
      seed_loop-IsTable es (seed_step D n table e) h.1 (seed_step-IsTable e table h.0 t)

  pub build_seed_table-IsGoal :
      le (zero_of D) (not_an_endpoint D) ≡ false
      → (v : ℕ) → le (zero_of D) (get_or (build_seed_table D goals n) v (not_an_endpoint D)) ≡ true
      → IsGoal v (get_or (build_seed_table D goals n) v (not_an_endpoint D))
  unfolding build_seed_table
  build_seed_table-IsGoal negative =
      let blank : IsTable (replicate n (not_an_endpoint D)) = record {
        size = length-replicate n (not_an_endpoint D);
        entries = λ v good.
            let none_here = get_or-replicate n v (not_an_endpoint D) in
            absurd (false_true (sym negative ∙ ap (le (zero_of D)) (sym none_here) ∙ good));
      } in
      (seed_loop-IsTable goals (replicate n (not_an_endpoint D)) (Among-self goals) blank).entries
    where
      false_true : ¬ (false ≡ true)
      false_true e = cc
