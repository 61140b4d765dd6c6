-- ===== src/Graph/Yen/Forward.antt =====
-- What an answer says of its path, read from the front.
use mathlib.Core.List.{reverse_aux}
use bravo_finder.Prelude.{
  ℕ, ◌<◌, ◌≡◌, ◌≢◌, refl, sym, ap, subst, ◌∙◌, inl, inr, true, false, List, [], ◌∷◌, get_or, All,
  Among,
}
use bravo_finder.Prelude.Int.{pos_part}
use bravo_finder.Double.{Double, zero_of}
use bravo_finder.Graph.Nav.{GraphEdge, vertex_count, edges_of}
use bravo_finder.Graph.Options.{SeededEndpoint, blocks_node, blocks_edge}
use bravo_finder.Graph.Search.{Query, ShortestPath}
use bravo_finder.Graph.Search.Spec.{IsWellFormed, IsStart, Walk, IsAnswer, Nodup}
use bravo_finder.Graph.Search.Progress.{edges_of-All}
use bravo_finder.Graph.Search.Seeding.{outside-lt}
use bravo_finder.Graph.Yen.{last_of}
use bravo_finder.Graph.Tables.{not_an_endpoint}

All-Among : {A : Type 0} (P : A → Type 0) (x : A) (xs : List A) → Among x xs → All P xs → P x
All-Among P x (y ∷ ys) (inl e) h = subst P (sym e) h.0
All-Among P x (y ∷ ys) (inr m) h = All-Among P x ys m h.1
All-Among P x [] m h = elim m [ ]

module _ (D : Double) (q : Query D) (sources : List (SeededEndpoint D))
    (wf : IsWellFormed D q.graph) where
  open D use {le}
  open q use {graph, goal_seed, options}

  -- Each vertex after the first is free and is entered by an edge that is not banned.
  unfoldable pub Chain : List ℕ → Type 0
  Chain [] = Unit {0}
  Chain (v ∷ []) = Unit {0}
  Chain (v ∷ w ∷ vs) =
      (blocks_edge options.edge_filter v w ≡ false)
      × (blocks_node options.node_filter w ≡ false)
      × (w < vertex_count D graph)
      × Chain (w ∷ vs)

  -- The path from the front.
  pub record Onward (vs : List ℕ) : Type 0 where
    pub source : SeededEndpoint D
    pub start : IsStart D q sources source
    pub rest : List ℕ
    pub split : vs ≡ pos_part source.vertex ∷ rest
    pub chain : Chain (pos_part source.vertex ∷ rest)

  onward :
      {v : ℕ} {g geo inb : D.Carrier} {back : List ℕ} (out : List ℕ)
      → Walk D q sources v g geo inb back
      → Chain (v ∷ out)
      → Onward (reverse_aux back out) × (last_of (reverse_aux back out) ≡ last_of (v ∷ out))
  unfolding Chain last_of
  onward out (Walk.start s start) h =
      (record { source = s; start = start; rest = out; split = refl; chain = h }, refl)
  onward out (Walk.along w e extra usable) h =
      let inside =
        All-Among (λ (x : GraphEdge D). x.to < vertex_count D graph) e (edges_of D graph _)
          usable.listed
          (edges_of-All D graph (λ (x : GraphEdge D). x.to < vertex_count D graph) _ wf) in
      let (rest, last) = onward (e.to ∷ out) w (usable.open_edge, usable.free, inside, h) in
      (rest, last)

  Nodup-reverse_aux :
      (back out : List ℕ)
      → Nodup back
      → Nodup out
      → All (λ b. All (λ o. o ≢ b) out) back
      → Nodup (reverse_aux back out)
  Nodup-reverse_aux [] out p h d = h
  Nodup-reverse_aux (b ∷ back) out p h d =
      Nodup-reverse_aux back (b ∷ out) p.1 (d.0, h) (apart back p.0 d.1)
    where
      apart :
          (bs : List ℕ)
          → All (λ w. w ≢ b) bs
          → All (λ c. All (λ o. o ≢ c) out) bs
          → All (λ c. All (λ o. o ≢ c) (b ∷ out)) bs
      apart [] i j = tt
      apart (c ∷ bs) i j = (((λ e. i.0 (sym e)), j.0), apart bs i.1 j.1)

  nothing_after : (bs : List ℕ) → All (λ (b : ℕ). All (λ o. o ≢ b) []) bs
  nothing_after [] = tt
  nothing_after (b ∷ bs) = (tt, nothing_after bs)

  Chain-inside :
      (vs : List ℕ) (v : ℕ)
      → v < vertex_count D graph
      → Chain (v ∷ vs)
      → All (λ x. x < vertex_count D graph) (v ∷ vs)
  unfolding Chain
  Chain-inside [] v h c = (h, tt)
  Chain-inside (w ∷ vs) v h (_, _, inside, c) = (h, Chain-inside vs w inside c)

  -- What the spur searches rest on: a path that answers, from the front.
  pub record Forward (p : ShortestPath D) : Type 0 where
    pub onward_path : Onward p.vertices
    pub simple : Nodup p.vertices
    pub inside : All (λ x. x < vertex_count D graph) p.vertices
    pub at_goal : le (zero_of D) (get_or goal_seed (last_of p.vertices) (not_an_endpoint D)) ≡ true

  pub IsAnswer-Forward : (p : ShortestPath D) → IsAnswer D q sources p → Forward p
  IsAnswer-Forward p a =
      let (o, last) = onward [] a.walk (unfold Chain in tt) in
      let ends : last_of p.vertices ≡ a.goal =
        ap last_of a.order ∙ last ∙ (unfold last_of in refl) in
      let o' = subst Onward (sym a.order) o in
      let small : pos_part o'.source.vertex < vertex_count D graph =
        outside-lt o'.source.vertex (vertex_count D graph) o'.start.within in
      record {
        onward_path = o';
        simple =
            subst Nodup (sym a.order)
              (Nodup-reverse_aux a.back [] a.simple tt (nothing_after a.back));
        inside =
            subst (All (λ x. x < vertex_count D graph)) (sym o'.split)
              (Chain-inside o'.rest (pos_part o'.source.vertex) small o'.chain);
        at_goal =
            ap (λ v. le (zero_of D) (get_or goal_seed v (not_an_endpoint D))) ends ∙ a.is_goal;
      }
