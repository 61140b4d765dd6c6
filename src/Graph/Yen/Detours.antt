-- ===== src/Graph/Yen/Detours.antt =====
-- A detour: the root of a path followed by what a spur search found is a new path without repetition.
use bravo_finder.Prelude.{
  ℕ, suc, ◌+◌, ◌<◌, ◌≡◌, ◌≢◌, ◌⊎◌, refl, sym, ap, subst, ◌∙◌, inl, inr, Bool, true, false, not,
  ◌&&◌, List, [], ◌∷◌, ◌++◌, length, length-append, get_or, take, Option, some, All, All-append,
  Among, Bool-cases, ◌==◌, if◌then◌else◌, arith,
}
use bravo_finder.Prelude.Int.{ℤ, pos, negsuc, pos_part}
use bravo_finder.Double.{Double, zero_of}
use bravo_finder.Graph.Nav.{vertex_count}
use bravo_finder.Graph.Options.{
  SearchOptions, NodeFilter, SeededEndpoint, is_banned, edge_key, blocks_node, blocks_edge,
}
use bravo_finder.Graph.Tables.{outside, not_an_endpoint}
use bravo_finder.Graph.Search.{Query, ShortestPath}
use bravo_finder.Graph.Search.Spec.{Nodup}
use bravo_finder.Graph.Yen.{front, last_of, merge_banned}
use bravo_finder.Graph.Yen.Rounds.{
  Plan, base_query, drop_last, shares_root, ends_at_root, banned_at, banned_sources, is_among,
  spur_sources, spur_query, seed_at,
}
use bravo_finder.Graph.Yen.Lists.{
  merge_banned-own, Nodup-append, Nodup-split, Cut, shares_root-append, get_or-append_here,
}
use bravo_finder.Graph.Yen.Forward.{Chain, Forward}
use bravo_finder.Graph.Yen.Spurs.{IsPath, IsPlan, IsNew}

blocks_node-own :
    (f : NodeFilter) (yen : List ℕ) (w : ℕ)
    → blocks_node (record f { banned = some (merge_banned f.banned yen) }) w ≡ false
    → is_banned yen w ≡ false
unfolding blocks_node
blocks_node-own f yen w h = merge_banned-own f.banned yen w (ground (arith, h))

blocks_edge-own :
    (caller : Option (List ℕ)) (yen : List ℕ) (u v : ℕ)
    → blocks_edge (record { banned = some (merge_banned caller yen) }) u v ≡ false
    → is_banned yen (edge_key u v) ≡ false
unfolding blocks_edge
blocks_edge-own caller yen u v h = merge_banned-own caller yen (edge_key u v) h

append-ne : (pre : List ℕ) (v : ℕ) (rest : List ℕ) → pre ++ (v ∷ rest) ≢ []
append-ne [] v rest e = cc
append-ne (x ∷ pre) v rest e = cc

All-front : (P : ℕ → Type 0) (xs ys : List ℕ) → All P (xs ++ ys) → All P xs
All-front P [] ys h = tt
All-front P (x ∷ xs) ys h = (h.0, All-front P xs ys h.1)

shares_root_self : (root : List ℕ) → shares_root root root ≡ true
unfolding shares_root
shares_root_self [] = refl
shares_root_self (r ∷ root) = ground (arith, shares_root_self root)

-- `pre ++ (v ∷ w ∷ t)` with its root set apart.
regroup : (pre : List ℕ) (v w : ℕ) (t : List ℕ) → pre ++ (v ∷ w ∷ t) ≡ (pre ++ (v ∷ [])) ++ (w ∷ t)
regroup [] v w t = refl
regroup (x ∷ pre) v w t = ap (◌∷◌ x) (regroup pre v w t)

second :
    (pre : List ℕ) (v w : ℕ) (t : List ℕ) → get_or (pre ++ (v ∷ w ∷ t)) (suc (length pre)) 0 ≡ w
second [] v w t = refl
second (x ∷ pre) v w t = second pre v w t

is_banned-if :
    (b : Bool) (key : ℕ) (rest : List ℕ) (k : ℕ)
    → is_banned (if b then key ∷ rest else rest) k ≡ false
    → (is_banned rest k ≡ false) × (b ≡ true → key ≢ k)
unfolding is_banned
is_banned-if true key rest k h = (ground (arith, h), (λ yes e. ground (arith, h, e)))
is_banned-if false key rest k h = (h, (λ yes. cc))

pub All-at :
    (P : ℕ → Type 0) (pre : List ℕ) (v : ℕ) (post : List ℕ) → All P (pre ++ (v ∷ post)) → P v
All-at P [] v post h = h.0
All-at P (x ∷ pre) v post h = All-at P pre v post h.1

module _ (D : Double) where
  -- No accepted path is the root when none ends there.
  root-new :
      (root : List ℕ) (ps : List (ShortestPath D))
      → ends_at_root D root ps ≡ false
      → All (λ (p : ShortestPath D). p.vertices ≢ root) ps
  unfolding ends_at_root
  root-new root [] h = tt
  root-new root (p ∷ ps) h = (
    (λ e.
        let k : (shares_root root p.vertices && length p.vertices == length root) ≡ false =
          ground (arith, h) in
        let k' = subst (λ vs. (shares_root root vs && length vs == length root) ≡ false) e k in
        ground (arith, k', shares_root_self root)),
    root-new root ps (ground (arith, h)),
  )

  goes_on :
      (pre : List ℕ) (v w : ℕ) (t vs : List ℕ)
      → vs ≡ pre ++ (v ∷ w ∷ t)
      → (shares_root (pre ++ (v ∷ [])) vs && not (length vs == length (pre ++ (v ∷ [])))) ≡ true
  goes_on pre v w t vs e =
      let root = pre ++ (v ∷ []) in
      let e' : vs ≡ root ++ (w ∷ t) = e ∙ regroup pre v w t in
      subst (λ us. (shares_root root us && not (length us == length root)) ≡ true) (sym e')
        (ground (arith, shares_root-append root (w ∷ t), length-append root (w ∷ t)))

  -- An accepted path that goes on from the root does so by a banned edge.
  branch-new :
      (pre : List ℕ) (v w : ℕ) (t : List ℕ) (ps : List (ShortestPath D))
      → is_banned (banned_at D (length pre) (pre ++ (v ∷ [])) ps) (edge_key v w) ≡ false
      → All (λ (p : ShortestPath D). p.vertices ≢ pre ++ (v ∷ w ∷ t)) ps
  unfolding banned_at is_banned
  branch-new pre v w t [] h = tt
  branch-new pre v w t (p ∷ ps) h =
      let root = pre ++ (v ∷ []) in
      let i = length pre in
      let b = shares_root root p.vertices && not (length p.vertices == length root) in
      let key = edge_key (get_or p.vertices i 0) (get_or p.vertices (i + 1) 0) in
      let (others, mine) = is_banned-if b key (banned_at D i root ps) (edge_key v w) h in
      (
        (λ e.
            let one_more : i + 1 ≡ suc i = omega arith in
            let first : get_or p.vertices i 0 ≡ v =
              ap (λ us. get_or us i 0) e ∙ get_or-append_here pre v (w ∷ t) in
            let next : get_or p.vertices (i + 1) 0 ≡ w =
              ap (λ j. get_or p.vertices j 0) one_more
              ∙ ap (λ us. get_or us (suc i) 0) e
              ∙ second pre v w t in
            mine (goes_on pre v w t p.vertices e)
              (ap (λ x. edge_key x (get_or p.vertices (i + 1) 0)) first ∙ ap (edge_key v) next)),
        branch-new pre v w t ps others,
      )

module _ (D : Double) (plan : Plan D) (P : IsPlan D plan) where
  open D use {Carrier, le}

  -- The first search from `v`, with the bans of the root `pre ++ (v ∷ [])`.
  module _ (accepted : List (ShortestPath D)) (pre : List ℕ) (v : ℕ)
      (goals bearing : List Carrier) where
    abbrev root : List ℕ
    root = pre ++ (v ∷ [])

    abbrev q_options : SearchOptions D
    q_options = record plan.options {
      node_filter = record plan.options.node_filter {
        banned = some (merge_banned plan.options.node_filter.banned pre);
      };
      edge_filter = record {
        banned =
            some (
              merge_banned plan.options.edge_filter.banned
                (banned_at D (length pre) root accepted));
      };
    }

    abbrev q : Query D
    q = spur_query D plan q_options goals bearing

    free_of_root :
        (rest : List ℕ) (u : ℕ)
        → Chain D q (seed_at D v ∷ []) P.graph (u ∷ rest)
        → All (λ w. is_banned pre w ≡ false) rest
    unfolding Chain
    free_of_root [] u h = tt
    free_of_root (w ∷ rest) u (_, free, _, h) =
        (blocks_node-own plan.options.node_filter pre w free, free_of_root rest w h)

    tail_new :
        (rest : List ℕ)
        → Chain D q (seed_at D v ∷ []) P.graph (v ∷ rest)
        → le (zero_of D) (get_or goals (last_of (v ∷ rest)) (not_an_endpoint D)) ≡ true
        → (ends_at_root D root accepted ≡ true
            → le (zero_of D) (get_or goals v (not_an_endpoint D)) ≡ false)
        → IsNew D plan P accepted (pre ++ (v ∷ rest))
    unfolding Chain last_of
    tail_new [] h goal ends = root-new D root accepted (ground (arith, goal, ends))
    tail_new (w ∷ t) (open_edge, _, _, _) goal ends = branch-new D pre v w t accepted (
        blocks_edge-own plan.options.edge_filter.banned (banned_at D (length pre) root accepted) v w
          open_edge)

    pub detour :
        (p : ShortestPath D)
        → Nodup pre
        → is_banned pre v ≡ false
        → All (λ x. x < vertex_count D plan.graph) pre
        → (ends_at_root D root accepted ≡ true
            → le (zero_of D) (get_or goals v (not_an_endpoint D)) ≡ false)
        → Forward D q (seed_at D v ∷ []) P.graph p
        → IsPath (vertex_count D plan.graph) (pre ++ p.vertices)
          × IsNew D plan P accepted (pre ++ p.vertices)
    detour p simple fresh inside ends f =
        let o = f.onward_path in
        let here : pos_part o.source.vertex ≡ v = elim o.start.listed [
          | inl e ↦ ap (λ (s : SeededEndpoint D). pos_part s.vertex) e
          | inr none_left ↦ elim none_left [ ]
        ] in
        let split : p.vertices ≡ v ∷ o.rest = o.split ∙ ap (λ u. u ∷ o.rest) here in
        let chain = subst (λ u. Chain D q (seed_at D v ∷ []) P.graph (u ∷ o.rest)) here o.chain in
        let goal =
          subst (λ us. le (zero_of D) (get_or goals (last_of us) (not_an_endpoint D)) ≡ true) split
            f.at_goal in
        let good : IsPath (vertex_count D plan.graph) (pre ++ (v ∷ o.rest)) = record {
          nonempty = append-ne pre v o.rest;
          simple =
              Nodup-append pre (v ∷ o.rest) simple (subst Nodup split f.simple)
                (fresh, free_of_root o.rest v chain);
          inside =
              All-append (λ x. x < vertex_count D plan.graph) pre (v ∷ o.rest) inside
                (subst (All (λ x. x < vertex_count D plan.graph)) split f.inside);
        } in
        subst
          (λ us.
            IsPath (vertex_count D plan.graph) (pre ++ us) × IsNew D plan P accepted (pre ++ us))
          (sym split) (good, tail_new o.rest chain goal ends)

  -- What is to show of a spur search from `u`, with the root, the bans before it and its place as
  -- the code computes them.
  abbrev Detour :
      List (ShortestPath D) → List Carrier → List Carrier → List ℕ → List ℕ → ℕ → ℕ → Type 0
  Detour accepted goals bearing root before i u =
      (ends_at_root D root accepted ≡ true
        → le (zero_of D) (get_or goals u (not_an_endpoint D)) ≡ false)
      → (p : ShortestPath D)
      → Forward D
          (spur_query D plan
            (record plan.options {
              node_filter = record plan.options.node_filter {
                banned = some (merge_banned plan.options.node_filter.banned before);
              };
              edge_filter = record {
                banned =
                    some
                      (merge_banned plan.options.edge_filter.banned (banned_at D i root accepted));
              };
            })
            goals bearing)
          (seed_at D u ∷ []) P.graph p
      → IsPath (vertex_count D plan.graph) (before ++ p.vertices)
        × IsNew D plan P accepted (before ++ p.vertices)

  pub Cut-Detour :
      (accepted : List (ShortestPath D)) (prev : List ℕ) (i : ℕ) (goals bearing : List Carrier)
      → IsPath (vertex_count D plan.graph) prev
      → Cut i prev
      → Detour accepted goals bearing
          (take (suc i) prev)
          (drop_last (take (suc i) prev))
          i
          (get_or prev i 0)
  Cut-Detour accepted prev i goals bearing path c =
      let inside = subst (All (λ x. x < vertex_count D plan.graph)) c.whole path.inside in
      let (simple, fresh) = Nodup-split c.pre c.v c.post (subst Nodup c.whole path.simple) in
      let front_inside =
        All-front (λ x. x < vertex_count D plan.graph) c.pre (c.v ∷ c.post) inside in
      let here : Detour accepted goals bearing (c.pre ++ (c.v ∷ [])) c.pre (length c.pre) c.v =
        λ ends p f. detour accepted c.pre c.v goals bearing p simple fresh front_inside ends f in
      let placed =
        subst (λ k. Detour accepted goals bearing (c.pre ++ (c.v ∷ [])) c.pre k c.v) c.size here in
      let from =
        subst (λ u. Detour accepted goals bearing (c.pre ++ (c.v ∷ [])) c.pre i u) (sym c.at)
          placed in
      let after =
        subst (λ b. Detour accepted goals bearing (c.pre ++ (c.v ∷ [])) b i (get_or prev i 0))
          (sym c.before) from in
      subst
        (λ r. Detour accepted goals bearing r (drop_last (take (suc i) prev)) i (get_or prev i 0))
        (sym c.root) after

  -- The sources left for the first spur are not where an accepted path starts.
  spur_sources-Among :
      (banned : List ℕ) (ss : List (SeededEndpoint D)) (s : SeededEndpoint D)
      → Among s (spur_sources D banned ss)
      → is_among D s.vertex banned ≡ false
  unfolding spur_sources
  spur_sources-Among banned [] s m = elim m [ ]
  spur_sources-Among banned (x ∷ ss) s m = elim (Bool-cases (is_among D x.vertex banned)) [
    | inl gone ↦ spur_sources-Among banned ss s (kept true gone m)
    | inr stays ↦ elim (kept_too stays m) [
      | inl e ↦ ap (λ (y : SeededEndpoint D). is_among D y.vertex banned) e ∙ stays
      | inr later ↦ spur_sources-Among banned ss s later
    ]
  ]
    where
      kept :
          (b : Bool)
          → is_among D x.vertex banned ≡ b
          → Among s (
              if is_among D x.vertex banned
              then spur_sources D banned ss
              else x ∷ spur_sources D banned ss)
          → Among s (if b then spur_sources D banned ss else x ∷ spur_sources D banned ss)
      kept b e h =
          subst
            (λ c. Among s (if c then spur_sources D banned ss else x ∷ spur_sources D banned ss)) e
            h

      kept_too :
          is_among D x.vertex banned ≡ false
          → Among s (
              if is_among D x.vertex banned
              then spur_sources D banned ss
              else x ∷ spur_sources D banned ss)
          → (s ≡ x) ⊎ Among s (spur_sources D banned ss)
      kept_too e h = kept false e h

  front-new :
      (v : ℕ) (rest : List ℕ) (accepted : List (ShortestPath D))
      → is_among D (pos v) (banned_sources D accepted) ≡ false
      → IsNew D plan P accepted (v ∷ rest)
  unfolding banned_sources is_among front
  front-new v rest [] h = tt
  front-new v rest (p ∷ ps) h = split p.vertices h (front-new v rest ps)
    where
      split :
          (vs : List ℕ)
          → is_among D
              (pos v)
              (if length vs == 0 then banned_sources D ps else front vs ∷ banned_sources D ps)
            ≡ false
          → (is_among D (pos v) (banned_sources D ps) ≡ false → IsNew D plan P ps (v ∷ rest))
          → (vs ≢ v ∷ rest) × IsNew D plan P ps (v ∷ rest)
      split [] k others = ((λ e. cc), others k)
      split (w ∷ ws) k others = (
        (λ e. let same : w ≡ v = ap front e in ground (arith, k, same)),
        others (ground (arith, k)),
      )

  outside-pos : (v : ℤ) (m : ℕ) → outside v m ≡ false → v ≡ pos (pos_part v)
  unfolding outside
  outside-pos (pos k) m h = refl
  outside-pos (negsuc k) m h = absurd (ground (arith, h))

  pub other_source :
      (accepted : List (ShortestPath D)) (p : ShortestPath D)
      → Forward D
          (base_query D plan)
          (spur_sources D (banned_sources D accepted) plan.sources)
          P.graph
          p
      → IsPath (vertex_count D plan.graph) p.vertices × IsNew D plan P accepted p.vertices
  other_source accepted p f =
      let o = f.onward_path in
      let s = o.source in
      let apart = spur_sources-Among (banned_sources D accepted) plan.sources s o.start.listed in
      let apart' =
        subst (λ v. is_among D v (banned_sources D accepted) ≡ false)
          (outside-pos s.vertex (vertex_count D plan.graph) o.start.within) apart in
      (
        record {
          nonempty = λ e. append-ne [] (pos_part s.vertex) o.rest (sym o.split ∙ e);
          simple = f.simple;
          inside = f.inside;
        },
        subst (IsNew D plan P accepted) (sym o.split)
            (front-new (pos_part s.vertex) o.rest accepted apart'),
      )
