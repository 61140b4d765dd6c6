-- ===== src/Graph/Search/Seeding.antt =====
-- The start of a search: a workspace in which no vertex is live, and the sources offered to it.
use bravo_finder.Prelude.{
  ℕ, zero, suc, ◌+◌, ◌-◌, ◌%◌, ◌^◌, ◌<◌, ◌≤◌, ◌≡◌, ◌∙◌, inl, inr, false, List, [], ◌∷◌, length,
  length-append, length-take, length-replicate, take, replicate, none, All, All-append, All-get_or,
  Among, get_or, ltb, Option, some, Bool-cases, arith,
}
use native.Mathlib.Nat.{mod-eq_of_lt}
use bravo_finder.Prelude.Int.{ℤ, pos_part}
use bravo_finder.Double.{Double, zero_of}
use bravo_finder.Graph.Nav.{vertex_count}
use bravo_finder.Graph.Options.{SeededEndpoint, IsHeap, blocks_node}
use bravo_finder.Graph.Workspace.{
  SearchWorkspace, resize, reset, next_generation, live, closed, g_at,
}
use bravo_finder.Graph.Workspace.Laws.{IsSized}
use bravo_finder.Graph.Tables.{outside}
use bravo_finder.Graph.Search.{Query, seed_source, seed_sources, start_loop}
use bravo_finder.Graph.Search.Spec.{IsStart}
use bravo_finder.Graph.Search.Routes.{Route}
use bravo_finder.Graph.Search.Invariant.{Inv, Routed, offered, offered_here, offered-Inv}
use bravo_finder.Graph.Search.Edges.{offered-Grew}
use bravo_finder.Graph.Search.Progress.{Among-self}

-- Between two searches: the arrays have one size, the generation number is `g`, and no stamp is from
-- a later search.
pub record IsIdle (D : Double) (g : ℕ) (ws : SearchWorkspace D) : Type 0 where
  pub sized : IsSized D (length ws.stamp) ws
  pub generation_eq : ws.generation ≡ g
  pub stamped : All (λ s. s ≤ g) ws.stamp
  pub closed_before : All (λ s. s ≤ g) ws.closed_stamp

-- The generation number has not come to its end either.
pub record IsRested (D : Double) (ws : SearchWorkspace D) : Type 0 where
  pub idle : IsIdle D ws.generation ws
  pub searches_left : ws.generation + 1 < 2 ^ 32

module _ (D : Double) where
  resize-le : {A : Type 0} (n : ℕ) (d : A) (xs : List A) → n ≤ length (resize n d xs)
  unfolding resize
  resize-le n d xs = omega (
    arith,
    length-append (take n xs) (replicate (n - length xs) d),
    length-take n xs,
    length-replicate (n - length xs) d,
  )

  resize-All : (n g : ℕ) (xs : List ℕ) → All (λ s. s ≤ g) xs → All (λ s. s ≤ g) (resize n 0 xs)
  unfolding resize
  resize-All n g xs h =
      All-append (λ s. s ≤ g) (take n xs) (replicate (n - length xs) 0) (front n xs h)
        (zeros (n - length xs))
    where
      front : (k : ℕ) (ys : List ℕ) → All (λ s. s ≤ g) ys → All (λ s. s ≤ g) (take k ys)
      front zero ys p = tt
      front (suc k) [] p = tt
      front (suc k) (y ∷ ys) p = (p.0, front k ys p.1)

      zeros : (k : ℕ) → All (λ s. s ≤ g) (replicate k 0)
      zeros zero = tt
      zeros (suc k) = (omega arith, zeros k)

  abbrev pub fresh : ℕ → SearchWorkspace D → SearchWorkspace D
  fresh n ws = next_generation D (reset D n ws)

  fresh-IsSized : (n : ℕ) (ws : SearchWorkspace D) → IsRested D ws → IsSized D n (fresh n ws)
  unfolding next_generation reset
  fresh-IsSized n ws r = elim (Bool-cases (ltb (length ws.stamp) n)) [
    | inl grow ↦ rw grow (record {
      g_size = resize-le n _ ws.g;
      geo_size = resize-le n _ ws.geo;
      prev_size = resize-le n _ ws.prev;
      inbound_size = resize-le n _ ws.inbound;
      stamp_size = resize-le n _ ws.stamp;
      closed_size = resize-le n _ ws.closed_stamp;
    })
    | inr enough ↦
        let big : n ≤ length ws.stamp = ground arith in
        let s = r.idle.sized in
        rw enough (record {
          g_size = omega (arith, s.g_size);
          geo_size = omega (arith, s.geo_size);
          prev_size = omega (arith, s.prev_size);
          inbound_size = omega (arith, s.inbound_size);
          stamp_size = big;
          closed_size = omega (arith, s.closed_size);
        })
  ]

  resize-length : {A : Type 0} (n : ℕ) (d : A) (xs : List A) → length (resize n d xs) ≡ n
  unfolding resize
  resize-length n d xs = omega (
    arith,
    length-append (take n xs) (replicate (n - length xs) d),
    length-take n xs,
    length-replicate (n - length xs) d,
  )

  raised : (g : ℕ) (xs : List ℕ) → All (λ s. s ≤ g) xs → All (λ s. s ≤ g + 1) xs
  raised g [] h = tt
  raised g (x ∷ xs) h = (omega (arith, h.0), raised g xs h.1)

  pub fresh-IsIdle :
      (n : ℕ) (ws : SearchWorkspace D) → IsRested D ws → IsIdle D (ws.generation + 1) (fresh n ws)
  unfolding next_generation reset
  fresh-IsIdle n ws r =
      let g = ws.generation in
      let next : (g + 1) % 2 ^ 32 ≡ g + 1 = mod-eq_of_lt r.searches_left in
      elim (Bool-cases (ltb (length ws.stamp) n)) [
        | inl grow ↦
            let len = resize-length n 0 ws.stamp in
            rw grow (record {
              sized = record {
                g_size = omega (arith, len, resize-length n (zero_of D) ws.g);
                geo_size = omega (arith, len, resize-length n (zero_of D) ws.geo);
                prev_size = omega (arith, len, resize-length {A = Option ℕ} n (some 0) ws.prev);
                inbound_size = omega (arith, len, resize-length n (zero_of D) ws.inbound);
                stamp_size = omega arith;
                closed_size = omega (arith, len, resize-length n 0 ws.closed_stamp);
              };
              generation_eq = next;
              stamped = raised g (resize n 0 ws.stamp) (resize-All n g ws.stamp r.idle.stamped);
              closed_before =
                  raised g (resize n 0 ws.closed_stamp)
                    (resize-All n g ws.closed_stamp r.idle.closed_before);
            })
        | inr enough ↦
            let s = r.idle.sized in
            rw enough (record {
              sized = record {
                g_size = s.g_size;
                geo_size = s.geo_size;
                prev_size = s.prev_size;
                inbound_size = s.inbound_size;
                stamp_size = s.stamp_size;
                closed_size = s.closed_size;
              };
              generation_eq = next;
              stamped = raised g ws.stamp r.idle.stamped;
              closed_before = raised g ws.closed_stamp r.idle.closed_before;
            })
      ]

  -- In a new generation no vertex has a price, and none is closed.
  fresh_blank :
      (n v : ℕ) (ws : SearchWorkspace D)
      → IsRested D ws
      → (live D (fresh n ws) v ≡ false) × (closed D (fresh n ws) v ≡ false)
  unfolding next_generation reset live closed
  fresh_blank n v ws r =
      let g = ws.generation in
      let next : (g + 1) % 2 ^ 32 ≡ g + 1 = mod-eq_of_lt r.searches_left in
      let at : (xs : List ℕ) → All (λ s. s ≤ g) xs → get_or xs v 0 ≤ g =
        λ xs h. All-get_or (λ s. s ≤ g) xs v 0 h (omega arith) in
      elim (Bool-cases (ltb (length ws.stamp) n)) [
        | inl grow ↦
            rw (grow, next)
              (
                ground (arith, at (resize n 0 ws.stamp) (resize-All n g ws.stamp r.idle.stamped)),
                ground (
                  arith,
                  at (resize n 0 ws.closed_stamp)
                      (resize-All n g ws.closed_stamp r.idle.closed_before),
                ),
              )
        | inr enough ↦
            rw (enough, next)
              (
                ground (arith, at ws.stamp r.idle.stamped),
                ground (arith, at ws.closed_stamp r.idle.closed_before),
              )
      ]

pub outside-lt : (v : ℤ) (n : ℕ) → outside v n ≡ false → pos_part v < n
unfolding outside
outside-lt v n h = ground arith

module _ (D : Double) (q : Query D) (sources : List (SeededEndpoint D)) (V : IsHeap D q.H) where
  open D use {lt, add}
  open q use {H, graph, source_bearing, options, heuristic}

  abbrev n : ℕ
  n = vertex_count D graph

  -- Sources were offered and nothing was expanded.
  pub record Seeded (k : ℕ) (ws : SearchWorkspace D) : Type 0 where
    pub inv : Inv D q sources V 0 ws
    pub all_open : (w : ℕ) → closed D ws w ≡ false
    pub entries : length ws.heap ≤ k

  seed_source-Seeded :
      (k : ℕ) (s : SeededEndpoint D) (ws : SearchWorkspace D)
      → Among s sources
      → Seeded k ws
      → Seeded (k + 1) (seed_source D q s ws)
  unfolding seed_source
  seed_source-Seeded k s ws listed x =
      let v = pos_part s.vertex in
      let same : Seeded (k + 1) ws = record {
        inv = x.inv;
        all_open = x.all_open;
        entries = omega (arith, x.entries);
      } in
      elim (Bool-cases (outside s.vertex n)) [
        | inl out ↦ rw out same
        | inr within ↦ elim (Bool-cases (blocks_node options.node_filter v)) [
          | inl banned ↦ rw (within, banned) same
          | inr free ↦ elim (Bool-cases (lt s.cost (g_at D ws v))) [
            | inr worse ↦ rw (within, free, worse) same
            | inl better ↦
                rw (within, free, better)
                  (offer_source (record { listed = listed; within = within; free = free })
                    (outside-lt s.vertex n within))
          ]
        ]
      ]
    where
      offer_source :
          IsStart D q sources s
          → pos_part s.vertex < n
          → Seeded (k + 1) (
              offered D q sources V ws
                (pos_part s.vertex)
                (add s.cost (heuristic (pos_part s.vertex)))
                s.cost
                s.cost
                none
                (get_or source_bearing (pos_part s.vertex) (zero_of D)))
      offer_source start small =
          let v = pos_part s.vertex in
          let f = add s.cost (heuristic v) in
          let inb = get_or source_bearing v (zero_of D) in
          let (g_eq, geo_eq, prev_eq, inb_eq) =
            offered_here D q sources V ws v f s.cost s.cost none inb x.inv.sized small in
          let grew =
            offered-Grew D q sources V ws v f s.cost s.cost none inb 0 x.inv small (x.all_open v) in
          let mine : Routed D q sources V 0 (offered D q sources V ws v f s.cost s.cost none inb)
              v =
            record {
              trail = v ∷ [];
              route = Route.from_source s start prev_eq g_eq geo_eq inb_eq;
              short = omega arith;
            } in
          record {
            inv =
                offered-Inv D q sources V ws v f s.cost s.cost none inb x.inv.sized small 0 x.inv
                  (x.all_open v) mine;
            all_open = λ w. grew.still w ∙ x.all_open w;
            entries = omega (arith, grew.heap_size, x.entries);
          }

  seed_sources-Seeded :
      (k : ℕ) (ss : List (SeededEndpoint D)) (ws : SearchWorkspace D)
      → All (λ s. Among s sources) ss
      → Seeded k ws
      → Seeded (k + length ss) (seed_sources D q ss ws)
  unfolding seed_sources
  seed_sources-Seeded k [] ws h x = record {
    inv = x.inv;
    all_open = x.all_open;
    entries = omega (arith, x.entries);
  }
  seed_sources-Seeded k (s ∷ ss) ws h x =
      let rest =
        seed_sources-Seeded (k + 1) ss (seed_source D q s ws) h.1
          (seed_source-Seeded k s ws h.0 x) in
      record { inv = rest.inv; all_open = rest.all_open; entries = omega (arith, rest.entries) }

  pub start_loop-Seeded :
      (ws : SearchWorkspace D)
      → IsRested D ws
      → Seeded (length sources) (start_loop D q sources ws).ws
  unfolding start_loop
  start_loop-Seeded ws r =
      let blank : SearchWorkspace D = record (fresh D n ws) { heap = [] } in
      let s = fresh-IsSized D n ws r in
      let none_live : (w : ℕ) → live D blank w ≡ false =
        λ w. unfold live in (fresh_blank D n w ws r).0 in
      let none_closed : (w : ℕ) → closed D blank w ≡ false =
        λ w. unfold closed in (fresh_blank D n w ws r).1 in
      let clean : Seeded 0 blank = record {
        inv = record {
          sized = record {
            g_size = s.g_size;
            geo_size = s.geo_size;
            prev_size = s.prev_size;
            inbound_size = s.inbound_size;
            stamp_size = s.stamp_size;
            closed_size = s.closed_size;
          };
          routed = λ w alive. absurd (ground (arith, none_live w));
          valid = V.valid-nil;
          queued = tt;
        };
        all_open = none_closed;
        entries = omega arith;
      } in
      let all = seed_sources-Seeded 0 sources blank (Among-self sources) clean in
      record { inv = all.inv; all_open = all.all_open; entries = omega (arith, all.entries) }
