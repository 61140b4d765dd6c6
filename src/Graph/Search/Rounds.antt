-- ===== src/Graph/Search/Rounds.antt =====
-- The main loop: every round keeps the invariant and lowers the measure, so the loop ends.
use bravo_finder.Prelude.{
  ℕ, zero, suc, ◌+◌, ◌-◌, ◌<◌, ◌≤◌, ◌≡◌, refl, sym, ap, ◌∙◌, subst, inl, inr, true, false, List, [],
  ◌∷◌, length, none, some, All, Among, All-perm, length-perm, Bool-cases, if◌then◌else◌, arith,
}
use bravo_finder.Double.{Double, no_bearing}
use bravo_finder.Graph.Nav.{GraphEdge, vertex_count, edges_of}
use bravo_finder.Graph.Options.{SeededEndpoint, QueueNode, IsHeap}
use bravo_finder.Graph.Workspace.{live, inbound_at, closed, mark_closed}
use bravo_finder.Graph.Workspace.Laws.{closed-mark_closed}
use bravo_finder.Graph.Search.{Query, Loop, Outcome, finish_at, expand, visit, step, run}
use bravo_finder.Graph.Search.Spec.{IsWellFormed}
use bravo_finder.Graph.Search.Routes.{Route, Route-Keeps}
use bravo_finder.Graph.Search.Invariant.{hold_everywhere}
use bravo_finder.Graph.Search.Edges.{Expanding, relax_edges-Expanding}
use bravo_finder.Graph.Search.Progress.{
  open_degree, open_degree-still, open_degree-mark_closed, edges_of-All, Among-self,
}
use bravo_finder.Graph.Search.Steps.{
  Good, BestGoal-Keeps, measure, with_heap, popped-Good, marked-Good, marked-Keeps, finish_at-Good,
}

All-zip :
    {A : Type 0} (P Q : A → Type 0) (xs : List A) → All P xs → All Q xs → All (λ x. P x × Q x) xs
All-zip P Q [] p q = tt
All-zip P Q (x ∷ xs) p q = ((p.0, q.0), All-zip P Q xs p.1 q.1)

module _ (D : Double) (q : Query D) (sources : List (SeededEndpoint D)) (V : IsHeap D q.H)
    (wf : IsWellFormed D q.graph) where
  open D use {Carrier, le}
  open q use {H, graph, options}

  abbrev n : ℕ
  n = vertex_count D graph

  abbrev size : Loop D → ℕ
  size l = measure D q sources V l.ws

  expand-Good :
      (c u : ℕ) (l : Loop D)
      → u < n
      → live D l.ws u ≡ true
      → closed D l.ws u ≡ false
      → Good D q sources V c l
      → Good D q sources V (c + 1) (expand D q u l) × (size (expand D q u l) ≤ size l)
  unfolding expand
  expand-Good c u l small alive unclosed good =
      let marked = mark_closed D u l.ws in
      let old = good.inv.routed u alive in
      let shut : closed D marked u ≡ true =
        closed-mark_closed D n u u l.ws good.inv.sized small ∙ ground arith in
      let route = Route-Keeps D q sources l.ws marked old.route (
        hold_everywhere old.trail
          (λ w. marked-Keeps D q sources V l.ws u w good.inv.sized small)) in
      let l' = finish_at D q u (record l { ws = marked }) in
      let (fin, same) =
        finish_at-Good D q sources V (c + 1) u (record l { ws = marked })
          (marked-Good D q sources V c u l small good) shut old.trail route
          (omega (arith, old.short)) in
      let start : Expanding D q sources V (c + 1) u
          (if options.turn_penalty.enabled then inbound_at D l'.ws u else no_bearing D) l'.ws =
        record {
          inv = fin.inv;
          shut = ap (λ ws. closed D ws u) same ∙ shut;
          trail = old.trail;
          route = subst (λ ws. Route D q sources ws u old.trail) (sym same) route;
          short = omega (arith, old.short);
          heading = refl;
        } in
      let listed =
        All-zip (λ (e : GraphEdge D). e.to < n) (λ e. Among e (edges_of D graph u))
          (edges_of D graph u) (edges_of-All D graph (λ e. e.to < n) u wf)
          (Among-self (edges_of D graph u)) in
      let (end, grew) =
        relax_edges-Expanding D q sources V (c + 1) u _ (edges_of D graph u) l'.ws listed start in
      (
        record {
          inv = end.inv;
          best =
              BestGoal-Keeps D q sources V (c + 1) l'.ws _ l'.best_total l'.best_goal grew.kept
                fin.best;
        },
        (let fewer =
              open_degree-mark_closed D graph l.ws n u n good.inv.sized small small unclosed in
            let still = open_degree-still D graph l'.ws _ n (λ w p. grew.still w) in
            let before : open_degree D graph l'.ws n ≡ open_degree D graph marked n =
              ap (λ ws. open_degree D graph ws n) same in
            let heap : length l'.ws.heap ≡ length l.ws.heap =
              ap (λ ws. length ws.heap) same ∙ (unfold mark_closed in refl) in
            omega (arith, grew.heap_size, fewer, still, before, heap)),
      )

  -- What a round leaves: an end, or a smaller loop in which one more vertex may be closed.
  abbrev Stepped : ℕ → ℕ → Outcome D → Type 0
  Stepped c m (Outcome.done l) = Good D q sources V c l
  Stepped c m (Outcome.next l) = (d : ℕ) × Good D q sources V d l × (size l < m) × (d ≤ c + 1)

  visit-Stepped :
      (c m : ℕ) (top : QueueNode D) (l : Loop D)
      → size l < m
      → top.vertex < n
      → live D l.ws top.vertex ≡ true
      → Good D q sources V c l
      → Stepped c m (visit D q top l)
  unfolding visit
  visit-Stepped c m top l less small alive good = elim (Bool-cases (closed D l.ws top.vertex)) [
    | inl shut ↦ rw shut (c, good, less, omega arith)
    | inr unclosed ↦ elim (Bool-cases (le l.best_total top.f)) [
      | inl enough ↦ rw (unclosed, enough) good
      | inr go ↦
          let (after, smaller) = expand-Good c top.vertex l small alive unclosed good in
          rw (unclosed, go) (c + 1, after, omega (arith, smaller, less), omega arith)
    ]
  ]

  step-Stepped :
      (c m : ℕ) (l : Loop D) (h : List (QueueNode D))
      → l.ws.heap ≡ h
      → Good D q sources V c l
      → size l ≤ m
      → Stepped c m (step D q l)
  unfolding step
  step-Stepped c m l [] e good s =
      let empty : H.pop l.ws.heap ≡ none = ap H.pop e ∙ V.pop-nil in rw (empty, step) good
  step-Stepped c m l (x ∷ h) e good s =
      let (top, rest, pop_eq, perm, valid, least) =
        V.pop-cons x h (subst V.Valid e good.inv.valid) in
      let queued =
        All-perm (λ (y : QueueNode D). (y.vertex < n) × (live D l.ws y.vertex ≡ true)) perm
          (subst (All (λ (y : QueueNode D). (y.vertex < n) × (live D l.ws y.vertex ≡ true))) e
            good.inv.queued) in
      let popped : Loop D = record l { ws = with_heap D q sources V l.ws rest } in
      let kept = popped-Good D q sources V c l rest valid queued.1 good in
      let lighter : size popped < m =
        let shorter : length l.ws.heap ≡ suc (length rest) = ap length e ∙ length-perm perm in
        let still = open_degree-still D graph l.ws popped.ws n (λ w p. unfold closed in refl) in
        omega (arith, s, shorter, still) in
      let taken : H.pop l.ws.heap ≡ some (top, rest) = ap H.pop e ∙ pop_eq in
      rw (taken, step)
        (visit-Stepped c m top popped lighter queued.0.0 (unfold live in queued.0.1) kept)

  -- The loop ends within the measure's fuel.
  pub run-Good :
      (fuel m c bound : ℕ) (l : Loop D)
      → m < fuel
      → size l ≤ m
      → c + m < bound
      → Good D q sources V c l
      → (l' : Loop D) × (d : ℕ) × (run D q fuel l ≡ some l') × Good D q sources V d l' × (d < bound)
  unfolding run
  run-Good zero m c bound l fuelled fits short good = absurd (omega arith)
  run-Good (suc fuel) m c bound l fuelled fits short good =
      go (step D q l) refl (step-Stepped c m l l.ws.heap refl good fits) (λ l' d less more g.
        run-Good fuel (m - 1) d bound l' (omega arith) (omega arith) (omega arith) g)
    where
      go :
          (o : Outcome D)
          → step D q l ≡ o
          → Stepped c m o
          → ((l' : Loop D) (d : ℕ)
              → size l' < m
              → d ≤ c + 1
              → Good D q sources V d l'
              → (l₂ : Loop D) × (e : ℕ) × (run D q fuel l' ≡ some l₂)
                × Good D q sources V e l₂
                × (e < bound))
          → (l₂ : Loop D) × (d : ℕ) × (run D q (suc fuel) l ≡ some l₂)
            × Good D q sources V d l₂
            × (d < bound)
      go (Outcome.done l') e g again = (l', c, rw (e, run) refl, g, omega (arith, short))
      go (Outcome.next l') e (d, g, less, more) again =
          let (l₂, d₂, ran, rest, low) = again l' d less more g in
          (l₂, d₂, rw (e, run) ran, rest, low)
