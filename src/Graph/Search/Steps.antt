-- ===== src/Graph/Search/Steps.antt =====
-- One round of the main loop: the invariant with the best goal so far, and the measure.
use bravo_finder.Prelude.{
  ℕ, ◌+◌, ◌<◌, ◌≤◌, ◌≡◌, refl, sym, ap, ◌∙◌, inl, inr, true, ◌&&◌, List, length, Option, none, some,
  All, get_or, Bool-cases, arith,
}
use bravo_finder.Double.{Double, zero_of}
use bravo_finder.Graph.Nav.{vertex_count}
use bravo_finder.Graph.Options.{SeededEndpoint, QueueNode, IsHeap}
use bravo_finder.Graph.Workspace.{
  SearchWorkspace, live, g_at, geo_at, prev_at, inbound_at, closed, mark_closed,
}
use bravo_finder.Graph.Workspace.Laws.{IsSized, mark_closed-IsSized, closed-mark_closed}
use bravo_finder.Graph.Search.{Query, Loop, goal_turn, finish_at}
use bravo_finder.Graph.Search.Spec.{total_at}
use bravo_finder.Graph.Search.Routes.{Route, Keeps, Route-Keeps, Route-closed}
use bravo_finder.Graph.Search.Invariant.{Inv, All-map, hold_everywhere, heap-Keeps}
use bravo_finder.Graph.Search.Progress.{open_degree}
use bravo_finder.Graph.Tables.{not_an_endpoint}

module _ (D : Double) (q : Query D) (sources : List (SeededEndpoint D)) (V : IsHeap D q.H) where
  open D use {Carrier, add, lt, le}
  open q use {H, graph, goal_seed, options}

  abbrev n : ℕ
  n = vertex_count D graph

  -- A goal that was reached, at the price `total`.
  pub record Goal (c : ℕ) (ws : SearchWorkspace D) (total : Carrier) (u : ℕ) : Type 0 where
    pub shut : closed D ws u ≡ true
    pub trail : List ℕ
    pub route : Route D q sources ws u trail
    pub short : length trail ≤ c
    pub is_goal : le (zero_of D) (get_or goal_seed u (not_an_endpoint D)) ≡ true
    pub priced : total ≡ total_at D q sources u (g_at D ws u) (inbound_at D ws u)

  abbrev pub BestGoal : ℕ → SearchWorkspace D → Carrier → Option ℕ → Type 0
  BestGoal c ws total none = Unit {0}
  BestGoal c ws total (some u) = Goal c ws total u

  pub record Good (c : ℕ) (l : Loop D) : Type 0 where
    pub inv : Inv D q sources V c l.ws
    pub best : BestGoal c l.ws l.best_total l.best_goal

  abbrev pub measure : SearchWorkspace D → ℕ
  measure ws = length ws.heap + open_degree D graph ws n

  pub BestGoal-Keeps :
      (c : ℕ) (ws ws' : SearchWorkspace D) (total : Carrier) (o : Option ℕ)
      → ((w : ℕ) → closed D ws w ≡ true → Keeps D q sources ws ws' w)
      → BestGoal c ws total o
      → BestGoal c ws' total o
  BestGoal-Keeps c ws ws' total none keep b = tt
  BestGoal-Keeps c ws ws' total (some u) keep b =
      let k = keep u b.shut in
      record {
        shut = k.closed_same b.shut;
        trail = b.trail;
        route =
            Route-Keeps D q sources ws ws' b.route
              (All-map b.trail keep (Route-closed D q sources ws b.route b.shut));
        short = b.short;
        is_goal = b.is_goal;
        priced =
            b.priced
            ∙ ap (λ g. total_at D q sources u g (inbound_at D ws u)) (sym k.g_same)
            ∙ ap (total_at D q sources u (g_at D ws' u)) (sym k.inbound_same);
      }

  BestGoal-more :
      (c : ℕ) (ws : SearchWorkspace D) (total : Carrier) (o : Option ℕ)
      → BestGoal c ws total o
      → BestGoal (c + 1) ws total o
  BestGoal-more c ws total none b = tt
  BestGoal-more c ws total (some u) b = record {
    shut = b.shut;
    trail = b.trail;
    route = b.route;
    short = omega (arith, b.short);
    is_goal = b.is_goal;
    priced = b.priced;
  }

  -- Every vertex reads as before when another is closed.
  pub marked-Keeps :
      (ws : SearchWorkspace D) (u w : ℕ)
      → IsSized D n ws
      → u < n
      → Keeps D q sources ws (mark_closed D u ws) w
  marked-Keeps ws u w s small = record {
    g_same = unfold mark_closed g_at live in refl;
    geo_same = unfold mark_closed geo_at live in refl;
    prev_same = unfold mark_closed prev_at live in refl;
    inbound_same = unfold mark_closed inbound_at live in refl;
    closed_same = λ e. closed-mark_closed D n u w ws s small ∙ ground (arith, e);
  }

  -- An invariant moves to a workspace where every vertex reads as before.
  Inv-Keeps :
      (c d : ℕ) (ws ws' : SearchWorkspace D)
      → c ≤ d
      → IsSized D n ws'
      → ((w : ℕ) → Keeps D q sources ws ws' w)
      → ((w : ℕ) → live D ws' w ≡ live D ws w)
      → V.Valid ws'.heap
      → All (λ (x : QueueNode D). (x.vertex < n) × (live D ws' x.vertex ≡ true)) ws'.heap
      → Inv D q sources V c ws
      → Inv D q sources V d ws'
  Inv-Keeps c d ws ws' le_cd sized keep lives valid queued inv = record {
    sized = sized;
    routed = λ w alive.
        let old = inv.routed w (sym (lives w) ∙ alive) in
        record {
          trail = old.trail;
          route = Route-Keeps D q sources ws ws' old.route (hold_everywhere old.trail keep);
          short = omega (arith, old.short, le_cd);
        };
    valid = valid;
    queued = queued;
  }

  -- The workspace and the loop after a queue entry was taken.
  abbrev pub with_heap : SearchWorkspace D → List (QueueNode D) → SearchWorkspace D
  with_heap ws h = record ws { heap = h }

  pub popped-Good :
      (c : ℕ) (l : Loop D) (rest : List (QueueNode D))
      → V.Valid rest
      → All (λ (x : QueueNode D). (x.vertex < n) × (live D l.ws x.vertex ≡ true)) rest
      → Good c l
      → Good c (record l { ws = with_heap l.ws rest })
  popped-Good c l rest valid queued good = record {
    inv =
        Inv-Keeps c c l.ws (with_heap l.ws rest) (omega arith) sized_same
          (heap-Keeps D q sources V l.ws rest) (λ w. unfold live in refl) valid
          (unfold live in queued) good.inv;
    best =
        BestGoal-Keeps c l.ws (with_heap l.ws rest) l.best_total l.best_goal
          (λ w e. heap-Keeps D q sources V l.ws rest w) good.best;
  }
    where
      sized_same : IsSized D n (with_heap l.ws rest)
      sized_same =
          let s = good.inv.sized in
          record {
            g_size = s.g_size;
            geo_size = s.geo_size;
            prev_size = s.prev_size;
            inbound_size = s.inbound_size;
            stamp_size = s.stamp_size;
            closed_size = s.closed_size;
          }

  -- Closing a queued vertex.
  pub marked-Good :
      (c u : ℕ) (l : Loop D)
      → u < n
      → Good c l
      → Good (c + 1) (record l { ws = mark_closed D u l.ws })
  marked-Good c u l small good = record {
    inv =
        Inv-Keeps c (c + 1) l.ws (mark_closed D u l.ws) (omega arith)
          (mark_closed-IsSized D n u l.ws good.inv.sized)
          (λ w. marked-Keeps l.ws u w good.inv.sized small) (λ w. unfold mark_closed live in refl)
          (unfold mark_closed in good.inv.valid) (unfold mark_closed live in good.inv.queued)
          good.inv;
    best = BestGoal-more c (mark_closed D u l.ws) l.best_total l.best_goal (
        BestGoal-Keeps c l.ws (mark_closed D u l.ws) l.best_total l.best_goal
          (λ w e. marked-Keeps l.ws u w good.inv.sized small) good.best);
  }

  -- The test for a goal.
  pub finish_at-Good :
      (c u : ℕ) (l : Loop D)
      → Good c l
      → closed D l.ws u ≡ true
      → (trail : List ℕ) → Route D q sources l.ws u trail
      → length trail ≤ c
      → Good c (finish_at D q u l) × ((finish_at D q u l).ws ≡ l.ws)
  unfolding finish_at goal_turn
  finish_at-Good c u l good shut trail route short =
      let seed = get_or goal_seed u (not_an_endpoint D) in
      let total = goal_turn D q u l.ws (add (g_at D l.ws u) seed) in
      elim (Bool-cases (le (zero_of D) seed && lt total l.best_total)) [
        | inl better ↦ rw better (
          record {
            inv = good.inv;
            best = record {
              shut = shut;
              trail = trail;
              route = route;
              short = short;
              is_goal = ground arith;
              priced = refl;
            };
          },
          refl,
        )
        | inr worse ↦ rw worse (good, refl)
      ]
