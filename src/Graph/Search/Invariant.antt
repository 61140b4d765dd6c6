-- ===== src/Graph/Search/Invariant.antt =====
-- The invariant of the search: what every vertex with a price and every queue entry stands for.
use mathlib.Core.List.{Permᴰ}
use mathlib.Core.List.Permᴰ.{symm}
use bravo_finder.Prelude.{
  ℕ, ◌+◌, ◌<◌, ◌≤◌, ◌≡◌, ◌≢◌, refl, sym, ap, ◌∙◌, subst, inl, inr, true, false, List, [], ◌∷◌,
  length, Option, All, All-perm, Bool-cases, ◌==◌, if◌then◌else◌, arith,
}
use bravo_finder.Double.{Double}
use bravo_finder.Graph.Nav.{vertex_count}
use bravo_finder.Graph.Options.{SeededEndpoint, QueueNode, IsHeap}
use bravo_finder.Graph.Workspace.{
  SearchWorkspace, live, g_at, geo_at, prev_at, inbound_at, closed, relax, touch,
}
use bravo_finder.Graph.Workspace.Laws.{IsSized, relax-IsSized, Relaxed, relax-Relaxed}
use bravo_finder.Graph.Search.{Query, push_open}
use bravo_finder.Graph.Search.Routes.{Route, Keeps, Route-Keeps, Route-closed}

pub All-map {ℓ κ μ} :
    {A : Type ℓ} {P : A → Type κ} {Q : A → Type μ} (xs : List A)
    → ((x : A) → P x → Q x)
    → All P xs
    → All Q xs
All-map [] f h = tt
All-map (x ∷ xs) f h = (f x h.0, All-map xs f h.1)

pub hold_everywhere {ℓ κ} : {A : Type ℓ} {P : A → Type κ} (xs : List A) → ((x : A) → P x) → All P xs
hold_everywhere [] f = tt
hold_everywhere (x ∷ xs) f = (f x, hold_everywhere xs f)

module _ (D : Double) (q : Query D) (sources : List (SeededEndpoint D)) (V : IsHeap D q.H) where
  open D use {Carrier}
  open q use {H, graph}

  abbrev n : ℕ
  n = vertex_count D graph

  -- A route of at most `c` closed vertices and its end.
  pub record Routed (c : ℕ) (ws : SearchWorkspace D) (v : ℕ) : Type 0 where
    pub trail : List ℕ
    pub route : Route D q sources ws v trail
    pub short : length trail ≤ c + 1

  pub record Inv (c : ℕ) (ws : SearchWorkspace D) : Type 0 where
    pub sized : IsSized D n ws
    pub routed : (v : ℕ) → live D ws v ≡ true → Routed c ws v
    pub valid : V.Valid ws.heap
    pub queued : All (λ (x : QueueNode D). (x.vertex < n) × (live D ws x.vertex ≡ true)) ws.heap

  pub Route-avoids :
      (ws : SearchWorkspace D) (v : ℕ) {w : ℕ} {vs : List ℕ}
      → Route D q sources ws w vs
      → closed D ws v ≡ false
      → w ≢ v
      → All (λ x. x ≢ v) vs
  Route-avoids ws v (Route.from_source s _ _ _ _ _) unclosed ne = (ne, tt)
  Route-avoids ws v (Route.over_edge {us} e extra r shut _ _ _ _ _ _) unclosed ne = (
    ne,
    All-map us (λ x on same. ground (arith, ap (closed D ws) same))
        (Route-closed D q sources ws r shut),
  )

  -- Only the heap differs.
  pub heap-Keeps :
      (ws : SearchWorkspace D) (h : List (QueueNode D)) (v : ℕ)
      → Keeps D q sources ws (record ws { heap = h }) v
  unfolding g_at geo_at prev_at inbound_at closed live
  heap-Keeps ws h v = record {
    g_same = refl;
    geo_same = refl;
    prev_same = refl;
    inbound_same = refl;
    closed_same = λ e. e;
  }

  -- A price for `v` that the queue learns of.
  module _ (ws : SearchWorkspace D) (v : ℕ) (f g geo : Carrier) (prev : Option ℕ)
      (inbound : Carrier) where
    abbrev pub offered : SearchWorkspace D
    offered = push_open D q v f (relax D v g geo prev inbound ws)

    abbrev node : QueueNode D
    node = record { f = f; vertex = v }

    pub offered-heap : offered.heap ≡ H.push node ws.heap
    unfolding push_open relax touch
    offered-heap = elim (Bool-cases (live D ws v)) [ inl e ↦ rw e refl | inr e ↦ rw e refl ]

    module _ (sized : IsSized D n ws) (small : v < n) where
      told : (w : ℕ) → Relaxed D n v g geo prev inbound ws (relax D v g geo prev inbound ws) w
      told w = relax-Relaxed D n v g geo prev inbound ws w sized small

      pub offered-live : (w : ℕ) → live D offered w ≡ (if v == w then true else live D ws w)
      unfolding push_open live
      offered-live w = (told w).live_eq

      pub offered-closed : (w : ℕ) → closed D offered w ≡ closed D ws w
      unfolding push_open closed
      offered-closed w = (told w).closed_eq

      pub offered-Keeps : (w : ℕ) → w ≢ v → Keeps D q sources ws offered w
      unfolding push_open g_at geo_at prev_at inbound_at closed live
      offered-Keeps w ne =
          let apart : (v == w) ≡ false = ground arith in
          record {
            g_same = (told w).g_eq ∙ rw apart refl;
            geo_same = (told w).geo_eq ∙ rw apart refl;
            prev_same = (told w).prev_eq ∙ rw apart refl;
            inbound_same = (told w).inbound_eq ∙ rw apart refl;
            closed_same = λ e. (told w).closed_eq ∙ e;
          }

      offered-IsSized : IsSized D n offered
      unfolding push_open
      offered-IsSized =
          let s = relax-IsSized D n v g geo prev inbound ws sized in
          record {
            g_size = s.g_size;
            geo_size = s.geo_size;
            prev_size = s.prev_size;
            inbound_size = s.inbound_size;
            stamp_size = s.stamp_size;
            closed_size = s.closed_size;
          }

      -- The offer keeps the invariant, if `v` is not closed and its new route is short.
      pub offered-Inv :
          (c : ℕ) → Inv c ws → closed D ws v ≡ false → Routed c offered v → Inv c offered
      offered-Inv c inv unclosed mine = record {
        sized = offered-IsSized;
        routed = λ w alive. elim (Bool-cases (v == w)) [
          | inl same ↦ let e : v ≡ w = ground arith in subst (Routed c offered) e mine
          | inr other ↦
              let apart : w ≢ v = ground arith in
              let was : live D ws w ≡ true = ground (arith, offered-live w) in
              let old = inv.routed w was in
              record {
                trail = old.trail;
                route =
                    Route-Keeps D q sources ws offered old.route (
                      All-map old.trail offered-Keeps (Route-avoids ws v old.route unclosed apart));
                short = old.short;
              }
        ];
        valid = subst V.Valid (sym offered-heap) (V.valid-push node ws.heap inv.valid);
        queued =
            All-perm (λ (x : QueueNode D). (x.vertex < n) × (live D offered x.vertex ≡ true))
              (symm (
                subst (λ h. Permᴰ h (node ∷ ws.heap)) (sym offered-heap)
                  (V.push-perm node ws.heap inv.valid)))
              (
                (small, offered-live v ∙ ground arith),
                All-map ws.heap (λ x h. (h.0, offered-live x.vertex ∙ ground (arith, h.1)))
                    inv.queued,
              );
      }

      -- What the offer wrote is read at `v`.
      pub offered_here :
          (g_at D offered v ≡ g)
          × (geo_at D offered v ≡ geo)
          × (prev_at D offered v ≡ prev)
          × (inbound_at D offered v ≡ inbound)
      unfolding push_open g_at geo_at prev_at inbound_at live
      offered_here =
          let same : (v == v) ≡ true = ground arith in
          let t = told v in
          (
            t.g_eq ∙ rw same refl,
            t.geo_eq ∙ rw same refl,
            t.prev_eq ∙ rw same refl,
            t.inbound_eq ∙ rw same refl,
          )
