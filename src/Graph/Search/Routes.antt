-- ===== src/Graph/Search/Routes.antt =====
-- What the arrays of the workspace say of a vertex: the way back to a source that `prev` records.
use mathlib.Core.Path.{ap₂}
use bravo_finder.Prelude.{ℕ, ◌≡◌, ◌≢◌, sym, ap, ◌∙◌, true, List, [], ◌∷◌, get_or, none, some, All}
use bravo_finder.Prelude.Int.{pos_part}
use bravo_finder.Double.{Double, zero_of}
use bravo_finder.Graph.Nav.{GraphEdge}
use bravo_finder.Graph.Options.{SeededEndpoint}
use bravo_finder.Graph.Workspace.{SearchWorkspace, g_at, geo_at, prev_at, inbound_at, closed}
use bravo_finder.Graph.Search.{Query, outbound}
use bravo_finder.Graph.Search.Spec.{IsStart, IsUsable, Walk, Nodup, price}

module _ (D : Double) (q : Query D) (sources : List (SeededEndpoint D)) where
  open D use {Carrier, add}
  open q use {source_bearing}

  -- `v` was reached through the vertices `vs`, itself first.
  pub data Route (ws : SearchWorkspace D) : ℕ → List ℕ → Type 0 where
    from_source :
        (s : SeededEndpoint D)
        → IsStart D q sources s
        → prev_at D ws (pos_part s.vertex) ≡ none
        → g_at D ws (pos_part s.vertex) ≡ s.cost
        → geo_at D ws (pos_part s.vertex) ≡ s.cost
        → inbound_at D ws (pos_part s.vertex)
          ≡ get_or source_bearing (pos_part s.vertex) (zero_of D)
        → Route ws (pos_part s.vertex) (pos_part s.vertex ∷ [])
    over_edge :
        {u : ℕ} {us : List ℕ} (e : GraphEdge D) (extra : Carrier)
        → Route ws u us
        → closed D ws u ≡ true
        → All (λ w. w ≢ e.to) us
        → IsUsable D q sources u e extra
        → prev_at D ws e.to ≡ some u
        → g_at D ws e.to ≡ price D q sources u e extra (g_at D ws u) (inbound_at D ws u)
        → geo_at D ws e.to ≡ add (geo_at D ws u) e.distance_nm
        → inbound_at D ws e.to ≡ outbound D q u e.to
        → Route ws e.to (e.to ∷ us)

  -- What is known of one vertex is still so after a step.
  pub record Keeps (ws ws' : SearchWorkspace D) (v : ℕ) : Type 0 where
    pub g_same : g_at D ws' v ≡ g_at D ws v
    pub geo_same : geo_at D ws' v ≡ geo_at D ws v
    pub prev_same : prev_at D ws' v ≡ prev_at D ws v
    pub inbound_same : inbound_at D ws' v ≡ inbound_at D ws v
    pub closed_same : closed D ws v ≡ true → closed D ws' v ≡ true

  pub Route-Keeps :
      (ws ws' : SearchWorkspace D) {v : ℕ} {vs : List ℕ}
      → Route ws v vs
      → All (Keeps ws ws') vs
      → Route ws' v vs
  Route-Keeps ws ws' (Route.from_source s start no_prev g geo inb) (k, _) =
      Route.from_source s start (k.prev_same ∙ no_prev) (k.g_same ∙ g) (k.geo_same ∙ geo)
        (k.inbound_same ∙ inb)
  Route-Keeps ws ws' (Route.over_edge {u} e extra r shut apart usable back g geo inb) (k, ks) =
      let j = head_of r ks in
      Route.over_edge e extra (Route-Keeps ws ws' r ks) (j.closed_same shut) apart usable
        (k.prev_same ∙ back)
        (k.g_same ∙ g ∙ ap₂ (price D q sources u e extra) (sym j.g_same) (sym j.inbound_same))
        (k.geo_same ∙ geo ∙ ap (λ c. add c e.distance_nm) (sym j.geo_same)) (k.inbound_same ∙ inb)
    where
      head_of : {w : ℕ} {ws₀ : List ℕ} → Route ws w ws₀ → All (Keeps ws ws') ws₀ → Keeps ws ws' w
      head_of (Route.from_source s _ _ _ _ _) h = h.0
      head_of (Route.over_edge e _ _ _ _ _ _ _ _ _) h = h.0

  -- A route whose end is closed is closed all the way.
  pub Route-closed :
      (ws : SearchWorkspace D) {v : ℕ} {vs : List ℕ}
      → Route ws v vs
      → closed D ws v ≡ true
      → All (λ w. closed D ws w ≡ true) vs
  Route-closed ws (Route.from_source s _ _ _ _ _) h = (h, tt)
  Route-closed ws (Route.over_edge e extra r shut _ _ _ _ _ _) h = (h, Route-closed ws r shut)

  pub Route-Nodup : (ws : SearchWorkspace D) {v : ℕ} {vs : List ℕ} → Route ws v vs → Nodup vs
  Route-Nodup ws (Route.from_source s _ _ _ _ _) = (tt, tt)
  Route-Nodup ws (Route.over_edge e extra r _ apart _ _ _ _ _) = (apart, Route-Nodup ws r)

  pub Route-Walk :
      (ws : SearchWorkspace D) {v : ℕ} {vs : List ℕ}
      → Route ws v vs
      → Walk D q sources v (g_at D ws v) (geo_at D ws v) (inbound_at D ws v) vs
  Route-Walk ws (Route.from_source s start no_prev g geo inb) =
      rw (g, geo, inb) (Walk.start s start)
  Route-Walk ws (Route.over_edge e extra r shut apart usable back g geo inb) =
      rw (g, geo, inb) (Walk.along (Route-Walk ws r) e extra usable)
