-- ===== src/Graph/Search/Progress.antt =====
-- The measure of the main loop: queue entries, and edges of the vertices that are not closed.
use bravo_finder.Prelude.{
  ℕ, zero, suc, ◌+◌, ◌-◌, ◌<◌, ◌≤◌, ◌≡◌, refl, sym, ap, ◌∙◌, inl, inr, true, false, List, [], ◌∷◌,
  length, take, drop, get_or, All, Among, Bool-cases, if◌then◌else◌, ◌==◌, arith,
}
use bravo_finder.Double.{Double}
use bravo_finder.Graph.Nav.{GraphEdge, NavGraph, edges_of}
use bravo_finder.Graph.Workspace.{SearchWorkspace, closed, mark_closed}
use bravo_finder.Graph.Workspace.Laws.{IsSized, closed-mark_closed}
use bravo_finder.Graph.Search.{degree_sum}
use bravo_finder.Graph.Search.Invariant.{All-map}

module _ (D : Double) (graph : NavGraph D) where
  abbrev pub degree : ℕ → ℕ
  degree v = length (edges_of D graph v)

  pub open_degree : SearchWorkspace D → ℕ → ℕ
  open_degree ws zero = 0
  open_degree ws (suc v) = (if closed D ws v then 0 else degree v) + open_degree ws v

  pub open_degree-le : (ws : SearchWorkspace D) (k : ℕ) → open_degree ws k ≤ degree_sum D k graph
  unfolding open_degree degree_sum
  open_degree-le ws zero = omega arith
  open_degree-le ws (suc k) = ground (arith, open_degree-le ws k)

  pub open_degree-still :
      (ws ws' : SearchWorkspace D) (k : ℕ)
      → ((w : ℕ) → w < k → closed D ws' w ≡ closed D ws w)
      → open_degree ws' k ≡ open_degree ws k
  unfolding open_degree
  open_degree-still ws ws' zero h = refl
  open_degree-still ws ws' (suc k) h =
      let rest = open_degree-still ws ws' k (λ w p. h w (omega arith)) in
      rw (h k (omega arith), rest) refl

  -- Closing a vertex takes its edges off the measure.
  pub open_degree-mark_closed :
      (ws : SearchWorkspace D) (n u k : ℕ)
      → IsSized D n ws
      → u < n
      → u < k
      → closed D ws u ≡ false
      → open_degree (mark_closed D u ws) k + degree u ≡ open_degree ws k
  unfolding open_degree
  open_degree-mark_closed ws n u zero s small below unclosed = absurd (omega arith)
  open_degree-mark_closed ws n u (suc k) s small below unclosed =
      let marked = closed-mark_closed D n u k ws s small in
      elim (Bool-cases (u == k)) [
        | inl same ↦
            let e : u ≡ k = ground arith in
            let rest =
              open_degree-still ws (mark_closed D u ws) k
                (λ w p. closed-mark_closed D n u w ws s small ∙ ground arith) in
            let on : closed D (mark_closed D u ws) k ≡ true = marked ∙ rw same refl in
            let off : closed D ws k ≡ false = ap (closed D ws) (sym e) ∙ unclosed in
            let deg : degree u ≡ degree k = ap degree e in rw (on, off) (omega (arith, rest, deg))
        | inr other ↦
            let rest = open_degree-mark_closed ws n u k s small (ground arith) unclosed in
            let kept : closed D (mark_closed D u ws) k ≡ closed D ws k = marked ∙ rw other refl in
            rw kept (omega (arith, rest))
      ]

  -- The edges that a vertex lists are edges of the graph.
  pub edges_of-All :
      (P : GraphEdge D → Type 0) (v : ℕ) → All P graph.edges → All P (edges_of D graph v)
  unfolding edges_of
  edges_of-All P v h =
      All-take (get_or graph.offsets (v + 1) 0 - get_or graph.offsets v 0)
        (drop (get_or graph.offsets v 0) graph.edges)
        (All-drop (get_or graph.offsets v 0) graph.edges h)
    where
      All-take : (k : ℕ) (es : List (GraphEdge D)) → All P es → All P (take k es)
      All-take zero es p = tt
      All-take (suc k) [] p = tt
      All-take (suc k) (e ∷ es) p = (p.0, All-take k es p.1)

      All-drop : (k : ℕ) (es : List (GraphEdge D)) → All P es → All P (drop k es)
      All-drop zero es p = p
      All-drop (suc k) [] p = tt
      All-drop (suc k) (e ∷ es) p = All-drop k es p.1

pub Among-self : {A : Type 0} (xs : List A) → All (λ x. Among x xs) xs
Among-self [] = tt
Among-self (x ∷ xs) = (inl refl, All-map xs (λ y h. inr h) (Among-self xs))
