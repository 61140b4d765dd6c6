-- ===== src/Graph/Search/Handover.antt =====
-- One search after another in the same workspace.
use bravo_finder.Prelude.{
  ◌+◌, ◌<◌, ◌^◌, ◌≡◌, refl, sym, subst, inl, inr, List, [], ◌∷◌, some, arith,
}
use bravo_finder.Double.{Double}
use bravo_finder.Graph.Nav.{vertex_count}
use bravo_finder.Graph.Options.{SeededEndpoint, IsHeap}
use bravo_finder.Graph.Workspace.{SearchWorkspace}
use bravo_finder.Graph.Search.{Query, ShortestPath, not_found, find_shortest_path_in}
use bravo_finder.Graph.Search.Spec.{IsWellFormed}
use bravo_finder.Graph.Search.Seeding.{IsIdle, IsRested, fresh-IsIdle}
use bravo_finder.Graph.Search.Answers.{Answered, find_shortest_path_in-Answered}
use bravo_finder.Graph.Search.Reuse.{find_shortest_path_in-Idle}

-- A search between any sources and goals in a workspace that rests, whatever earlier searches left in
-- it, returns within its fuel with no path or one that answers, and hands back a workspace that rests
-- as long as its generation number has one more step to go. The graph's edges end at its vertices, and
-- the heap keeps the standard's promises.
pub find_shortest_path_in-IsRested :
    (D : Double) (q : Query D) (sources : List (SeededEndpoint D)) (V : IsHeap D q.H)
    (wf : IsWellFormed D q.graph) (ws : SearchWorkspace D)
    → IsRested D ws
    → ws.generation + 2 < 2 ^ 32
    → (p : ShortestPath D) × (ws' : SearchWorkspace D) × (find_shortest_path_in D q sources ws
        ≡ some (p, ws'))
      × Answered D q sources p
      × IsRested D ws'
find_shortest_path_in-IsRested D q [] V wf ws rested room =
    (not_found D, ws, unfold find_shortest_path_in in refl, inl refl, rested)
find_shortest_path_in-IsRested D q (s ∷ ss) V wf ws rested room =
    let (p, ws', found, answered) = find_shortest_path_in-Answered D q (s ∷ ss) V wf ws rested in
    let idle =
      find_shortest_path_in-Idle D q (ws.generation + 1) (s ∷ ss) ws p ws'
        (fresh-IsIdle D (vertex_count D q.graph) ws rested) (inr (λ e. cc)) found in
    (
      p,
      ws',
      found,
      answered,
      record {
        idle = subst (λ g. IsIdle D g ws') (sym idle.generation_eq) idle;
        searches_left = omega (arith, idle.generation_eq, room);
      },
    )
