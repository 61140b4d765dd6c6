-- ===== src/GraphCodec/Searchable.antt =====
-- The graph part of `GraphBuilder::FromSnapshot` in libs/engine/io/build/graph_builder.cc: a snapshot
-- that was decoded is a graph that the search may run on.
use bravo_finder.Prelude.{
  ℕ, zero, suc, ◌+◌, ◌<◌, ◌≤◌, ◌^◌, ◌≡◌, refl, sym, ap, ◌∙◌, subst, false, get_or, arith, List, [],
  ◌∷◌, map, length, some, All, Bytes,
}
use bravo_finder.Prelude.Int.{ℤ, pos, pos_part, ltb_ℤ}
use bravo_finder.Double.{Double, zero_of}
use bravo_finder.Coordinate.{Coordinate}
use bravo_finder.ByteIo.Reader.{Endian}
use bravo_finder.Graph.Nav.{AirwayLevel, GraphEdge, NavGraph, vertex_count}
use bravo_finder.Graph.Options.{SearchOptions, SeededEndpoint, OpenSet, IsHeap}
use bravo_finder.Graph.Tables.{not_an_endpoint}
use bravo_finder.Graph.Search.{ShortestPath, query_for, find_shortest_path_multi}
use bravo_finder.Graph.Search.Spec.{IsWellFormed}
use bravo_finder.Graph.Search.Answers.{AnsweredTo, find_shortest_path_multi-Answered}
use bravo_finder.GraphCodec.{Position, EdgeRecord, GraphSnapshot, last_offset}
use bravo_finder.GraphCodec.Decode.{decode}
use bravo_finder.GraphCodec.Consistency.{IsEdge, Ascending, IsConsistent, Accepts, accepts}
use bravo_finder.GraphCodec.Records.{length-map}
use bravo_finder.GraphCodec.Soundness.{good-IsConsistent}

-- An offset that is not below the one before it is not below it as a natural number.
rises : (low x : ℤ) → ltb_ℤ x low ≡ false → pos_part low ≤ pos_part x
rises low x h = ground (arith, h)

next : (v : ℕ) → suc v ≡ v + 1
next v = omega arith

unfoldable pub level_of : ℕ → AirwayLevel
level_of zero = AirwayLevel.low
level_of (suc zero) = AirwayLevel.high
level_of (suc (suc n)) = AirwayLevel.both

-- `value64` and `value32` are the numbers that the bits of a `double` and of a `float` stand for.
module _ (D : Double) (value64 value32 : ℕ → D.Carrier) where
  abbrev pub edge_of : EdgeRecord → GraphEdge D
  edge_of ed = record {
    to = pos_part ed.to;
    distance_nm = value32 ed.distance_nm;
    airway_id = ed.airway_id;
    base_fl = ed.base_fl;
    top_fl = ed.top_fl;
    level = level_of ed.level;
  }

  abbrev pub position_of : Position → Coordinate D
  position_of p = record { latitude = value64 p.latitude; longitude = value64 p.longitude }

  unfoldable pub graph_of : GraphSnapshot → NavGraph D
  graph_of s = record {
    coords = map position_of s.coords;
    offsets = map pos_part s.offsets;
    edges = map edge_of s.edges;
  }

  edges-All :
      (v airways : ℕ) (eds : List EdgeRecord)
      → All (IsEdge v airways) eds
      → All (λ (e : GraphEdge D). e.to < v) (map edge_of eds)
  edges-All v airways [] h = tt
  edges-All v airways (ed ∷ eds) h = (h.0.inside, edges-All v airways eds h.1)

  pub graph_of-IsWellFormed : (s : GraphSnapshot) → IsConsistent s → IsWellFormed D (graph_of s)
  unfolding graph_of vertex_count
  graph_of-IsWellFormed s c =
      edges-All (length (map position_of s.coords)) (length s.airway_names) s.edges (
        subst (λ v. All (IsEdge v (length s.airway_names)) s.edges)
          (sym (length-map position_of s.coords)) c.edges)

  -- There is an offset for each vertex and one more, and the rows between them follow each other from
  -- the start of the edge array to its end: each read of a row is inside both arrays.
  pub record HasRows (graph : NavGraph D) : Type 0 where
    pub size : length graph.offsets ≡ vertex_count D graph + 1
    pub first : get_or graph.offsets 0 0 ≡ 0
    pub row :
        (v : ℕ)
        → v < vertex_count D graph
        → (get_or graph.offsets v 0 ≤ get_or graph.offsets (v + 1) 0)
          × (get_or graph.offsets (v + 1) 0 ≤ length graph.edges)
    pub last : get_or graph.offsets (vertex_count D graph) 0 ≡ length graph.edges

  Ascending-last :
      (low : ℤ) (xs : List ℤ) (v : ℕ)
      → Ascending low xs
      → v < length xs
      → get_or (map pos_part xs) v 0 ≤ pos_part (last_offset xs)
  unfolding last_offset
  Ascending-last low [] v a h = absurd (omega (arith, h))
  Ascending-last low (x ∷ []) zero a h = omega arith
  Ascending-last low (x ∷ []) (suc v) a h = absurd (omega (arith, h))
  Ascending-last low (x ∷ y ∷ xs) zero a h =
      omega (arith, rises x y a.1.0, Ascending-last x (y ∷ xs) zero a.1 (omega arith))
  Ascending-last low (x ∷ y ∷ xs) (suc v) a h = Ascending-last x (y ∷ xs) v a.1 (omega (arith, h))

  Ascending-row :
      (low : ℤ) (xs : List ℤ) (v : ℕ)
      → Ascending low xs
      → suc v < length xs
      → get_or (map pos_part xs) v 0 ≤ get_or (map pos_part xs) (suc v) 0
  Ascending-row low [] v a h = absurd (omega (arith, h))
  Ascending-row low (x ∷ []) v a h = absurd (omega (arith, h))
  Ascending-row low (x ∷ y ∷ xs) zero a h = rises x y a.1.0
  Ascending-row low (x ∷ y ∷ xs) (suc v) a h = Ascending-row x (y ∷ xs) v a.1 (omega (arith, h))

  at_end :
      (xs : List ℤ) (n : ℕ)
      → length xs ≡ n + 1
      → get_or (map pos_part xs) n 0 ≡ pos_part (last_offset xs)
  unfolding last_offset
  at_end [] n h = absurd (omega (arith, h))
  at_end (x ∷ []) zero h = refl
  at_end (x ∷ []) (suc n) h = absurd (omega (arith, h))
  at_end (x ∷ y ∷ xs) zero h = absurd (omega (arith, h))
  at_end (x ∷ y ∷ xs) (suc n) h = at_end (y ∷ xs) n (omega (arith, h))

  at_start : (xs : List ℤ) → get_or xs 0 (pos 0) ≡ pos 0 → get_or (map pos_part xs) 0 0 ≡ 0
  at_start [] h = refl
  at_start (x ∷ xs) h = ap pos_part h

  pub graph_of-HasRows : (s : GraphSnapshot) → IsConsistent s → HasRows (graph_of s)
  unfolding graph_of vertex_count
  graph_of-HasRows s c =
      let n = length-map position_of s.coords in
      let m = length-map edge_of s.edges in
      let full = ap pos_part c.ends in
      let inside : (v : ℕ)
          → v < length s.offsets
          → get_or (map pos_part s.offsets) v 0 ≤ length (map edge_of s.edges) =
        λ v h. omega (arith, Ascending-last (pos 0) s.offsets v c.ascending h, full, m) in
      record {
        size = omega (arith, length-map pos_part s.offsets, c.offsets, n);
        first = at_start s.offsets c.starts;
        row = λ v h. (
          subst (λ k. get_or (map pos_part s.offsets) v 0 ≤ get_or (map pos_part s.offsets) k 0)
              (next v)
              (Ascending-row (pos 0) s.offsets v c.ascending (omega (arith, h, c.offsets, n))),
          inside (v + 1) (omega (arith, h, c.offsets, n)),
        );
        last =
            at_end s.offsets (length (map position_of s.coords)) (omega (arith, c.offsets, n))
            ∙ omega (arith, full, m);
      }

  -- The rows of the snapshot's graph, and what a search on it comes to.
  abbrev pub IsSearchable :
      (H : OpenSet D)
      → List (SeededEndpoint D)
      → List (SeededEndpoint D)
      → SearchOptions D
      → GraphSnapshot
      → Type 0
  IsSearchable H sources goals options s =
      HasRows (graph_of s)
      × ((p : ShortestPath D) × (find_shortest_path_multi D H (graph_of s) sources goals options
            ≡ some p)
          × AnsweredTo D (query_for D H (graph_of s) sources goals options) sources goals p)

  -- Whatever the bytes of a section of less than 32 GiB and of the pool are, decoding gives an error,
  -- or a snapshot whose offsets give each vertex a row inside the edge array, from its start to its
  -- end, and on which a search, between any sources and goals, returns within its fuel: no path, or a
  -- walk of the snapshot's edges with no vertex twice, from a source to the vertex of one of the given
  -- goals, with its own length and price and that goal's cost added. The heap keeps the standard's
  -- promises, and of `double` it is assumed that 0 is not at most -1.
  pub decode-IsSearchable :
      (H : OpenSet D) (V : IsHeap D H) (endian : Endian) (body pool : Bytes)
      (negative : D.le (zero_of D) (not_an_endpoint D) ≡ false)
      (sources goals : List (SeededEndpoint D)) (options : SearchOptions D)
      → length body < 2 ^ 35
      → Accepts (IsSearchable H sources goals options) (decode endian body pool)
  decode-IsSearchable H V endian body pool negative sources goals options small =
      accepts (IsSearchable H sources goals options) (decode endian body pool) (λ s e.
        let c = good-IsConsistent endian body pool s small e in
        (
          graph_of-HasRows s c,
          find_shortest_path_multi-Answered D H V (graph_of s) (graph_of-IsWellFormed s c) negative
              sources goals options,
        ))
