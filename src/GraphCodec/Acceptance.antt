-- ===== src/GraphCodec/Acceptance.antt =====
-- What `GraphCodec::Encode` accepts is consistent, as what `GraphCodec::Decode` accepts is.
use native.Mathlib.Nat.{mod-eq_of_lt}
use bravo_finder.Prelude.{
  ℕ, ◌%◌, ◌^◌, ◌<◌, ◌≡◌, refl, subst, true, not, List, [], ◌∷◌, length, get_or, Option, none, some,
  All, ltb, arith,
}
use bravo_finder.Prelude.Int.{ℤ, pos, ltb_ℤ, eqb_ℤ}
use bravo_finder.FixedString.Ident.{FixedIdent}
use bravo_finder.ByteIo.Writer.{ByteWriter, write_u8, write_i32}
use bravo_finder.ByteIo.Reader.{to_signed}
use bravo_finder.ByteIo.Pool.{StringPool}
use bravo_finder.GraphCodec.{
  Position, EdgeRecord, GraphSnapshot, is_vertex_kind_byte, Fault, Checked, require, with_value,
  edge_fault, last_offset,
}
use bravo_finder.GraphCodec.Encode.{
  Out, write_vertex, write_vertices, write_i32s, write_i16s, write_offsets, write_edge, write_edges,
  write_names, write_sectors, write_header, arrays_agree, airports_agree, encode_graph, encode,
}
use bravo_finder.GraphCodec.Consistency.{
  IsEdge, Ascending, IsConsistent, require-good, with_value-good, edge_fault-none,
  last_offset-count, is_zero, Accepts, accepts,
}

write_vertices-All :
    (cs : List Position) (ids : List FixedIdent) (os ns ks : List ℕ) (out out' : Out)
    → length ids ≡ length cs
    → length os ≡ length cs
    → length ns ≡ length cs
    → length ks ≡ length cs
    → write_vertices cs ids os ns ks out ≡ Checked.good out'
    → All (λ k. is_vertex_kind_byte k ≡ true) ks
unfolding write_vertices
write_vertices-All [] ids os ns [] out out' a b c d e = tt
write_vertices-All [] ids os ns (k ∷ ks) out out' a b c d e = absurd (omega (arith, d))
write_vertices-All (x ∷ cs) (id ∷ ids) (o ∷ os) (n ∷ ns) (k ∷ ks) out out' a b c d e =
    let (w, pool) = write_vertex x id o n out in
    let (kind, e₁) =
      require-good (is_vertex_kind_byte k) Fault.vertex_kind_out_of_range
        (write_vertices cs ids os ns ks (write_u8 k w, pool)) out' e in
    (
      kind,
      write_vertices-All cs ids os ns ks (write_u8 k w, pool) out' (omega (arith, a))
          (omega (arith, b)) (omega (arith, c)) (omega (arith, d)) e₁,
    )
write_vertices-All (x ∷ cs) [] os ns ks out out' a b c d e = absurd (omega (arith, a))
write_vertices-All (x ∷ cs) (id ∷ ids) [] ns ks out out' a b c d e = absurd (omega (arith, b))
write_vertices-All (x ∷ cs) (id ∷ ids) (o ∷ os) [] ks out out' a b c d e = absurd (omega (arith, c))
write_vertices-All (x ∷ cs) (id ∷ ids) (o ∷ os) (n ∷ ns) [] out out' a b c d e = tt

write_offsets-Ascending :
    (low : ℤ) (xs : List ℤ) (w w' : ByteWriter)
    → write_offsets low xs w ≡ Checked.good w'
    → Ascending low xs
unfolding write_offsets
write_offsets-Ascending low [] w w' e = tt
write_offsets-Ascending low (x ∷ xs) w w' e =
    let (kept, e₁) =
      require-good (not (ltb_ℤ x low)) Fault.offsets_must_not_decrease
        (write_offsets x xs (write_i32 x w)) w' e in
    (ground (arith, kept), write_offsets-Ascending x xs (write_i32 x w) w' e₁)

write_edges-All :
    (v airways : ℕ) (eds : List EdgeRecord) (w w' : ByteWriter)
    → write_edges v airways eds w ≡ Checked.good w'
    → All (IsEdge v airways) eds
unfolding write_edges
write_edges-All v airways [] w w' e = tt
write_edges-All v airways (ed ∷ eds) w w' e =
    split (edge_fault v airways ed) refl e (write_edges-All v airways eds (write_edge ed w) w')
  where
    split :
        (o : Option Fault)
        → edge_fault v airways ed ≡ o
        → elim o [
          | none ↦ write_edges v airways eds (write_edge ed w)
          | some fault ↦ Checked.bad fault
        ]
          ≡ Checked.good w'
        → (write_edges v airways eds (write_edge ed w) ≡ Checked.good w'
            → All (IsEdge v airways) eds)
        → All (IsEdge v airways) (ed ∷ eds)
    split none h k others = (edge_fault-none v airways ed h, others k)
    split (some fault) h k others = cc

-- What the guards and the vertex loop leave to the offsets and the edges.
record IsGraph (s : GraphSnapshot) : Type 0 where
  starts : get_or s.offsets 0 (pos 0) ≡ pos 0
  ascending : Ascending (pos 0) s.offsets
  ends : last_offset s.offsets ≡ pos (length s.edges)
  edges : All (IsEdge (length s.coords) (length s.airway_names)) s.edges

encode_graph-IsGraph :
    (s : GraphSnapshot) (out out' : Out)
    → length s.edges < 2 ^ 32
    → encode_graph s out ≡ Checked.good out'
    → IsGraph s
unfolding encode_graph
encode_graph-IsGraph s (w, pool) out' small e =
    let v = length s.coords in
    let airways = length s.airway_names in
    let tail = λ (w₂ : ByteWriter).
      let named = write_names s.airway_names (w₂, pool) in
      Checked.good (write_sectors s.msa (write_i16s s.mora.cells named.0, named.1)) in
    let ends_well = eqb_ℤ (last_offset s.offsets) (to_signed (2 ^ 32) (length s.edges % 2 ^ 32)) in
    let edges_on = λ (w₁ : ByteWriter). with_value (write_edges v airways s.edges w₁) tail in
    let after =
      λ (w₁ : ByteWriter). require ends_well Fault.offsets_must_end_at_edge_count (edges_on w₁) in
    let (starts, e₁) =
      require-good (eqb_ℤ (get_or s.offsets 0 (pos 0)) (pos 0)) Fault.offsets_must_start_at_zero
        (with_value (write_offsets (pos 0) s.offsets w) after) out' e in
    let (w₁, offsets, e₂) = with_value-good (write_offsets (pos 0) s.offsets w) after out' e₁ in
    let (ends, e₃) =
      require-good ends_well Fault.offsets_must_end_at_edge_count (edges_on w₁) out' e₂ in
    let (w₂, edges, e₄) = with_value-good (write_edges v airways s.edges w₁) tail out' e₃ in
    let ascending = write_offsets-Ascending (pos 0) s.offsets w w₁ offsets in
    record {
      starts = is_zero (get_or s.offsets 0 (pos 0)) starts;
      ascending = ascending;
      ends = last_offset-count s.offsets (length s.edges) small ascending (
          subst (λ m. eqb_ℤ (last_offset s.offsets) (to_signed (2 ^ 32) m) ≡ true)
            (mod-eq_of_lt small) ends);
      edges = write_edges-All v airways s.edges w₁ w₂ edges;
    }

written-IsConsistent :
    (s : GraphSnapshot) (w : ByteWriter) (pool : StringPool) (out : Out)
    → length s.edges < 2 ^ 32
    → encode s w pool ≡ Checked.good out
    → IsConsistent s
unfolding encode arrays_agree airports_agree
written-IsConsistent s w pool out small e =
    let vertices =
      write_vertices s.coords s.idents s.has_outbound s.has_inbound s.kinds
        (write_header s w, pool) in
    let tail = λ (o : Out). encode_graph s (write_i32s s.airport_elevations_ft o.0, o.1) in
    let from_airports =
      require (airports_agree s) Fault.inconsistent_airport_array (with_value vertices tail) in
    let from_arrays = require (arrays_agree s) Fault.inconsistent_array_sizes from_airports in
    let (few, e₁) =
      require-good (not (ltb 0xFFFF (length s.airway_names))) Fault.too_many_airway_names
        from_arrays out e in
    let (arrays, e₂) =
      require-good (arrays_agree s) Fault.inconsistent_array_sizes from_airports out e₁ in
    let (airports, e₃) =
      require-good (airports_agree s) Fault.inconsistent_airport_array (with_value vertices tail)
        out e₂ in
    let (o, wrote, e₄) = with_value-good vertices tail out e₃ in
    let g = encode_graph-IsGraph s (write_i32s s.airport_elevations_ft o.0, o.1) out small e₄ in
    let idents : length s.idents ≡ length s.coords = ground (arith, arrays) in
    let outbound : length s.has_outbound ≡ length s.coords = ground (arith, arrays) in
    let inbound : length s.has_inbound ≡ length s.coords = ground (arith, arrays) in
    let kinds : length s.kinds ≡ length s.coords = ground (arith, arrays) in
    record {
      airports_start = ground (arith, airports);
      airports_inside = ground (arith, airports);
      elevations = ground (arith, airports);
      idents = idents;
      outbound = outbound;
      inbound = inbound;
      kinds = kinds;
      vertex_kinds =
          write_vertices-All s.coords s.idents s.has_outbound s.has_inbound s.kinds
            (write_header s w, pool) o idents outbound inbound kinds wrote;
      offsets = ground (arith, arrays);
      starts = g.starts;
      ascending = g.ascending;
      ends = g.ends;
      edges = g.edges;
    }

-- Encoding a snapshot of fewer than 2 ^ 32 edges, to any writer and pool, gives an error, or the
-- snapshot is consistent in the same sense as one that was read.
pub encode-IsConsistent :
    (s : GraphSnapshot) (w : ByteWriter) (pool : StringPool)
    → length s.edges < 2 ^ 32
    → Accepts (λ (out : Out). IsConsistent s) (encode s w pool)
encode-IsConsistent s w pool small =
    accepts (λ (out : Out). IsConsistent s) (encode s w pool)
      (λ out e. written-IsConsistent s w pool out small e)
