-- ===== src/GraphCodec/Encode.antt =====
-- `GraphCodec::Encode` of libs/engine/io/cache/graph_codec.cc. The writer and the pool are passed on
-- from call to call; what they hold after an error is not kept.
use bravo_finder.Prelude.{
  ℕ, ◌+◌, ◌-◌, ◌%◌, ◌^◌, Bool, not, ◌&&◌, List, [], ◌∷◌, length, get_or, none, some, ltb, ◌==◌,
  bit_or, if◌then◌else◌, Bytes,
}
use bravo_finder.Prelude.Int.{ℤ, pos, pos_part, ltb_ℤ, eqb_ℤ}
use bravo_finder.FixedString.Ident.{FixedIdent, ident_view, icao_code_view}
use bravo_finder.ByteIo.Writer.{
  ByteWriter, write_u8, write_u16, write_u32, write_i16, write_i32, write_f32, write_f64,
  to_unsigned,
}
use bravo_finder.ByteIo.Pool.{StringPool, add}
use bravo_finder.ByteIo.Reader.{to_signed}
use bravo_finder.GraphCodec.{
  Position, EdgeRecord, MsaArc, MsaSector, GraphSnapshot, flag_has_outbound, flag_has_inbound,
  is_vertex_kind_byte, Fault, Checked, require, with_value, edge_fault, last_offset,
}

-- The writer and the pool.
abbrev pub Out : Type 0
Out = ByteWriter × StringPool

-- `pool.Add` and the two halves of the reference.
unfoldable pub write_ref : Bytes → Out → Out
write_ref s (w, pool) =
    let (r, pool') = add s pool in (write_u32 r.len (write_u32 r.offset w), pool')

-- A vertex adds both strings before it writes either reference.
unfoldable pub write_ident : FixedIdent → Out → Out
write_ident id (w, pool) =
    let (ir, pool') = add (ident_view id) pool in
    let (rr, pool'') = add (icao_code_view id) pool' in
    (write_u32 rr.len (write_u32 rr.offset (write_u32 ir.len (write_u32 ir.offset w))), pool'')

unfoldable pub flags_of : ℕ → ℕ → ℕ
flags_of outbound inbound =
    let first = if outbound == 0 then 0 else flag_has_outbound in
    if inbound == 0 then first else bit_or first flag_has_inbound

unfoldable pub write_vertex : Position → FixedIdent → ℕ → ℕ → Out → Out
unfolding write_ident flags_of
write_vertex c id outbound inbound (w, pool) =
    let (w', pool') = write_ident id (write_f64 c.longitude (write_f64 c.latitude w), pool) in
    (write_u8 (flags_of outbound inbound) w', pool')

-- The five arrays are of one length, which is checked before.
unfoldable pub write_vertices :
    List Position → List FixedIdent → List ℕ → List ℕ → List ℕ → Out → Checked Out
unfolding write_vertex
write_vertices (c ∷ cs) (id ∷ ids) (o ∷ os) (n ∷ ns) (k ∷ ks) out =
    let (w, pool) = write_vertex c id o n out in
    require (is_vertex_kind_byte k) Fault.vertex_kind_out_of_range
      (write_vertices cs ids os ns ks (write_u8 k w, pool))
write_vertices cs ids os ns ks out = Checked.good out

unfoldable pub write_i32s : List ℤ → ByteWriter → ByteWriter
write_i32s [] w = w
write_i32s (x ∷ xs) w = write_i32s xs (write_i32 x w)

unfoldable pub write_i16s : List ℤ → ByteWriter → ByteWriter
write_i16s [] w = w
write_i16s (x ∷ xs) w = write_i16s xs (write_i16 x w)

-- The loop with `prev_offset`.
unfoldable pub write_offsets : ℤ → List ℤ → ByteWriter → Checked ByteWriter
write_offsets prev_offset [] w = Checked.good w
write_offsets prev_offset (off ∷ offs) w =
    require (not (ltb_ℤ off prev_offset)) Fault.offsets_must_not_decrease
      (write_offsets off offs (write_i32 off w))

unfoldable pub write_edge : EdgeRecord → ByteWriter → ByteWriter
write_edge ed w = write_u8 ed.level (
    write_i16 ed.top_fl (
      write_i16 ed.base_fl (write_u16 ed.airway_id (write_f32 ed.distance_nm (write_i32 ed.to w)))))

unfoldable pub write_edges : ℕ → ℕ → List EdgeRecord → ByteWriter → Checked ByteWriter
unfolding edge_fault write_edge
write_edges v airway_count [] w = Checked.good w
write_edges v airway_count (ed ∷ eds) w =
    let rest = write_edges v airway_count eds (write_edge ed w) in
    elim (edge_fault v airway_count ed) [ none ↦ rest | some fault ↦ Checked.bad fault ]

unfoldable pub write_names : List Bytes → Out → Out
unfolding write_ref
write_names [] out = out
write_names (name ∷ names) out = write_names names (write_ref name out)

unfoldable pub write_arcs : List MsaArc → ByteWriter → ByteWriter
write_arcs [] w = w
write_arcs (arc ∷ arcs) w =
    write_arcs arcs
      (write_i32 arc.radius_nm (write_i32 arc.alt_100ft (write_i32 arc.bearing_from w)))

-- A sector adds its three strings before it writes any reference.
unfoldable pub write_sector : MsaSector → Out → Out
unfolding write_arcs
write_sector s (w, pool) =
    let (ci, pool₁) = add s.center.ident pool in
    let (cr, pool₂) = add s.center.arinc424_icao_code pool₁ in
    let (ai, pool₃) = add s.airport_icao pool₂ in
    let w₁ = write_u32 cr.len (write_u32 cr.offset (write_u32 ci.len (write_u32 ci.offset w))) in
    let w₂ = write_u32 (length s.arcs % 2 ^ 32) (write_u32 ai.len (write_u32 ai.offset w₁)) in
    (write_arcs s.arcs w₂, pool₃)

unfoldable pub write_sectors : List MsaSector → Out → Out
unfolding write_sector
write_sectors [] out = out
write_sectors (s ∷ ss) out = write_sectors ss (write_sector s out)

unfoldable pub write_header : GraphSnapshot → ByteWriter → ByteWriter
write_header s w = write_u32 (to_unsigned (2 ^ 32) s.first_airport_vertex) (
    write_u32 (length s.msa % 2 ^ 32) (
      write_u32 (length s.airway_names % 2 ^ 32)
        (write_u32 (length s.edges % 2 ^ 32) (write_u32 (length s.coords % 2 ^ 32) w))))

-- The guards before the first write.
unfoldable pub arrays_agree : GraphSnapshot → Bool
arrays_agree s =
    let v = length s.coords in
    length s.offsets == v + 1
    && (length s.idents == v
        && (length s.has_outbound == v && (length s.has_inbound == v && length s.kinds == v)))

unfoldable pub airports_agree : GraphSnapshot → Bool
airports_agree s =
    let v = length s.coords in
    not (ltb_ℤ s.first_airport_vertex (pos 0))
    && (not (ltb v (pos_part s.first_airport_vertex))
        && length s.airport_elevations_ft == v - pos_part s.first_airport_vertex)

-- From the offsets on.
unfoldable pub encode_graph : GraphSnapshot → Out → Checked Out
unfolding write_offsets write_edges write_names write_i16s write_sectors
encode_graph s (w, pool) =
    require (eqb_ℤ (get_or s.offsets 0 (pos 0)) (pos 0)) Fault.offsets_must_start_at_zero (
      with_value (write_offsets (pos 0) s.offsets w) (λ w₁.
        require (eqb_ℤ (last_offset s.offsets) (to_signed (2 ^ 32) (length s.edges % 2 ^ 32)))
          Fault.offsets_must_end_at_edge_count
          (with_value (write_edges (length s.coords) (length s.airway_names) s.edges w₁) (λ w₂.
            let (w₃, pool') = write_names s.airway_names (w₂, pool) in
            Checked.good (write_sectors s.msa (write_i16s s.mora.cells w₃, pool'))))))

unfoldable pub encode : GraphSnapshot → ByteWriter → StringPool → Checked Out
unfolding write_header write_vertices write_i32s arrays_agree airports_agree encode_graph
encode s w pool = require (not (ltb 0xFFFF (length s.airway_names))) Fault.too_many_airway_names (
    require (arrays_agree s) Fault.inconsistent_array_sizes (
      require (airports_agree s) Fault.inconsistent_airport_array (
        with_value
          (write_vertices s.coords s.idents s.has_outbound s.has_inbound s.kinds
            (write_header s w, pool))
          (λ out. encode_graph s (write_i32s s.airport_elevations_ft out.0, out.1)))))
