-- ===== src/GraphCodec/Decode.antt =====
-- `GraphCodec::Decode` of libs/engine/io/cache/graph_codec.cc, on hosts of either byte order.
use bravo_finder.Prelude.{
  ℕ, zero, suc, ◌+◌, ◌-◌, ◌*◌, ◌/◌, ◌%◌, ◌^◌, Bool, true, false, not, ◌&&◌, List, [], ◌∷◌, map,
  get_or, replicate, Option, none, some, ltb, leb, ◌==◌, bit_and, if◌then◌else◌, Bytes,
}
use bravo_finder.Prelude.Int.{ℤ, pos, pos_part, ltb_ℤ, eqb_ℤ}
use bravo_finder.Result.{Result}
use bravo_finder.FixedString.Ident.{FixedIdent, from_parts}
use bravo_finder.MoraGrid.{from_cells, lat_count, lon_count}
use bravo_finder.ByteIo.Reader.{
  ByteReader, Read, ◌>>=◌, give, start, remaining, read_u8, read_u16, read_u32, read_i16, read_i32,
  read_f32, read_f64, read_i16_span, read_i32_span, to_signed, Endian, resolve_ref,
}
use bravo_finder.ByteIo.Pool.{Ref}
use bravo_finder.GraphCodec.{
  Position, EdgeRecord, MsaArc, MsaSector, GraphSnapshot, flag_has_outbound, flag_has_inbound,
  is_vertex_kind_byte, Fault, Checked, require, with_value, edge_fault, last_offset,
  vertex_record_size, airport_record_size, edge_record_size, airway_ref_size, msa_header_size,
  msa_arc_size,
}

pub record Header : Type 0 where
  pub v : ℕ
  pub e : ℕ
  pub airway_count : ℕ
  pub msa_count : ℕ
  pub first_airport_vertex : ℤ

unfoldable pub read_header : Read Header
read_header = do
  v ← read_u32
  e ← read_u32
  airway_count ← read_u32
  msa_count ← read_u32
  first ← read_u32
  give (record {
    v = v;
    e = e;
    airway_count = airway_count;
    msa_count = msa_count;
    first_airport_vertex = to_signed (2 ^ 32) first;
  })

unfoldable pub airport_count : Header → ℕ
airport_count h = h.v - pos_part h.first_airport_vertex

unfoldable pub count_fits : ℕ → ℕ → ℕ → Bool
count_fits avail count zero = false
count_fits avail count (suc per_elem) = leb count (avail / suc per_elem)

unfoldable pub counts_fit : ℕ → Header → Bool
unfolding count_fits airport_count
counts_fit avail h =
    count_fits avail h.v vertex_record_size
    && (count_fits avail (airport_count h) airport_record_size
        && (count_fits avail h.e edge_record_size
            && (count_fits avail h.airway_count airway_ref_size
                && count_fits avail h.msa_count msa_header_size)))

unfoldable pub min_body_bytes : Header → ℕ
unfolding airport_count
min_body_bytes h =
    (h.v * vertex_record_size
      + airport_count h * airport_record_size
      + h.e * edge_record_size
      + h.airway_count * airway_ref_size
      + h.msa_count * msa_header_size
      + (h.v + 1) % 2 ^ 32 * 4
      + lat_count * lon_count * 2)
    % 2 ^ 64

-- `for (uint32_t i = 0; i < n; ++i)` with one read of `m` each.
unfoldable pub read_list : {A : Type 0} → ℕ → Read A → Read (List A)
read_list zero m = give []
read_list (suc n) m = do x ← m; xs ← read_list n m; give (x ∷ xs)

unfoldable pub read_ref : Read Ref
read_ref = do o ← read_u32; l ← read_u32; give (record { offset = o; len = l })

pub record VertexRecord : Type 0 where
  pub coord : Position
  pub ident : Ref
  pub region : Ref
  pub outbound : ℕ
  pub inbound : ℕ
  pub kind : ℕ

unfoldable pub flag_set : ℕ → ℕ → ℕ
flag_set flags flag = if bit_and flags flag == 0 then 0 else 1

unfoldable pub read_vertex : Read VertexRecord
unfolding read_ref flag_set
read_vertex = do
  latitude ← read_f64
  longitude ← read_f64
  ident ← read_ref
  region ← read_ref
  flags ← read_u8
  kind ← read_u8
  give (record {
    coord = record { latitude = latitude; longitude = longitude };
    ident = ident;
    region = region;
    outbound = flag_set flags flag_has_outbound;
    inbound = flag_set flags flag_has_inbound;
    kind = kind;
  })

unfoldable pub read_edge : Read EdgeRecord
read_edge = do
  to ← read_i32
  distance_nm ← read_f32
  airway_id ← read_u16
  base_fl ← read_i16
  top_fl ← read_i16
  level ← read_u8
  give (record {
    to = to;
    distance_nm = distance_nm;
    airway_id = airway_id;
    base_fl = base_fl;
    top_fl = top_fl;
    level = level;
  })

unfoldable pub read_arc : Read MsaArc
read_arc = do
  bearing_from ← read_i32
  alt_100ft ← read_i32
  radius_nm ← read_i32
  give (record { bearing_from = bearing_from; alt_100ft = alt_100ft; radius_nm = radius_nm })

-- A bulk read into an array of `n` zeros.
unfoldable pub or_zeros : ℕ → Option (List ℤ) → List ℤ
or_zeros n none = replicate n (pos 0)
or_zeros n (some xs) = xs

pub record MsaRef : Type 0 where
  pub center : Ref
  pub region : Ref
  pub airport : Ref
  pub arcs : List MsaArc

-- The loop over the sectors, with its return when the arcs cannot fit.
unfoldable pub read_sectors : ℕ → ByteReader → Checked (List MsaRef × ByteReader)
unfolding read_ref read_arc read_list
read_sectors zero r = Checked.good ([], r)
read_sectors (suc n) r =
    let (center, r₁) = read_ref r in
    let (region, r₂) = read_ref r₁ in
    let (airport, r₃) = read_ref r₂ in
    let (arc_count, r₄) = read_u32 r₃ in
    let (arcs, r₅) = read_list arc_count read_arc r₄ in
    require (r₄.ok && leb arc_count (remaining r₄ / msa_arc_size)) Fault.bad_msa_section (
      with_value (read_sectors n r₅) (λ rest. Checked.good (
        record { center = center; region = region; airport = airport; arcs = arcs } ∷ rest.0,
        rest.1,
      )))

-- What the section holds before the checks of its values.
pub record Body : Type 0 where
  pub vertices : List VertexRecord
  pub elevations : List ℤ
  pub offsets : List ℤ
  pub edges : List EdgeRecord
  pub airways : List Ref
  pub cells : List ℤ
  pub sectors : List MsaRef

-- The arrays up to the altitude grid.
unfoldable pub read_arrays : Endian → Header → Read Body
unfolding airport_count read_vertex read_edge read_ref read_list or_zeros
read_arrays endian h = do
  vertices ← read_list h.v read_vertex
  elevations ← read_list (airport_count h) read_i32
  offsets ← read_i32_span endian (h.v + 1)
  edges ← read_list h.e read_edge
  airways ← read_list h.airway_count read_ref
  cells ← read_i16_span endian (lat_count * lon_count)
  give (record {
    vertices = vertices;
    elevations = elevations;
    offsets = or_zeros (h.v + 1) offsets;
    edges = edges;
    airways = airways;
    cells = or_zeros (lat_count * lon_count) cells;
    sectors = [];
  })

unfoldable pub is_monotonic : List ℤ → Bool
is_monotonic [] = true
is_monotonic (x ∷ []) = true
is_monotonic (x ∷ y ∷ xs) = not (ltb_ℤ y x) && is_monotonic (y ∷ xs)

unfoldable pub check_edges : ℕ → ℕ → List EdgeRecord → Option Fault
unfolding edge_fault
check_edges v airway_count [] = none
check_edges v airway_count (ed ∷ eds) =
    let rest = check_edges v airway_count eds in
    elim (edge_fault v airway_count ed) [ none ↦ rest | some fault ↦ some fault ]

unfoldable pub all_kinds : List VertexRecord → Bool
unfolding is_vertex_kind_byte
all_kinds [] = true
all_kinds (r ∷ rs) = is_vertex_kind_byte r.kind && all_kinds rs

unfoldable pub require_none : {A : Type 0} → Option Fault → Checked A → Checked A
require_none none rest = rest
require_none (some fault) rest = Checked.bad fault

-- The identifiers of the vertices from number `i` on, and the flag of the references.
unfoldable pub resolve_idents :
    Bytes → ℕ → List VertexRecord → Bool → Checked (List FixedIdent × Bool)
resolve_idents pool i [] refs_ok = Checked.good ([], refs_ok)
resolve_idents pool i (v ∷ vs) refs_ok =
    let (id, ok₁) = resolve_ref pool v.ident.offset v.ident.len refs_ok in
    let (reg, ok₂) = resolve_ref pool v.region.offset v.region.len ok₁ in
    let rest = resolve_idents pool (i + 1) vs ok₂ in
    elim (from_parts id reg) [
      | Result.err e ↦ Checked.bad (Fault.invalid_vertex_ident i)
      | Result.ok fixed ↦ with_value rest (λ more. Checked.good (fixed ∷ more.0, more.1))
    ]

unfoldable pub resolve_names : Bytes → List Ref → Bool → List Bytes × Bool
resolve_names pool [] refs_ok = ([], refs_ok)
resolve_names pool (r ∷ rs) refs_ok =
    let (name, ok₁) = resolve_ref pool r.offset r.len refs_ok in
    let (names, ok₂) = resolve_names pool rs ok₁ in (name ∷ names, ok₂)

unfoldable pub resolve_sectors : Bytes → List MsaRef → Bool → List MsaSector × Bool
resolve_sectors pool [] refs_ok = ([], refs_ok)
resolve_sectors pool (m ∷ ms) refs_ok =
    let (center, ok₁) = resolve_ref pool m.center.offset m.center.len refs_ok in
    let (region, ok₂) = resolve_ref pool m.region.offset m.region.len ok₁ in
    let (airport, ok₃) = resolve_ref pool m.airport.offset m.airport.len ok₂ in
    let (sectors, ok₄) = resolve_sectors pool ms ok₃ in
    (
      record {
        center = record { ident = center; arinc424_icao_code = region };
        airport_icao = airport;
        arcs = m.arcs;
      }
          ∷ sectors,
      ok₄,
    )

abbrev pub snapshot_of :
    Header → Body → List FixedIdent → List Bytes → List MsaSector → GraphSnapshot
snapshot_of h b idents names sectors = record {
  first_airport_vertex = h.first_airport_vertex;
  coords = map (λ (r : VertexRecord). r.coord) b.vertices;
  offsets = b.offsets;
  edges = b.edges;
  has_outbound = map (λ (r : VertexRecord). r.outbound) b.vertices;
  has_inbound = map (λ (r : VertexRecord). r.inbound) b.vertices;
  idents = idents;
  kinds = map (λ (r : VertexRecord). r.kind) b.vertices;
  airway_names = names;
  mora = from_cells b.cells;
  msa = sectors;
  airport_elevations_ft = b.elevations;
}

-- The references after those of the vertices, and the snapshot.
unfoldable pub finish : Bytes → Header → Body → List FixedIdent × Bool → Checked GraphSnapshot
unfolding resolve_names resolve_sectors
finish pool h b (idents, refs_ok) =
    let (names, ok₁) = resolve_names pool b.airways refs_ok in
    let (sectors, ok₂) = resolve_sectors pool b.sectors ok₁ in
    require ok₂ Fault.reference_out_of_range (Checked.good (snapshot_of h b idents names sectors))

unfoldable pub resolve_body : Bytes → Header → Body → Checked GraphSnapshot
unfolding resolve_idents finish
resolve_body pool h b = with_value (resolve_idents pool 0 b.vertices true) (finish pool h b)

-- The checks of the values.
unfoldable pub check_body : Bytes → Header → Body → Checked GraphSnapshot
unfolding is_monotonic check_edges all_kinds require_none resolve_body
check_body pool h b =
    require
      (eqb_ℤ (get_or b.offsets 0 (pos 0)) (pos 0)
        && eqb_ℤ (last_offset b.offsets) (to_signed (2 ^ 32) h.e))
      Fault.offsets_do_not_span
      (require (is_monotonic b.offsets) Fault.offsets_not_monotonic (
        require_none (check_edges h.v h.airway_count b.edges)
          (require (all_kinds b.vertices) Fault.vertex_kind_out_of_range (resolve_body pool h b))))

-- The sectors after the arrays, and the end of the section.
unfoldable pub read_rest : Bytes → Header → Body × ByteReader → Checked GraphSnapshot
unfolding read_sectors check_body
read_rest pool h (b, r) = with_value (read_sectors h.msa_count r) (λ sectors.
    require sectors.1.ok Fault.bad_graph_section (
      require (remaining sectors.1 == 0) Fault.trailing_bytes
        (check_body pool h (record b { sectors = sectors.0 }))))

-- The check of the counts against the `avail` bytes that are left.
unfoldable pub header_fits : ℕ → Header → Checked GraphSnapshot → Checked GraphSnapshot
unfolding counts_fit min_body_bytes
header_fits avail h rest =
    require (counts_fit avail h) Fault.counts_exceed_section
      (require (not (ltb avail (min_body_bytes h))) Fault.combined_counts_exceed_section rest)

unfoldable pub decode : Endian → Bytes → Bytes → Checked GraphSnapshot
unfolding read_header header_fits read_arrays read_rest
decode endian body pool =
    let (h, r) = read_header (start body) in
    require
      (r.ok
        && (not (ltb_ℤ h.first_airport_vertex (pos 0))
            && not (ltb h.v (pos_part h.first_airport_vertex))))
      Fault.first_airport_vertex_out_of_range
      (header_fits (remaining r) h (read_rest pool h (read_arrays endian h r)))
