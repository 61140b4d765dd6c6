-- ===== src/GraphCodec/Soundness.antt =====
-- Whatever bytes a section has, what `GraphCodec::Decode` accepts is consistent; and so is what
-- `GraphCodec::Encode` writes.
use bravo_finder.Prelude.{
  ℕ, suc, ◌+◌, ◌^◌, ◌<◌, ◌≤◌, ◌≡◌, refl, sym, ap, subst, ◌∙◌, Bool, true, false, not, ◌&&◌, List,
  [], ◌∷◌, map, length, get_or, Option, none, some, All, ltb, ◌==◌, Bytes, arith,
}
use bravo_finder.Prelude.Int.{ℤ, pos, pos_part, ltb_ℤ, eqb_ℤ}
use bravo_finder.Result.{Result}
use bravo_finder.FixedString.Ident.{FixedIdent, from_parts}
use bravo_finder.ByteIo.Reader.{
  ByteReader, start, remaining, read_i32, read_i32_span, Endian, resolve_ref, to_signed,
}
use bravo_finder.ByteIo.Pool.{Ref}
use bravo_finder.ByteIo.Safety.{IsSane, Later-IsSane}
use bravo_finder.GraphCodec.{
  EdgeRecord, MsaSector, GraphSnapshot, is_vertex_kind_byte, Fault, Checked, require, with_value,
  edge_fault, last_offset,
}
use bravo_finder.GraphCodec.Decode.{
  Header, VertexRecord, Body, MsaRef, read_header, airport_count, counts_fit, count_fits,
  min_body_bytes, read_list, read_ref, read_edge, read_vertex, read_arrays, is_monotonic,
  check_edges, all_kinds, require_none, resolve_idents, resolve_names, resolve_sectors, snapshot_of,
  finish, resolve_body, check_body, read_sectors, read_rest, header_fits, decode,
}
use bravo_finder.GraphCodec.Consistency.{
  IsEdge, Ascending, IsConsistent, require-good, with_value-good, edge_fault-none,
  last_offset-count, is_zero, Accepts, accepts,
}
use bravo_finder.GraphCodec.Records.{
  length-map, read_header-IsSound, read_vertex-IsSound, read_i32-IsSound, read_list-IsSound,
  length-read_list, length-or_zeros,
}

require_none-good :
    {A : Type 0} (o : Option Fault) (rest : Checked A) (a : A)
    → require_none o rest ≡ Checked.good a
    → (o ≡ none) × (rest ≡ Checked.good a)
unfolding require_none
require_none-good none rest a e = (refl, e)
require_none-good (some fault) rest a e = cc

check_edges-All :
    (v airways : ℕ) (eds : List EdgeRecord)
    → check_edges v airways eds ≡ none
    → All (IsEdge v airways) eds
unfolding check_edges
check_edges-All v airways [] e = tt
check_edges-All v airways (ed ∷ eds) e =
    split (edge_fault v airways ed) refl e (check_edges-All v airways eds)
  where
    split :
        (o : Option Fault)
        → edge_fault v airways ed ≡ o
        → elim o [ none ↦ check_edges v airways eds | some fault ↦ some fault ] ≡ none
        → (check_edges v airways eds ≡ none → All (IsEdge v airways) eds)
        → All (IsEdge v airways) (ed ∷ eds)
    split none h k others = (edge_fault-none v airways ed h, others k)
    split (some fault) h k others = cc

all_kinds-All :
    (rs : List VertexRecord)
    → all_kinds rs ≡ true
    → All (λ k. is_vertex_kind_byte k ≡ true) (map (λ (r : VertexRecord). r.kind) rs)
unfolding all_kinds
all_kinds-All [] e = tt
all_kinds-All (r ∷ rs) e = (ground (arith, e), all_kinds-All rs (ground (arith, e)))

is_monotonic-Ascending : (x : ℤ) (xs : List ℤ) → is_monotonic (x ∷ xs) ≡ true → Ascending x xs
unfolding is_monotonic
is_monotonic-Ascending x [] e = tt
is_monotonic-Ascending x (y ∷ xs) e =
    (ground (arith, e), is_monotonic-Ascending y xs (ground (arith, e)))

from_zero :
    (xs : List ℤ)
    → eqb_ℤ (get_or xs 0 (pos 0)) (pos 0) ≡ true
    → is_monotonic xs ≡ true
    → Ascending (pos 0) xs
from_zero [] e h = tt
from_zero (x ∷ xs) e h = (ground (arith, e), is_monotonic-Ascending x xs h)

good-injective : {A : Type 0} (a b : A) → Checked.good a ≡ Checked.good b → a ≡ b
good-injective a b e = cc

-- The rest of the vertices after an identifier.
abbrev with_ident :
    ℕ → Checked (List FixedIdent × Bool) → Result FixedIdent → Checked (List FixedIdent × Bool)
with_ident i rest (Result.err x) = Checked.bad (Fault.invalid_vertex_ident i)
with_ident i rest (Result.ok fixed) = with_value rest (λ m. Checked.good (fixed ∷ m.0, m.1))

length-resolve_idents :
    (pool : Bytes) (i : ℕ) (vs : List VertexRecord) (refs_ok : Bool) (out : List FixedIdent × Bool)
    → resolve_idents pool i vs refs_ok ≡ Checked.good out
    → length out.0 ≡ length vs
unfolding resolve_idents
length-resolve_idents pool i [] refs_ok out e =
    ap (λ (p : List FixedIdent × Bool). length p.0) (sym (good-injective ([], refs_ok) out e))
length-resolve_idents pool i (v ∷ vs) refs_ok out e =
    let id = resolve_ref pool v.ident.offset v.ident.len refs_ok in
    let reg = resolve_ref pool v.region.offset v.region.len id.1 in
    split (from_parts id.0 reg.0) (resolve_idents pool (i + 1) vs reg.1) e
      (length-resolve_idents pool (i + 1) vs reg.1)
  where
    split :
        (r : Result FixedIdent) (rest : Checked (List FixedIdent × Bool))
        → with_ident i rest r ≡ Checked.good out
        → ((m : List FixedIdent × Bool) → rest ≡ Checked.good m → length m.0 ≡ length vs)
        → length out.0 ≡ suc (length vs)
    split (Result.err x) rest h others = cc
    split (Result.ok fixed) rest h others =
        let (m, came, now) = with_value-good rest (λ m. Checked.good (fixed ∷ m.0, m.1)) out h in
        ap (λ (p : List FixedIdent × Bool). length p.0)
          (sym (good-injective (fixed ∷ m.0, m.1) out now))
        ∙ ap suc (others m came)

length-resolve_names :
    (pool : Bytes) (rs : List Ref) (refs_ok : Bool)
    → length (resolve_names pool rs refs_ok).0 ≡ length rs
unfolding resolve_names
length-resolve_names pool [] refs_ok = refl
length-resolve_names pool (r ∷ rs) refs_ok = ap suc (length-resolve_names pool rs _)

-- What the reads before the checks have made sure of.
record IsRead (h : Header) (b : Body) : Type 0 where
  airports_start : ltb_ℤ h.first_airport_vertex (pos 0) ≡ false
  airports_inside : pos_part h.first_airport_vertex ≤ h.v
  vertices : length b.vertices ≡ h.v
  elevations : length b.elevations ≡ airport_count h
  offsets : length b.offsets ≡ h.v + 1
  edges : length b.edges ≡ h.e
  airways : length b.airways ≡ h.airway_count
  few_edges : h.e < 2 ^ 32

snapshot_of-IsConsistent :
    (h : Header) (b : Body) (idents : List FixedIdent) (names : List Bytes)
    (sectors : List MsaSector)
    → IsRead h b
    → length idents ≡ length b.vertices
    → length names ≡ length b.airways
    → All (λ k. is_vertex_kind_byte k ≡ true) (map (λ (r : VertexRecord). r.kind) b.vertices)
    → All (IsEdge h.v h.airway_count) b.edges
    → eqb_ℤ (get_or b.offsets 0 (pos 0)) (pos 0) ≡ true
    → eqb_ℤ (last_offset b.offsets) (to_signed (2 ^ 32) h.e) ≡ true
    → is_monotonic b.offsets ≡ true
    → IsConsistent (snapshot_of h b idents names sectors)
unfolding airport_count
snapshot_of-IsConsistent h b idents names sectors i ids airways kinds edges starts ends monotonic =
    let count = length-map (λ (r : VertexRecord). r.coord) b.vertices in
    let ascending = from_zero b.offsets starts monotonic in
    record {
      airports_start = i.airports_start;
      airports_inside = omega (arith, i.airports_inside, count, i.vertices);
      elevations = omega (arith, i.elevations, count, i.vertices);
      idents = ids ∙ sym count;
      outbound = length-map (λ (r : VertexRecord). r.outbound) b.vertices ∙ sym count;
      inbound = length-map (λ (r : VertexRecord). r.inbound) b.vertices ∙ sym count;
      kinds = length-map (λ (r : VertexRecord). r.kind) b.vertices ∙ sym count;
      vertex_kinds = kinds;
      offsets = omega (arith, i.offsets, count, i.vertices);
      starts = is_zero (get_or b.offsets 0 (pos 0)) starts;
      ascending = ascending;
      ends = last_offset-count b.offsets h.e i.few_edges ascending ends ∙ ap pos (sym i.edges);
      edges =
          subst (λ m. All (IsEdge m (length names)) b.edges) (sym (count ∙ i.vertices))
            (subst (λ m. All (IsEdge h.v m) b.edges) (sym (airways ∙ i.airways)) edges);
    }

check_body-IsConsistent :
    (pool : Bytes) (h : Header) (b : Body) (s : GraphSnapshot)
    → IsRead h b
    → check_body pool h b ≡ Checked.good s
    → IsConsistent s
unfolding check_body resolve_body finish
check_body-IsConsistent pool h b s i e =
    let spanned =
      eqb_ℤ (get_or b.offsets 0 (pos 0)) (pos 0)
      && eqb_ℤ (last_offset b.offsets) (to_signed (2 ^ 32) h.e) in
    let kinds_left =
      require (all_kinds b.vertices) Fault.vertex_kind_out_of_range (resolve_body pool h b) in
    let edges_left = require_none (check_edges h.v h.airway_count b.edges) kinds_left in
    let (spans, e₁) =
      require-good spanned Fault.offsets_do_not_span
        (require (is_monotonic b.offsets) Fault.offsets_not_monotonic edges_left) s e in
    let (monotonic, e₂) =
      require-good (is_monotonic b.offsets) Fault.offsets_not_monotonic edges_left s e₁ in
    let (edges, e₃) = require_none-good (check_edges h.v h.airway_count b.edges) kinds_left s e₂ in
    let (kinds, e₄) =
      require-good (all_kinds b.vertices) Fault.vertex_kind_out_of_range (resolve_body pool h b) s
        e₃ in
    let (ids, resolved, e₅) =
      with_value-good (resolve_idents pool 0 b.vertices true) (finish pool h b) s e₄ in
    let names = resolve_names pool b.airways ids.1 in
    let sectors = resolve_sectors pool b.sectors names.1 in
    let (refs, e₆) =
      require-good sectors.1 Fault.reference_out_of_range
        (Checked.good (snapshot_of h b ids.0 names.0 sectors.0)) s e₅ in
    let consistent =
      snapshot_of-IsConsistent h b ids.0 names.0 sectors.0 i
        (length-resolve_idents pool 0 b.vertices true ids resolved)
        (length-resolve_names pool b.airways ids.1) (all_kinds-All b.vertices kinds)
        (check_edges-All h.v h.airway_count b.edges edges) (ground (arith, spans))
        (ground (arith, spans)) monotonic in
    subst IsConsistent (good-injective (snapshot_of h b ids.0 names.0 sectors.0) s e₆) consistent

-- A header that passes its checks, and the reader behind it.
read_arrays-IsRead :
    (endian : Endian) (h : Header) (r : ByteReader) (sectors : List MsaRef)
    → IsSane r
    → ltb_ℤ h.first_airport_vertex (pos 0) ≡ false
    → pos_part h.first_airport_vertex ≤ h.v
    → h.v < 2 ^ 59
    → h.e < 2 ^ 32
    → IsRead h (record (read_arrays endian h r).0 { sectors = sectors })
unfolding read_arrays
read_arrays-IsRead endian h r sectors sane start inside few small =
    let after_vertices =
      Later-IsSane sane ((read_list-IsSound read_vertex h.v read_vertex-IsSound).later r sane) in
    let r₁ = (read_list h.v read_vertex r).1 in
    let after_airports =
      Later-IsSane after_vertices
        ((read_list-IsSound read_i32 (airport_count h) read_i32-IsSound).later r₁ after_vertices) in
    let r₂ = (read_list (airport_count h) read_i32 r₁).1 in
    let r₃ = (read_i32_span endian (h.v + 1) r₂).1 in
    record {
      airports_start = start;
      airports_inside = inside;
      vertices = length-read_list read_vertex h.v r;
      elevations = length-read_list read_i32 (airport_count h) r₁;
      offsets = length-or_zeros endian (h.v + 1) r₂ after_airports (omega (arith, few));
      edges = length-read_list read_edge h.e r₃;
      airways = length-read_list read_ref h.airway_count (read_list h.e read_edge r₃).1;
      few_edges = small;
    }

remaining-le : (r : ByteReader) → remaining r ≤ length r.bytes
unfolding remaining
remaining-le r = ground arith

-- Counts that fit a section of less than 32 GiB.
counts_fit-small :
    (avail : ℕ) (h : Header)
    → avail < 2 ^ 35
    → counts_fit avail h ≡ true
    → (h.v < 2 ^ 59) × (h.e < 2 ^ 32)
unfolding counts_fit count_fits
counts_fit-small avail h small fits = (ground (arith, small, fits), ground (arith, small, fits))

read_rest-IsConsistent :
    (pool : Bytes) (h : Header) (b : Body) (r : ByteReader) (s : GraphSnapshot)
    → ((sectors : List MsaRef) → IsRead h (record b { sectors = sectors }))
    → read_rest pool h (b, r) ≡ Checked.good s
    → IsConsistent s
unfolding read_rest
read_rest-IsConsistent pool h b r s i e =
    let sectors_read = read_sectors h.msa_count r in
    let checked =
      λ (out : List MsaRef × ByteReader). check_body pool h (record b { sectors = out.0 }) in
    let at_end = λ (out : List MsaRef × ByteReader).
      require (remaining out.1 == 0) Fault.trailing_bytes (checked out) in
    let (out, came, e₁) =
      with_value-good sectors_read
        (λ (out : List MsaRef × ByteReader). require out.1.ok Fault.bad_graph_section (at_end out))
        s e in
    let (sound, e₂) = require-good out.1.ok Fault.bad_graph_section (at_end out) s e₁ in
    let (used, e₃) = require-good (remaining out.1 == 0) Fault.trailing_bytes (checked out) s e₂ in
    check_body-IsConsistent pool h (record b { sectors = out.0 }) s (i out.0) e₃

pub good-IsConsistent :
    (endian : Endian) (body pool : Bytes) (s : GraphSnapshot)
    → length body < 2 ^ 35
    → decode endian body pool ≡ Checked.good s
    → IsConsistent s
unfolding decode header_fits
good-IsConsistent endian body pool s small e =
    let h = (read_header (start body)).0 in
    let r = (read_header (start body)).1 in
    let sane : IsSane (start body) =
      unfold start in record { inside = omega arith; small = omega (arith, small) } in
    let late = read_header-IsSound.later (start body) sane in
    let same : r.bytes ≡ body = late.same ∙ (unfold start in refl) in
    let placed =
      r.ok
      && (not (ltb_ℤ h.first_airport_vertex (pos 0))
          && not (ltb h.v (pos_part h.first_airport_vertex))) in
    let rest = read_rest pool h (read_arrays endian h r) in
    let room =
      require (not (ltb (remaining r) (min_body_bytes h))) Fault.combined_counts_exceed_section
        rest in
    let (first, e₁) =
      require-good placed Fault.first_airport_vertex_out_of_range
        (require (counts_fit (remaining r) h) Fault.counts_exceed_section room) s e in
    let (fits, e₂) =
      require-good (counts_fit (remaining r) h) Fault.counts_exceed_section room s e₁ in
    let (enough, e₃) =
      require-good (not (ltb (remaining r) (min_body_bytes h))) Fault.combined_counts_exceed_section
        rest s e₂ in
    let avail : remaining r < 2 ^ 35 = omega (arith, remaining-le r, ap length same, small) in
    let (vertices, edges) = counts_fit-small (remaining r) h avail fits in
    read_rest-IsConsistent pool h (read_arrays endian h r).0 (read_arrays endian h r).1 s
      (λ sectors.
        read_arrays-IsRead endian h r sectors (Later-IsSane sane late) (ground (arith, first))
          (ground (arith, first)) vertices edges)
      e₃

-- Whatever the bytes of a section of less than 32 GiB and of the pool are, and on hosts of either byte
-- order, decoding gives an error or a consistent snapshot: its arrays have the sizes that the number
-- of vertices gives them, its offsets ascend from 0 to the number of edges, each edge ends at a
-- vertex, has an airway name and one of the levels, and each vertex has a kind that the graph may
-- hold.
pub decode-IsConsistent :
    (endian : Endian) (body pool : Bytes)
    → length body < 2 ^ 35
    → Accepts IsConsistent (decode endian body pool)
decode-IsConsistent endian body pool small =
    accepts IsConsistent (decode endian body pool)
      (λ s e. good-IsConsistent endian body pool s small e)
