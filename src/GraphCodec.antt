-- ===== src/GraphCodec.antt =====
-- The graph section of a cache file: libs/engine/io/cache/graph_snapshot.h, and the record sizes and
-- checks that both directions of graph_codec.cc use. The bits of a float are a number, as in ByteIo,
-- and an enumeration is the byte that it is stored as.
pub mod Encode
pub mod Decode
pub mod Consistency
pub mod Records
pub mod Soundness
pub mod Acceptance
pub mod Searchable
pub mod Runs
use bravo_finder.Prelude.{
  ℕ, ◌+◌, ◌*◌, ◌%◌, ◌/◌, ◌^◌, Bool, true, false, not, ◌&&◌, ◌||◌, List, [], ◌∷◌, length, get_or,
  Option, none, some, ltb, leb, ◌==◌, bit_and, if◌then◌else◌, Bytes,
}
use bravo_finder.Prelude.Int.{ℤ, pos, pos_part, ltb_ℤ, eqb_ℤ}
use bravo_finder.FixedString.Ident.{Ident, FixedIdent}
use bravo_finder.MoraGrid.{MoraGrid}

pub record Position : Type 0 where
  pub latitude : ℕ
  pub longitude : ℕ

-- `GraphEdge` as it is before its vertex and its level are checked.
pub record EdgeRecord : Type 0 where
  pub to : ℤ
  pub distance_nm : ℕ
  pub airway_id : ℕ
  pub base_fl : ℤ
  pub top_fl : ℤ
  pub level : ℕ

pub record MsaArc : Type 0 where
  pub bearing_from : ℤ
  pub alt_100ft : ℤ
  pub radius_nm : ℤ

pub record MsaSector : Type 0 where
  pub center : Ident
  pub airport_icao : Bytes
  pub arcs : List MsaArc

pub record GraphSnapshot : Type 0 where
  pub first_airport_vertex : ℤ
  pub coords : List Position
  pub offsets : List ℤ
  pub edges : List EdgeRecord
  pub has_outbound : List ℕ
  pub has_inbound : List ℕ
  pub idents : List FixedIdent
  pub kinds : List ℕ
  pub airway_names : List Bytes
  pub mora : MoraGrid
  pub msa : List MsaSector
  pub airport_elevations_ft : List ℤ

abbrev pub flag_has_outbound : ℕ
flag_has_outbound = 1

abbrev pub flag_has_inbound : ℕ
flag_has_inbound = 2

-- `AirwayLevel::kBoth`, and the kinds of `WaypointKind` that the checks name.
abbrev pub level_both : ℕ
level_both = 2

abbrev pub kind_other : ℕ
kind_other = 4

abbrev pub kind_ils_dme : ℕ
kind_ils_dme = 5

unfoldable pub is_graph_vertex_kind : ℕ → Bool
is_graph_vertex_kind k = not (k == kind_other) && not (k == kind_ils_dme)

unfoldable pub is_vertex_kind_byte : ℕ → Bool
unfolding is_graph_vertex_kind
is_vertex_kind_byte b = leb b kind_ils_dme && is_graph_vertex_kind b

abbrev pub vertex_record_size : ℕ
vertex_record_size = 34

abbrev pub airport_record_size : ℕ
airport_record_size = 4

abbrev pub edge_record_size : ℕ
edge_record_size = 15

abbrev pub airway_ref_size : ℕ
airway_ref_size = 8

abbrev pub msa_header_size : ℕ
msa_header_size = 28

abbrev pub msa_arc_size : ℕ
msa_arc_size = 12

-- The messages of the errors. Their code is `kSerializationError` in Encode and `kCacheCorrupt` in
-- Decode.
pub data Fault : Type 0 where
  too_many_airway_names inconsistent_array_sizes inconsistent_airport_array : Fault
  vertex_kind_out_of_range offsets_must_start_at_zero offsets_must_not_decrease : Fault
  offsets_must_end_at_edge_count edge_target_out_of_range airway_index_out_of_range : Fault
  airway_level_out_of_range : Fault
  first_airport_vertex_out_of_range counts_exceed_section combined_counts_exceed_section : Fault
  bad_msa_section bad_graph_section trailing_bytes offsets_do_not_span offsets_not_monotonic : Fault
  reference_out_of_range : Fault
  -- The number of the vertex.
  invalid_vertex_ident : ℕ → Fault

pub data Checked (A : Type 0) : Type 0 where
  good : A → Checked A
  bad : Fault → Checked A

-- `if (!test) { return bad(fault); }` before the rest.
unfoldable pub require : {A : Type 0} → Bool → Fault → Checked A → Checked A
require true fault rest = rest
require false fault rest = bad fault

-- The rest of a function after a call or a loop that may return an error.
unfoldable pub with_value : {A B : Type 0} → Checked A → (A → Checked B) → Checked B
with_value (good a) rest = rest a
with_value (bad fault) rest = bad fault

-- `for (const GraphEdge& ed : edges)` with the three checks of an edge.
unfoldable pub edge_fault : ℕ → ℕ → EdgeRecord → Option Fault
edge_fault v airway_count ed =
    if ltb_ℤ ed.to (pos 0) || not (ltb (pos_part ed.to) v)
    then some edge_target_out_of_range
    else if not (ltb ed.airway_id airway_count)
    then some airway_index_out_of_range
    else if ltb level_both ed.level
    then some airway_level_out_of_range
    else none

-- `back()` of an array.
unfoldable pub last_offset : List ℤ → ℤ
last_offset [] = pos 0
last_offset (x ∷ []) = x
last_offset (x ∷ y ∷ xs) = last_offset (y ∷ xs)
