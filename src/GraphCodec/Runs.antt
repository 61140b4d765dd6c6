-- ===== src/GraphCodec/Runs.antt =====
-- A graph section of two vertices and one edge, written and read again.
use bravo_finder.Prelude.{
  ℕ, ◌+◌, ◌*◌, ◌^◌, ◌<◌, ◌≡◌, refl, true, List, [], ◌∷◌, ◌++◌, replicate, length, length-append,
  length-replicate, Bytes, arith,
}
use bravo_finder.Prelude.Int.{pos, negsuc}
use bravo_finder.ByteIo.Writer.{ByteWriter}
use bravo_finder.ByteIo.Reader.{Endian}
use bravo_finder.ByteIo.Pool.{StringPool, no_strings}
use bravo_finder.FixedString.Ident.{FixedIdent}
use bravo_finder.MoraGrid.{lat_count, lon_count}
use bravo_finder.GraphCodec.{Position, EdgeRecord, MsaArc, MsaSector, GraphSnapshot, Checked}
use bravo_finder.GraphCodec.Encode.{Out, encode}
use bravo_finder.GraphCodec.Decode.{decode}
use bravo_finder.GraphCodec.Consistency.{IsConsistent, Accepts}
use bravo_finder.GraphCodec.Soundness.{decode-IsConsistent}
use bravo_finder.GraphCodec.Acceptance.{encode-IsConsistent}
use bravo_finder.GraphCodec.Searchable.{IsSearchable, decode-IsSearchable}
use bravo_finder.Graph.Runs.{whole, sorted_list, sorted_list-IsHeap, plain, at}

abbrev fix : ℕ → FixedIdent
fix c = record {
  ident = c ∷ 66 ∷ 0 ∷ 0 ∷ 0 ∷ 0 ∷ 0 ∷ [];
  arinc424_icao_code = 69 ∷ 68 ∷ 0 ∷ [];
  ident_len = 2;
  arinc424_icao_code_len = 2;
}

abbrev pair : GraphSnapshot
pair = record {
  first_airport_vertex = pos 1;
  coords = record { latitude = 7; longitude = 8 } ∷ record { latitude = 9; longitude = 10 } ∷ [];
  offsets = pos 0 ∷ pos 1 ∷ pos 1 ∷ [];
  edges =
      record {
        to = pos 1;
        distance_nm = 11;
        airway_id = 0;
        base_fl = pos 0;
        top_fl = pos 600;
        level = 2;
      }
      ∷ [];
  has_outbound = 1 ∷ 0 ∷ [];
  has_inbound = 0 ∷ 1 ∷ [];
  idents = fix 65 ∷ fix 67 ∷ [];
  kinds = 0 ∷ 1 ∷ [];
  airway_names = (68 ∷ 67 ∷ 84 ∷ []) ∷ [];
  mora = record { cells = []; populated = 0 };
  msa = [];
  airport_elevations_ft = negsuc 4 ∷ [];
}

abbrev written : Checked Out
written = encode pair (record { out = []; ok = true }) no_strings

-- The section of `pair` up to its altitude grid.
abbrev front : Bytes
front =
    2 ∷ 0 ∷ 0 ∷ 0 ∷ 1 ∷ 0 ∷ 0 ∷ 0 ∷ 1 ∷ 0 ∷ 0 ∷ 0 ∷ 0 ∷ 0 ∷ 0 ∷ 0 ∷ 1 ∷ 0 ∷ 0 ∷ 0 ∷ 7 ∷ 0 ∷ 0 ∷ 0
    ∷ 0 ∷ 0 ∷ 0 ∷ 0 ∷ 8 ∷ 0 ∷ 0 ∷ 0 ∷ 0 ∷ 0 ∷ 0 ∷ 0 ∷ 0 ∷ 0 ∷ 0 ∷ 0 ∷ 2 ∷ 0 ∷ 0 ∷ 0 ∷ 2 ∷ 0 ∷ 0 ∷ 0
    ∷ 2 ∷ 0 ∷ 0 ∷ 0 ∷ 1 ∷ 0 ∷ 9 ∷ 0 ∷ 0 ∷ 0 ∷ 0 ∷ 0 ∷ 0 ∷ 0 ∷ 10 ∷ 0 ∷ 0 ∷ 0 ∷ 0 ∷ 0 ∷ 0 ∷ 0 ∷ 4 ∷ 0
    ∷ 0 ∷ 0 ∷ 2 ∷ 0 ∷ 0 ∷ 0 ∷ 2 ∷ 0 ∷ 0 ∷ 0 ∷ 2 ∷ 0 ∷ 0 ∷ 0 ∷ 2 ∷ 1 ∷ 251 ∷ 255 ∷ 255 ∷ 255 ∷ 0 ∷ 0
    ∷ 0 ∷ 0 ∷ 1 ∷ 0 ∷ 0 ∷ 0 ∷ 1 ∷ 0 ∷ 0 ∷ 0 ∷ 1 ∷ 0 ∷ 0 ∷ 0 ∷ 11 ∷ 0 ∷ 0 ∷ 0 ∷ 0 ∷ 0 ∷ 0 ∷ 0 ∷ 88
    ∷ 2 ∷ 2 ∷ 6 ∷ 0 ∷ 0 ∷ 0 ∷ 3 ∷ 0 ∷ 0 ∷ 0 ∷ []

abbrev names : Bytes
names = 65 ∷ 66 ∷ 69 ∷ 68 ∷ 67 ∷ 66 ∷ 68 ∷ 67 ∷ 84 ∷ []

-- The whole section, with an empty grid.
abbrev section_bytes : Bytes
section_bytes = front ++ replicate (lat_count * lon_count * 2) 0

abbrev read_back : Checked GraphSnapshot
read_back = decode Endian.little section_bytes names

small : length section_bytes < 2 ^ 35
small = omega (
  arith,
  length-append front (replicate (lat_count * lon_count * 2) 0),
  length-replicate {A = ℕ} (lat_count * lon_count * 2) 0,
)

decode-IsConsistent_example : Accepts IsConsistent (decode Endian.little section_bytes names)
decode-IsConsistent_example = decode-IsConsistent Endian.little section_bytes names small

encode-IsConsistent_example :
    Accepts
      (λ (out : Out). IsConsistent pair)
      (encode pair (record { out = []; ok = true }) no_strings)
encode-IsConsistent_example =
    encode-IsConsistent pair (record { out = []; ok = true }) no_strings (omega arith)

decode-IsSearchable_example :
    Accepts
      (IsSearchable whole (λ n. pos n) (λ n. pos n) sorted_list (at 0 ∷ []) (at 1 ∷ []) plain)
      (decode Endian.little section_bytes names)
decode-IsSearchable_example =
    decode-IsSearchable whole (λ n. pos n) (λ n. pos n) sorted_list sorted_list-IsHeap Endian.little
      section_bytes names refl (at 0 ∷ []) (at 1 ∷ []) plain small

-- What is written up to the grid.
out_of : Checked Out → Bytes
out_of (Checked.good (w, pool)) = w.out
out_of (Checked.bad fault) = []

section_front : out_of written ≡ front
unfolding out_of bravo_finder.GraphCodec.is_graph_vertex_kind
    bravo_finder.GraphCodec.is_vertex_kind_byte bravo_finder.GraphCodec.require
    bravo_finder.GraphCodec.with_value bravo_finder.GraphCodec.edge_fault
    bravo_finder.GraphCodec.last_offset bravo_finder.GraphCodec.Encode.write_ref
    bravo_finder.GraphCodec.Encode.write_ident bravo_finder.GraphCodec.Encode.flags_of
    bravo_finder.GraphCodec.Encode.write_vertex bravo_finder.GraphCodec.Encode.write_vertices
    bravo_finder.GraphCodec.Encode.write_i32s bravo_finder.GraphCodec.Encode.write_i16s
    bravo_finder.GraphCodec.Encode.write_offsets bravo_finder.GraphCodec.Encode.write_edge
    bravo_finder.GraphCodec.Encode.write_edges bravo_finder.GraphCodec.Encode.write_names
    bravo_finder.GraphCodec.Encode.write_arcs bravo_finder.GraphCodec.Encode.write_sector
    bravo_finder.GraphCodec.Encode.write_sectors bravo_finder.GraphCodec.Encode.write_header
    bravo_finder.GraphCodec.Encode.arrays_agree bravo_finder.GraphCodec.Encode.airports_agree
    bravo_finder.GraphCodec.Encode.encode_graph bravo_finder.GraphCodec.Encode.encode
    bravo_finder.ByteIo.Writer.write_u8 bravo_finder.ByteIo.Writer.write_u16
    bravo_finder.ByteIo.Writer.write_bytes_of bravo_finder.ByteIo.Writer.write_u32
    bravo_finder.ByteIo.Writer.write_u64 bravo_finder.ByteIo.Writer.to_unsigned
    bravo_finder.ByteIo.Writer.write_i16 bravo_finder.ByteIo.Writer.write_i32
    bravo_finder.ByteIo.Writer.write_f32 bravo_finder.ByteIo.Writer.write_f64
    bravo_finder.ByteIo.Writer.write_bytes bravo_finder.ByteIo.Writer.write_str
    bravo_finder.ByteIo.Pool.find_ref bravo_finder.ByteIo.Pool.no_strings
    bravo_finder.ByteIo.Pool.intern bravo_finder.ByteIo.Pool.add
    bravo_finder.ByteIo.Reader.to_signed bravo_finder.FixedString.Ident.ident_view
    bravo_finder.FixedString.Ident.icao_code_view bravo_finder.Prelude.bytes_eq
section_front = refl

-- The section is accepted, and its edge comes back.
edges_of_good : Checked GraphSnapshot → List EdgeRecord
edges_of_good (Checked.good s) = s.edges
edges_of_good (Checked.bad fault) = []

read_edges : edges_of_good (decode Endian.little section_bytes names) ≡ pair.edges
unfolding edges_of_good bravo_finder.GraphCodec.is_graph_vertex_kind
    bravo_finder.GraphCodec.is_vertex_kind_byte bravo_finder.GraphCodec.require
    bravo_finder.GraphCodec.with_value bravo_finder.GraphCodec.edge_fault
    bravo_finder.GraphCodec.last_offset bravo_finder.GraphCodec.Decode.read_header
    bravo_finder.GraphCodec.Decode.airport_count bravo_finder.GraphCodec.Decode.count_fits
    bravo_finder.GraphCodec.Decode.counts_fit bravo_finder.GraphCodec.Decode.min_body_bytes
    bravo_finder.GraphCodec.Decode.read_list bravo_finder.GraphCodec.Decode.read_ref
    bravo_finder.GraphCodec.Decode.flag_set bravo_finder.GraphCodec.Decode.read_vertex
    bravo_finder.GraphCodec.Decode.read_edge bravo_finder.GraphCodec.Decode.read_arc
    bravo_finder.GraphCodec.Decode.or_zeros bravo_finder.GraphCodec.Decode.read_sectors
    bravo_finder.GraphCodec.Decode.read_arrays bravo_finder.GraphCodec.Decode.is_monotonic
    bravo_finder.GraphCodec.Decode.check_edges bravo_finder.GraphCodec.Decode.all_kinds
    bravo_finder.GraphCodec.Decode.require_none bravo_finder.GraphCodec.Decode.resolve_idents
    bravo_finder.GraphCodec.Decode.resolve_names bravo_finder.GraphCodec.Decode.resolve_sectors
    bravo_finder.GraphCodec.Decode.finish bravo_finder.GraphCodec.Decode.resolve_body
    bravo_finder.GraphCodec.Decode.check_body bravo_finder.GraphCodec.Decode.read_rest
    bravo_finder.GraphCodec.Decode.header_fits bravo_finder.GraphCodec.Decode.decode
    bravo_finder.ByteIo.Reader.start bravo_finder.ByteIo.Reader.past_end
    bravo_finder.ByteIo.Reader.remaining bravo_finder.ByteIo.Reader.read_u8
    bravo_finder.ByteIo.Reader.read_u16 bravo_finder.ByteIo.Reader.read_bytes_into
    bravo_finder.ByteIo.Reader.read_u32 bravo_finder.ByteIo.Reader.read_u64
    bravo_finder.ByteIo.Reader.to_signed bravo_finder.ByteIo.Reader.read_i16
    bravo_finder.ByteIo.Reader.read_i32 bravo_finder.ByteIo.Reader.read_f32
    bravo_finder.ByteIo.Reader.read_f64 bravo_finder.ByteIo.Reader.read_bytes
    bravo_finder.ByteIo.Reader.str_body bravo_finder.ByteIo.Reader.read_str
    bravo_finder.ByteIo.Reader.byte_swap16 bravo_finder.ByteIo.Reader.byte_swap32
    bravo_finder.ByteIo.Reader.load16 bravo_finder.ByteIo.Reader.load32
    bravo_finder.ByteIo.Reader.memcpy16 bravo_finder.ByteIo.Reader.memcpy32
    bravo_finder.ByteIo.Reader.swap_if_big bravo_finder.ByteIo.Reader.read_i16_span
    bravo_finder.ByteIo.Reader.read_i32_span bravo_finder.ByteIo.Reader.resolve_ref
    bravo_finder.FixedString.Ident.from_parts
read_edges = refl
