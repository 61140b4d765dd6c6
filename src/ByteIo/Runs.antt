-- ===== src/ByteIo/Runs.antt =====
-- The byte input and output of libs/engine/io/cache/byte_io.h at concrete inputs.
use bravo_finder.Prelude.{
  ◌+◌, ◌≤◌, ◌≡◌, refl, ◌↔◌, true, false, List, [], ◌∷◌, map, none, some, length, Bytes, arith,
}
use bravo_finder.Prelude.Int.{negsuc}
use bravo_finder.ByteIo.Writer.{ByteWriter}
use bravo_finder.ByteIo.Reader.{
  ByteReader, Endian, start, read_u8, read_bytes, remaining, read_i16, read_i32, read_i16_span,
  read_i32_span, resolve_ref,
}
use bravo_finder.ByteIo.Pool.{Ref, StringPool, no_strings, add}
use bravo_finder.ByteIo.Cursor.{Ready, start-Ready}
use bravo_finder.ByteIo.Sequences.{
  Field, Kind, kind_of, write_fields, read_fields, read_fields-write_fields,
}
use bravo_finder.ByteIo.Safety.{
  IsSane, Later, widen, read_fields-Later, read_fields-widen, read_fields-truncated,
}
use bravo_finder.ByteIo.Spans.{times, read_i16_span_lem, read_i32_span_lem}
use bravo_finder.ByteIo.Interning.{AddedAll, add_all, add_all-AddedAll, add-add, resolve_ref_bounds}
use bravo_finder.ByteIo.Failures.{read_u8-read_bytes_failed}

abbrev fresh : ByteWriter
fresh = record { out = []; ok = true }

-- A byte, a signed half word and a string.
abbrev header : List Field
header = Field.u8 7 ∷ Field.i16 (negsuc 1) ∷ Field.str (65 ∷ 66 ∷ []) ∷ []

abbrev header_bytes : Bytes
header_bytes = 7 ∷ 254 ∷ 255 ∷ 2 ∷ 0 ∷ 0 ∷ 0 ∷ 65 ∷ 66 ∷ []

write_header : (write_fields header fresh).out ≡ header_bytes
unfolding write_fields bravo_finder.ByteIo.Sequences.write_field
    bravo_finder.ByteIo.Writer.write_str bravo_finder.ByteIo.Writer.write_bytes
    bravo_finder.ByteIo.Writer.write_u32 bravo_finder.ByteIo.Writer.write_bytes_of
    bravo_finder.ByteIo.Writer.write_u8 bravo_finder.ByteIo.Writer.write_i16
    bravo_finder.ByteIo.Writer.write_u16 bravo_finder.ByteIo.Writer.to_unsigned
write_header = refl

read_fields-write_fields_example :
    let back = read_fields (map kind_of header) (start (write_fields header fresh).out) in
    (back.0 ≡ header)
    × (back.1.ok ≡ true)
    × (remaining back.1 ≡ 0)
    × ((write_fields header fresh).ok ≡ true)
unfolding write_fields bravo_finder.ByteIo.Sequences.write_field
    bravo_finder.ByteIo.Writer.write_str bravo_finder.ByteIo.Writer.write_bytes
    bravo_finder.ByteIo.Writer.write_u32 bravo_finder.ByteIo.Writer.write_bytes_of
    bravo_finder.ByteIo.Writer.write_u8 bravo_finder.ByteIo.Writer.write_i16
    bravo_finder.ByteIo.Writer.write_u16
read_fields-write_fields_example =
    read_fields-write_fields header fresh refl (omega arith, (omega arith, (omega arith, tt)))
      (omega arith)

abbrev reader : ByteReader
reader = start header_bytes

reader-IsSane : IsSane reader
unfolding start
reader-IsSane = record { inside = omega arith; small = omega arith }

read_fields-Later_example : Later reader (read_fields (Kind.u16 ∷ Kind.str ∷ []) reader).1
read_fields-Later_example = read_fields-Later (Kind.u16 ∷ Kind.str ∷ []) reader reader-IsSane

read_fields-widen_example :
    read_fields (Kind.u8 ∷ []) (widen reader (9 ∷ []))
    ≡ ((read_fields (Kind.u8 ∷ []) reader).0, widen (read_fields (Kind.u8 ∷ []) reader).1 (9 ∷ []))
unfolding start read_fields bravo_finder.ByteIo.Sequences.read_field read_u8
read_fields-widen_example =
    read_fields-widen (Kind.u8 ∷ []) reader (9 ∷ []) reader-IsSane (omega arith) refl

-- The last byte is cut off.
read_fields-truncated_example :
    (read_fields (map kind_of header) (start (7 ∷ 254 ∷ 255 ∷ 2 ∷ 0 ∷ 0 ∷ 0 ∷ 65 ∷ []))).1.ok
    ≡ false
unfolding write_fields bravo_finder.ByteIo.Sequences.write_field
    bravo_finder.ByteIo.Writer.write_str bravo_finder.ByteIo.Writer.write_bytes
    bravo_finder.ByteIo.Writer.write_u32 bravo_finder.ByteIo.Writer.write_bytes_of
    bravo_finder.ByteIo.Writer.write_u8 bravo_finder.ByteIo.Writer.write_i16
    bravo_finder.ByteIo.Writer.write_u16 bravo_finder.ByteIo.Writer.to_unsigned
read_fields-truncated_example =
    read_fields-truncated header fresh (7 ∷ 254 ∷ 255 ∷ 2 ∷ 0 ∷ 0 ∷ 0 ∷ 65 ∷ []) 66 [] refl
      (omega arith, (omega arith, (omega arith, tt))) (omega arith) refl

abbrev halves : Bytes
halves = 1 ∷ 0 ∷ 254 ∷ 255 ∷ 9 ∷ []

read_i16_span_example :
    ((read_i16_span Endian.big 2 (start halves)).0 ≡ some (times 2 read_i16 (start halves)).0)
    × Ready (read_i16_span Endian.big 2 (start halves)).1 (9 ∷ [])
    × Ready (times 2 read_i16 (start halves)).1 (9 ∷ [])
read_i16_span_example =
    read_i16_span_lem Endian.big 2 (start halves) (1 ∷ 0 ∷ 254 ∷ 255 ∷ []) (9 ∷ [])
      (start-Ready halves (omega arith))
      (omega arith, (omega arith, (omega arith, (omega arith, (omega arith, tt))))) refl

read_i32_span_example :
    ((read_i32_span Endian.little 1 (start halves)).0 ≡ some (times 1 read_i32 (start halves)).0)
    × Ready (read_i32_span Endian.little 1 (start halves)).1 (9 ∷ [])
    × Ready (times 1 read_i32 (start halves)).1 (9 ∷ [])
read_i32_span_example =
    read_i32_span_lem Endian.little 1 (start halves) (1 ∷ 0 ∷ 254 ∷ 255 ∷ []) (9 ∷ [])
      (start-Ready halves (omega arith))
      (omega arith, (omega arith, (omega arith, (omega arith, (omega arith, tt))))) refl

abbrev designators : List Bytes
designators = (74 ∷ 53 ∷ []) ∷ (81 ∷ []) ∷ (74 ∷ 53 ∷ []) ∷ []

-- The third string is the first, and takes no more bytes.
pool_shared : (add_all designators no_strings).1.blob ≡ 74 ∷ 53 ∷ 81 ∷ []
unfolding add_all add bravo_finder.ByteIo.Pool.find_ref no_strings
pool_shared = refl

add_all-AddedAll_example : AddedAll no_strings designators (add_all designators no_strings)
unfolding no_strings add_all add bravo_finder.ByteIo.Pool.find_ref
add_all-AddedAll_example = add_all-AddedAll designators no_strings tt (omega arith)

add-add_example : add (81 ∷ []) (add (81 ∷ []) no_strings).1 ≡ add (81 ∷ []) no_strings
add-add_example = add-add (81 ∷ []) no_strings

resolve_ref_bounds_example :
    (((resolve_ref (1 ∷ 2 ∷ 3 ∷ []) 1 2 true).1 ≡ true) ↔ (1 + 2 ≤ 3))
    × (((resolve_ref (1 ∷ 2 ∷ 3 ∷ []) 1 2 true).1 ≡ true)
        ↔ (length (resolve_ref (1 ∷ 2 ∷ 3 ∷ []) 1 2 true).0 ≡ 2) × (1 ≤ 3) × (2 ≤ 2))
resolve_ref_bounds_example = resolve_ref_bounds (1 ∷ 2 ∷ 3 ∷ []) 1 2

read_u8-read_bytes_failed_example :
    ((read_bytes 4 (start (5 ∷ 6 ∷ []))).0 ≡ none)
    × (read_u8 (read_bytes 4 (start (5 ∷ 6 ∷ []))).1
        ≡ (5, record { bytes = 5 ∷ 6 ∷ []; pos = 1; ok = false }))
unfolding start
read_u8-read_bytes_failed_example =
    read_u8-read_bytes_failed 4 (start (5 ∷ 6 ∷ []))
      (record { inside = omega arith; small = omega arith }) (omega arith) (omega arith)
      (omega arith)
