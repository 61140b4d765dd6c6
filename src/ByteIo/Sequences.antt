-- ===== src/ByteIo/Sequences.antt =====
-- The section codecs call the writer field by field, and the reader in the same order. A record's
-- fields as a list, the calls it makes of each side, and the law that covers every such pair.
use mathlib.Core.List.{append-nil}
use bravo_finder.Prelude.{
  ℕ, ◌^◌, ◌<◌, ◌≡◌, refl, sym, ap, ◌∙◌, subst, true, List, [], ◌∷◌, ◌++◌, map, length, All, Bytes,
  arith,
}
use bravo_finder.Prelude.Int.{ℤ}
use bravo_finder.ByteIo.Writer.{
  ByteWriter, write_u8, write_u16, write_u32, write_u64, to_unsigned, write_i16, write_i32,
  write_f32, write_f64, write_str,
}
use bravo_finder.ByteIo.Reader.{
  Read, ◌>>=◌, give, start, remaining, read_u8, read_u16, read_u32, read_u64, read_i16, read_i32,
  read_f32, read_f64, read_str,
}
use bravo_finder.ByteIo.Cursor.{
  Ready, Reads, Writes, Writes-nil, Writes-then, write_u8-Writes, start-Ready, Reads-give,
  Reads-bind, Reads-map, read_u8-Reads,
}
use bravo_finder.ByteIo.RoundTrip.{
  le_bytes, IsSigned, write_u16-Writes, read_u16-Reads, write_u32-Writes, read_u32-Reads,
  write_u64-Writes, read_u64-Reads, write_i16-Writes, read_i16-Reads, write_i32-Writes,
  read_i32-Reads, write_str-Writes, read_str-Reads,
}

pub data Field : Type 0 where
  u8 u16 u32 u64 f32 f64 : ℕ → Field
  i16 i32 : ℤ → Field
  str : Bytes → Field

pub data Kind : Type 0 where
  u8 u16 u32 u64 f32 f64 i16 i32 str : Kind

abbrev pub kind_of : Field → Kind
kind_of (Field.u8 v) = Kind.u8
kind_of (Field.u16 v) = Kind.u16
kind_of (Field.u32 v) = Kind.u32
kind_of (Field.u64 v) = Kind.u64
kind_of (Field.f32 v) = Kind.f32
kind_of (Field.f64 v) = Kind.f64
kind_of (Field.i16 v) = Kind.i16
kind_of (Field.i32 v) = Kind.i32
kind_of (Field.str s) = Kind.str

-- The values that the field's C++ type has.
abbrev pub Fits : Field → Type 0
Fits (Field.u8 v) = v < 2 ^ 8
Fits (Field.u16 v) = v < 2 ^ 16
Fits (Field.u32 v) = v < 2 ^ 32
Fits (Field.u64 v) = v < 2 ^ 64
Fits (Field.f32 v) = v < 2 ^ 32
Fits (Field.f64 v) = v < 2 ^ 64
Fits (Field.i16 v) = IsSigned (2 ^ 15) v
Fits (Field.i32 v) = IsSigned (2 ^ 31) v
Fits (Field.str s) = length s < 2 ^ 32

unfoldable pub write_field : Field → ByteWriter → ByteWriter
write_field (Field.u8 v) = write_u8 v
write_field (Field.u16 v) = write_u16 v
write_field (Field.u32 v) = write_u32 v
write_field (Field.u64 v) = write_u64 v
write_field (Field.f32 v) = write_f32 v
write_field (Field.f64 v) = write_f64 v
write_field (Field.i16 v) = write_i16 v
write_field (Field.i32 v) = write_i32 v
write_field (Field.str s) = write_str s

unfoldable pub read_field : Kind → Read Field
read_field Kind.u8 = read_u8 >>= (λ v. give (Field.u8 v))
read_field Kind.u16 = read_u16 >>= (λ v. give (Field.u16 v))
read_field Kind.u32 = read_u32 >>= (λ v. give (Field.u32 v))
read_field Kind.u64 = read_u64 >>= (λ v. give (Field.u64 v))
read_field Kind.f32 = read_f32 >>= (λ v. give (Field.f32 v))
read_field Kind.f64 = read_f64 >>= (λ v. give (Field.f64 v))
read_field Kind.i16 = read_i16 >>= (λ v. give (Field.i16 v))
read_field Kind.i32 = read_i32 >>= (λ v. give (Field.i32 v))
read_field Kind.str = read_str >>= (λ s. give (Field.str s))

unfoldable pub write_fields : List Field → ByteWriter → ByteWriter
write_fields [] w = w
write_fields (f ∷ fs) w = write_fields fs (write_field f w)

unfoldable pub read_fields : List Kind → Read (List Field)
read_fields [] = give []
read_fields (k ∷ ks) = do f ← read_field k; fs ← read_fields ks; give (f ∷ fs)

-- The bytes of a field.
encode : Field → Bytes
encode (Field.u8 v) = v ∷ []
encode (Field.u16 v) = le_bytes 2 0 v
encode (Field.u32 v) = le_bytes 4 0 v
encode (Field.u64 v) = le_bytes 8 0 v
encode (Field.f32 v) = le_bytes 4 0 v
encode (Field.f64 v) = le_bytes 8 0 v
encode (Field.i16 v) = le_bytes 2 0 (to_unsigned (2 ^ 16) v)
encode (Field.i32 v) = le_bytes 4 0 (to_unsigned (2 ^ 32) v)
encode (Field.str s) = le_bytes 4 0 (length s) ++ s

pub encode_all : List Field → Bytes
encode_all [] = []
encode_all (f ∷ fs) = encode f ++ encode_all fs

write_field-Writes : (f : Field) → Fits f → Writes (write_field f) (encode f)
unfolding write_field encode write_f32 write_f64
write_field-Writes (Field.u8 v) h = write_u8-Writes v
write_field-Writes (Field.u16 v) h = write_u16-Writes v
write_field-Writes (Field.u32 v) h = write_u32-Writes v
write_field-Writes (Field.u64 v) h = write_u64-Writes v
write_field-Writes (Field.f32 v) h = write_u32-Writes v
write_field-Writes (Field.f64 v) h = write_u64-Writes v
write_field-Writes (Field.i16 v) h = write_i16-Writes v
write_field-Writes (Field.i32 v) h = write_i32-Writes v
write_field-Writes (Field.str s) h = write_str-Writes s h

read_field-Reads : (f : Field) → Fits f → Reads (read_field (kind_of f)) f (encode f)
unfolding read_field encode read_f32 read_f64
read_field-Reads (Field.u8 v) h =
    Reads-map _ Field.u8 v _ (encode (Field.u8 v)) (read_u8-Reads v) refl
read_field-Reads (Field.u16 v) h =
    Reads-map _ Field.u16 v _ (encode (Field.u16 v)) (read_u16-Reads v h) refl
read_field-Reads (Field.u32 v) h =
    Reads-map _ Field.u32 v _ (encode (Field.u32 v)) (read_u32-Reads v h) refl
read_field-Reads (Field.u64 v) h =
    Reads-map _ Field.u64 v _ (encode (Field.u64 v)) (read_u64-Reads v h) refl
read_field-Reads (Field.f32 v) h =
    Reads-map _ Field.f32 v _ (encode (Field.f32 v)) (read_u32-Reads v h) refl
read_field-Reads (Field.f64 v) h =
    Reads-map _ Field.f64 v _ (encode (Field.f64 v)) (read_u64-Reads v h) refl
read_field-Reads (Field.i16 v) h =
    Reads-map _ Field.i16 v _ (encode (Field.i16 v)) (read_i16-Reads v h) refl
read_field-Reads (Field.i32 v) h =
    Reads-map _ Field.i32 v _ (encode (Field.i32 v)) (read_i32-Reads v h) refl
read_field-Reads (Field.str s) h =
    Reads-map _ Field.str s _ (encode (Field.str s)) (read_str-Reads s h) refl

write_fields-Writes : (fs : List Field) → All Fits fs → Writes (write_fields fs) (encode_all fs)
unfolding write_fields encode_all
write_fields-Writes [] h = Writes-nil
write_fields-Writes (f ∷ fs) h =
    Writes-then (write_field f) (write_fields fs) (encode f) (encode_all fs)
      (write_field-Writes f h.0) (write_fields-Writes fs h.1)

read_fields-Reads :
    (fs : List Field) → All Fits fs → Reads (read_fields (map kind_of fs)) fs (encode_all fs)
unfolding read_fields encode_all
read_fields-Reads [] h = Reads-give []
read_fields-Reads (f ∷ fs) h =
    Reads-bind (read_field (kind_of f))
      (λ g. read_fields (map kind_of fs) >>= (λ gs. give (g ∷ gs))) f (f ∷ fs) (encode f)
      (encode_all fs) (read_field-Reads f h.0)
      (Reads-map (read_fields (map kind_of fs)) (λ gs. f ∷ gs) fs (f ∷ fs) (encode_all fs)
        (read_fields-Reads fs h.1) refl)

-- Whatever fields are written to an empty buffer, a reader over the buffer that makes the same calls
-- in the same order gets the same values, ends with its flag set, and has nothing left to read; the
-- writer's flag is as it was. The fields are in the range of their types, strings are shorter than
-- 2 ^ 32 bytes, and the buffer is shorter than 2 ^ 63 bytes.
pub read_fields-write_fields :
    (fs : List Field) (w : ByteWriter)
    → w.out ≡ []
    → All Fits fs
    → length (write_fields fs w).out < 2 ^ 63
    → let back = read_fields (map kind_of fs) (start (write_fields fs w).out) in
      (back.0 ≡ fs) × (back.1.ok ≡ true) × (remaining back.1 ≡ 0) × ((write_fields fs w).ok ≡ w.ok)
unfolding remaining
read_fields-write_fields fs w e h small =
    let wrote = write_fields-Writes fs h w in
    let out_eq : (write_fields fs w).out ≡ encode_all fs =
      ap (λ (v : ByteWriter). v.out) wrote ∙ ap (λ (bs : Bytes). bs ++ encode_all fs) e in
    let ready = start-Ready (write_fields fs w).out small in
    let back =
      read_fields-Reads fs h (start (write_fields fs w).out) []
        (subst (Ready (start (write_fields fs w).out)) (out_eq ∙ sym (append-nil _)) ready) in
    (back.0, back.1.good, ground (arith, back.1.placed), ap (λ (v : ByteWriter). v.ok) wrote)
