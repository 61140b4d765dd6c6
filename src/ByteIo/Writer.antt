-- ===== src/ByteIo/Writer.antt =====
-- `ByteWriter` of libs/engine/io/cache/byte_io.h. `reserve` only sets capacity aside and has no
-- counterpart. `assert` is off in the release build, which is the one modelled.
use bravo_finder.Prelude.{
  ℕ, zero, suc, ◌+◌, ◌-◌, ◌*◌, ◌/◌, ◌%◌, ◌^◌, Bool, false, [], ◌∷◌, ◌++◌, ltb, length,
  if◌then◌else◌, Bytes,
}
use bravo_finder.Prelude.Int.{ℤ, pos, negsuc}

pub record ByteWriter : Type 0 where
  pub out : Bytes
  pub ok : Bool

unfoldable pub write_u8 : ℕ → ByteWriter → ByteWriter
write_u8 v w = record w { out = w.out ++ (v ∷ []) }

unfoldable pub write_u16 : ℕ → ByteWriter → ByteWriter
write_u16 v w = write_u8 (v / 2 ^ 8 % 256) (write_u8 (v % 256) w)

-- `for (i = 0; i < n; ++i) U8(uint8_t(v >> (8 * i)))`, from `i` on for `rounds` more rounds.
unfoldable pub write_bytes_of : ℕ → ℕ → ℕ → ByteWriter → ByteWriter
write_bytes_of zero i v w = w
write_bytes_of (suc rounds) i v w =
    write_bytes_of rounds (i + 1) v (write_u8 (v / 2 ^ (8 * i) % 256) w)

unfoldable pub write_u32 : ℕ → ByteWriter → ByteWriter
write_u32 v w = write_bytes_of 4 0 v w

unfoldable pub write_u64 : ℕ → ByteWriter → ByteWriter
write_u64 v w = write_bytes_of 8 0 v w

-- `static_cast<uintN_t>(v)` of a signed value, modulo `m`.
unfoldable pub to_unsigned : ℕ → ℤ → ℕ
to_unsigned m (pos n) = n % m
to_unsigned m (negsuc n) = m - 1 - n % m

unfoldable pub write_i16 : ℤ → ByteWriter → ByteWriter
write_i16 v w = write_u16 (to_unsigned (2 ^ 16) v) w

unfoldable pub write_i32 : ℤ → ByteWriter → ByteWriter
write_i32 v w = write_u32 (to_unsigned (2 ^ 32) v) w

-- `memcpy` of the float's bits.
unfoldable pub write_f32 : ℕ → ByteWriter → ByteWriter
write_f32 bits w = write_u32 bits w

unfoldable pub write_f64 : ℕ → ByteWriter → ByteWriter
write_f64 bits w = write_u64 bits w

unfoldable pub write_bytes : Bytes → ByteWriter → ByteWriter
write_bytes bs w = record w { out = w.out ++ bs }

unfoldable pub write_str : Bytes → ByteWriter → ByteWriter
write_str s w =
    if ltb 0xFFFFFFFF (length s)
    then record w { ok = false }
    else write_bytes s (write_u32 (length s % 2 ^ 32) w)
