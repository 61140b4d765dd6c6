-- ===== src/ByteIo/Reader.antt =====
-- `ByteReader` of libs/engine/io/cache/byte_io.h, and `ResolveRef`. A read is a function from the
-- reader to the value and the reader after it. `none` from a bulk read: the destination is left as
-- it was.
use bravo_finder.Prelude.{
  ℕ, zero, suc, ◌+◌, ◌-◌, ◌*◌, ◌/◌, ◌%◌, ◌^◌, Bool, true, false, not, ◌||◌, List, [], ◌∷◌, map,
  Option, none, some, bit_and, bit_or, ltb, length, get_or, take, drop, if◌then◌else◌, Bytes,
}
use bravo_finder.Prelude.Int.{ℤ, pos, negsuc}

-- `data_` with its `size_`, `pos_` and `ok_`.
pub record ByteReader : Type 0 where
  pub bytes : Bytes
  pub pos : ℕ
  pub ok : Bool

abbrev pub Read : Type 0 → Type 0
Read A = ByteReader → A × ByteReader

infixl 5 ◌>>=◌
abbrev pub ◌>>=◌ : {A B : Type 0} → Read A → (A → Read B) → Read B
◌>>=◌ m f r = f (m r).0 (m r).1

abbrev pub give : {A : Type 0} → A → Read A
give a r = (a, r)

unfoldable pub start : Bytes → ByteReader
start bs = record { bytes = bs; pos = 0; ok = true }

-- `pos_ + n > size_`, in `size_t`.
unfoldable pub past_end : ℕ → ByteReader → Bool
past_end n r = ltb (length r.bytes) ((r.pos + n) % 2 ^ 64)

unfoldable pub remaining : ByteReader → ℕ
remaining r = if r.ok then length r.bytes - r.pos else 0

unfoldable pub read_u8 : Read ℕ
unfolding past_end
read_u8 r =
    if past_end 1 r
    then (0, record r { ok = false })
    else (get_or r.bytes r.pos 0, record r { pos = r.pos + 1 })

unfoldable pub read_u16 : Read ℕ
read_u16 = do lo ← read_u8; hi ← read_u8; give (bit_or lo (hi * 2 ^ 8) % 2 ^ 16)

-- `for (i = 0; i < n; ++i) v |= uintW_t(U8()) << (8 * i)`, from `i` on for `rounds` more rounds.
unfoldable pub read_bytes_into : ℕ → ℕ → ℕ → ℕ → Read ℕ
read_bytes_into w zero i v r = (v, r)
read_bytes_into w (suc rounds) i v r =
    let (b, r') = read_u8 r in
    read_bytes_into w rounds (i + 1) (bit_or v (b * 2 ^ (8 * i) % 2 ^ w)) r'

unfoldable pub read_u32 : Read ℕ
read_u32 = read_bytes_into 32 4 0 0

unfoldable pub read_u64 : Read ℕ
read_u64 = read_bytes_into 64 8 0 0

-- `static_cast<intN_t>(v)` of an unsigned value below `m`.
unfoldable pub to_signed : ℕ → ℕ → ℤ
to_signed m v = if ltb v (m / 2) then pos v else negsuc (m - 1 - v)

unfoldable pub read_i16 : Read ℤ
read_i16 = do v ← read_u16; give (to_signed (2 ^ 16) v)

unfoldable pub read_i32 : Read ℤ
read_i32 = do v ← read_u32; give (to_signed (2 ^ 32) v)

unfoldable pub read_f32 : Read ℕ
read_f32 = read_u32

unfoldable pub read_f64 : Read ℕ
read_f64 = read_u64

unfoldable pub read_bytes : ℕ → Read (Option Bytes)
unfolding past_end
read_bytes n r =
    if past_end n r
    then (none, record r { ok = false })
    else (some (take n (drop r.pos r.bytes)), record r { pos = r.pos + n })

unfoldable pub str_body : ℕ → Read Bytes
unfolding remaining
str_body len r =
    if not r.ok || ltb (remaining r) len
    then ([], record r { ok = false })
    else (take len (drop r.pos r.bytes), record r { pos = r.pos + len })

unfoldable pub read_str : Read Bytes
read_str = do len ← read_u32; str_body len

-- The byte order of the machine that runs the code.
pub data Endian : Type 0 where
  little big : Endian

unfoldable pub byte_swap16 : ℕ → ℕ
byte_swap16 v = bit_or (v * 2 ^ 8) (v / 2 ^ 8) % 2 ^ 16

unfoldable pub byte_swap32 : ℕ → ℕ
byte_swap32 v =
    bit_or
      (bit_or
        (bit_or (bit_and v 0x000000FF * 2 ^ 24 % 2 ^ 32) (bit_and v 0x0000FF00 * 2 ^ 8 % 2 ^ 32))
        (bit_and v 0x00FF0000 / 2 ^ 8))
      (bit_and v 0xFF000000 / 2 ^ 24)

-- What a 16-bit load reads from two bytes of memory, by the machine's byte order.
unfoldable pub load16 : Endian → ℕ → ℕ → ℕ
load16 little a b = a + b * 2 ^ 8
load16 big a b = a * 2 ^ 8 + b

unfoldable pub load32 : Endian → ℕ → ℕ → ℕ → ℕ → ℕ
load32 little a b c d = a + b * 2 ^ 8 + c * 2 ^ 16 + d * 2 ^ 24
load32 big a b c d = a * 2 ^ 24 + b * 2 ^ 16 + c * 2 ^ 8 + d

-- `n` elements as `memcpy` leaves them in the destination.
unfoldable pub memcpy16 : Endian → ℕ → Bytes → List ℕ
memcpy16 e zero bs = []
memcpy16 e (suc n) [] = []
memcpy16 e (suc n) (a ∷ []) = []
memcpy16 e (suc n) (a ∷ b ∷ bs) = load16 e a b ∷ memcpy16 e n bs

unfoldable pub memcpy32 : Endian → ℕ → Bytes → List ℕ
memcpy32 e zero bs = []
memcpy32 e (suc n) (a ∷ b ∷ c ∷ d ∷ bs) = load32 e a b c d ∷ memcpy32 e n bs
memcpy32 e (suc n) _ = []

-- `if constexpr (std::endian::native == std::endian::big)`
unfoldable pub swap_if_big : Endian → (ℕ → ℕ) → List ℕ → List ℕ
swap_if_big little swap vs = vs
swap_if_big big swap vs = map swap vs

unfoldable pub read_i16_span : Endian → ℕ → Read (Option (List ℤ))
unfolding past_end
read_i16_span e n r = if past_end (n * 2 % 2 ^ 64) r then (none, record r { ok = false }) else (
  some (map (to_signed (2 ^ 16)) (swap_if_big e byte_swap16 (memcpy16 e n (drop r.pos r.bytes)))),
  record r { pos = r.pos + n * 2 },
)

unfoldable pub read_i32_span : Endian → ℕ → Read (Option (List ℤ))
unfolding past_end
read_i32_span e n r = if past_end (n * 4 % 2 ^ 64) r then (none, record r { ok = false }) else (
  some (map (to_signed (2 ^ 32)) (swap_if_big e byte_swap32 (memcpy32 e n (drop r.pos r.bytes)))),
  record r { pos = r.pos + n * 4 },
)

-- The text, and the new value of the caller's `ok` flag, which is only ever set to false.
unfoldable pub resolve_ref : Bytes → ℕ → ℕ → Bool → Bytes × Bool
resolve_ref pool offset len ok =
    if ltb (length pool) offset || ltb (length pool - offset) len
    then ([], false)
    else (take len (drop offset pool), ok)
