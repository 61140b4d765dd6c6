-- ===== src/ByteIo/RoundTrip.antt =====
-- What `ByteWriter` writes, `ByteReader` reads back: the laws of each width.
use native.Mathlib.Numerals.{towards_suc}
use native.Mathlib.Nat.{
  pow-le-pow_right, one-le-pow, mod-lt, mod-eq_of_lt, mod-add-div', add-mul-mod_self_right,
}
use mathlib.Core.List.{append_assoc}
use bravo_finder.Prelude.{
  ℕ, zero, suc, ◌+◌, ◌-◌, ◌*◌, ◌/◌, ◌%◌, ◌^◌, ◌≤◌, ◌<◌, ◌≡◌, refl, sym, ap, subst, ◌∙◌, false, not,
  ◌||◌, [], ◌∷◌, ◌++◌, ltb, length, take, take-append, length-append, bit_or, Bytes, arith,
}
use bravo_finder.Prelude.Bits.{bit_or_disjoint}
use bravo_finder.Prelude.Int.{ℤ, pos, negsuc, ◌≤ℤ◌}
use bravo_finder.ByteIo.Writer.{
  write_u8, write_u16, write_bytes_of, write_u32, write_u64, to_unsigned, write_i16, write_i32,
  write_bytes, write_str,
}
use bravo_finder.ByteIo.Reader.{
  ◌>>=◌, give, read_u8, read_u16, read_bytes_into, read_u32, read_u64, to_signed, read_i16,
  read_i32, str_body, read_str, remaining,
}
use bravo_finder.ByteIo.Cursor.{
  Reads, Writes, Writes-nil, Writes-then, write_u8-Writes, Reads-give, Reads-bind, Reads-map,
  read_u8-Reads, advance-Ready,
}

-- The bytes of `v` from byte `i` on, lowest first.
unfoldable pub le_bytes : ℕ → ℕ → ℕ → Bytes
le_bytes zero i v = []
le_bytes (suc n) i v = (v / 2 ^ (8 * i) % 256) ∷ le_bytes n (i + 1) v

write_bytes_of-Writes : (n i v : ℕ) → Writes (write_bytes_of n i v) (le_bytes n i v)
unfolding write_bytes_of le_bytes
write_bytes_of-Writes zero i v w = Writes-nil w
write_bytes_of-Writes (suc n) i v w =
    Writes-then (write_u8 _) (write_bytes_of n (i + 1) v) _ _ (write_u8-Writes _)
      (write_bytes_of-Writes n (i + 1) v) w

-- One more byte of `v` above its part below `p`.
mod_byte : (v p : ℕ) → 0 < p → v % p + v / p % 256 * p ≡ v % (p * 256)
mod_byte v p h =
    let low = v % p + v / p % 256 * p in
    let below : low < p * 256 = grind (arith, mod-lt v h, mod-lt (v / p) {m = 256}) in
    let whole : v ≡ low + v / p / 256 * (p * 256) =
      omega (arith, mod-add-div' v p, ap (λ (t : ℕ). t * p) (mod-add-div' (v / p) 256)) in
    sym (mod-eq_of_lt below)
    ∙ sym (add-mul-mod_self_right low (v / p / 256) (p * 256))
    ∙ ap (λ (t : ℕ). t % (p * 256)) (sym whole)

pow_byte : (i : ℕ) → 2 ^ (8 * (i + 1)) ≡ 2 ^ (8 * i) * 256
pow_byte i = let e : 8 * (i + 1) ≡ 8 * i + 8 = omega arith in rw e (simp towards_suc (omega arith))

-- One round of the read loop, on the byte that the write loop made of `v`.
join_byte :
    (w i v : ℕ)
    → 8 * (i + 1) ≤ w
    → bit_or (v % 2 ^ (8 * i)) (v / 2 ^ (8 * i) % 256 * 2 ^ (8 * i) % 2 ^ w) ≡ v % 2 ^ (8 * (i + 1))
join_byte w i v h =
    let p = 2 ^ (8 * i) in
    let pos_p : 0 < p = one-le-pow (8 * i) 2 (omega arith) in
    let byte = v / p % 256 in
    let fits : byte * p < 2 ^ w =
      grind
        (arith, pow_byte i, pow-le-pow_right {n = 2} (omega arith) h, mod-lt (v / p) {m = 256}) in
    rw (mod-eq_of_lt fits) (
      bit_or_disjoint (8 * i) (v % p) byte (mod-lt v pos_p)
      ∙ mod_byte v p pos_p
      ∙ ap (λ (t : ℕ). v % t) (sym (pow_byte i)))

read_bytes_into-Reads :
    (w n i j v : ℕ)
    → i + n ≡ j
    → 8 * j ≤ w
    → Reads (read_bytes_into w n i (v % 2 ^ (8 * i))) (v % 2 ^ (8 * j)) (le_bytes n i v)
unfolding read_bytes_into le_bytes
read_bytes_into-Reads w zero i j v e h = let e' : i ≡ j = omega arith in rw (← e') (Reads-give _)
read_bytes_into-Reads w (suc n) i j v e h =
    Reads-bind read_u8
      (λ b. read_bytes_into w n (i + 1) (bit_or (v % 2 ^ (8 * i)) (b * 2 ^ (8 * i) % 2 ^ w)))
      (v / 2 ^ (8 * i) % 256) (v % 2 ^ (8 * j)) (_ ∷ []) (le_bytes n (i + 1) v) (read_u8-Reads _)
      (rw (join_byte w i v (omega arith)) (read_bytes_into-Reads w n (i + 1) j v (omega arith) h))

-- Each width: the bytes written, and that a value of the width comes back.
pub write_u16-Writes : (v : ℕ) → Writes (write_u16 v) (le_bytes 2 0 v)
unfolding write_u16 write_u8 le_bytes
write_u16-Writes v w = rw append_assoc (let e : v / 1 ≡ v = omega arith in rw e)

pub read_u16-Reads : (v : ℕ) → v < 2 ^ 16 → Reads read_u16 v (le_bytes 2 0 v)
unfolding read_u16 le_bytes
read_u16-Reads v h =
    let join = λ (lo hi : ℕ). bit_or lo (hi * 2 ^ 8) % 2 ^ 16 in
    let low = v / 1 % 256 in
    let high = v / 2 ^ 8 % 256 in
    Reads-bind read_u8 (λ lo. read_u8 >>= (λ hi. give (join lo hi))) low v (low ∷ []) (high ∷ [])
      (read_u8-Reads low)
      (Reads-map read_u8 (join low) high v (high ∷ []) (read_u8-Reads high)
        (rw (bit_or_disjoint 8 low high (omega arith)) (omega arith)))

pub write_u32-Writes : (v : ℕ) → Writes (write_u32 v) (le_bytes 4 0 v)
unfolding write_u32
write_u32-Writes v = write_bytes_of-Writes 4 0 v

pub read_u32-Reads : (v : ℕ) → v < 2 ^ 32 → Reads read_u32 v (le_bytes 4 0 v)
unfolding read_u32
read_u32-Reads v h =
    subst (λ (t : ℕ). Reads (read_bytes_into 32 4 0 0) t (le_bytes 4 0 v)) (mod-eq_of_lt h)
      (subst (λ (t : ℕ). Reads (read_bytes_into 32 4 0 t) (v % 2 ^ 32) (le_bytes 4 0 v))
        (omega arith) (read_bytes_into-Reads 32 4 0 4 v (omega arith) (omega arith)))

pub write_u64-Writes : (v : ℕ) → Writes (write_u64 v) (le_bytes 8 0 v)
unfolding write_u64
write_u64-Writes v = write_bytes_of-Writes 8 0 v

pub read_u64-Reads : (v : ℕ) → v < 2 ^ 64 → Reads read_u64 v (le_bytes 8 0 v)
unfolding read_u64
read_u64-Reads v h =
    subst (λ (t : ℕ). Reads (read_bytes_into 64 8 0 0) t (le_bytes 8 0 v)) (mod-eq_of_lt h)
      (subst (λ (t : ℕ). Reads (read_bytes_into 64 8 0 t) (v % 2 ^ 64) (le_bytes 8 0 v))
        (omega arith) (read_bytes_into-Reads 64 8 0 8 v (omega arith) (omega arith)))

-- The signed integers of `2 * half` bit patterns.
abbrev pub IsSigned : ℕ → ℤ → Type 0
IsSigned half v = (negsuc (half - 1) ≤ℤ v) × (v ≤ℤ pos (half - 1))

pub to_unsigned-lt : (m : ℕ) (v : ℤ) → 0 < m → to_unsigned m v < m
unfolding to_unsigned
to_unsigned-lt m (pos n) h = mod-lt n h
to_unsigned-lt m (negsuc n) h = omega arith

pub to_signed-to_unsigned :
    (half : ℕ) (v : ℤ)
    → 0 < half
    → IsSigned half v
    → to_signed (2 * half) (to_unsigned (2 * half) v) ≡ v
unfolding to_signed to_unsigned
to_signed-to_unsigned half (pos n) p h =
    let e : n % (2 * half) ≡ n = mod-eq_of_lt (omega arith) in rw e (ground arith)
to_signed-to_unsigned half (negsuc n) p h =
    let e : n % (2 * half) ≡ n = mod-eq_of_lt (omega arith) in rw e (ground arith)

pub write_i16-Writes : (v : ℤ) → Writes (write_i16 v) (le_bytes 2 0 (to_unsigned (2 ^ 16) v))
unfolding write_i16
write_i16-Writes v = write_u16-Writes (to_unsigned (2 ^ 16) v)

pub read_i16-Reads :
    (v : ℤ) → IsSigned (2 ^ 15) v → Reads read_i16 v (le_bytes 2 0 (to_unsigned (2 ^ 16) v))
unfolding read_i16
read_i16-Reads v h =
    Reads-map read_u16 (to_signed (2 ^ 16)) (to_unsigned (2 ^ 16) v) v
      (le_bytes 2 0 (to_unsigned (2 ^ 16) v))
      (read_u16-Reads _ (to_unsigned-lt (2 ^ 16) v (omega arith)))
      (to_signed-to_unsigned (2 ^ 15) v (omega arith) h)

pub write_i32-Writes : (v : ℤ) → Writes (write_i32 v) (le_bytes 4 0 (to_unsigned (2 ^ 32) v))
unfolding write_i32
write_i32-Writes v = write_u32-Writes (to_unsigned (2 ^ 32) v)

pub read_i32-Reads :
    (v : ℤ) → IsSigned (2 ^ 31) v → Reads read_i32 v (le_bytes 4 0 (to_unsigned (2 ^ 32) v))
unfolding read_i32
read_i32-Reads v h =
    Reads-map read_u32 (to_signed (2 ^ 32)) (to_unsigned (2 ^ 32) v) v
      (le_bytes 4 0 (to_unsigned (2 ^ 32) v))
      (read_u32-Reads _ (to_unsigned-lt (2 ^ 32) v (omega arith)))
      (to_signed-to_unsigned (2 ^ 31) v (omega arith) h)

pub length-le_bytes : (n i v : ℕ) → length (le_bytes n i v) ≡ n
unfolding le_bytes
length-le_bytes zero i v = refl
length-le_bytes (suc n) i v = ap suc (length-le_bytes n (i + 1) v)

pub write_str-Writes :
    (s : Bytes) → length s < 2 ^ 32 → Writes (write_str s) (le_bytes 4 0 (length s) ++ s)
unfolding write_str write_bytes
write_str-Writes s h w =
    let small : ltb 0xFFFFFFFF (length s) ≡ false = ground arith in
    rw (small, mod-eq_of_lt h, write_u32-Writes (length s) w) (rw append_assoc)

str_body-Reads : (s : Bytes) → Reads (str_body (length s)) s s
unfolding str_body remaining
str_body-Reads s r rest h =
    let fits : (not r.ok || ltb (remaining r) (length s)) ≡ false =
      ground (arith, h.good, h.placed, length-append s rest) in
    rw fits (ap (take (length s)) h.unread ∙ take-append s rest, advance-Ready r s rest h)

pub read_str-Reads :
    (s : Bytes) → length s < 2 ^ 32 → Reads read_str s (le_bytes 4 0 (length s) ++ s)
unfolding read_str
read_str-Reads s h =
    Reads-bind read_u32 str_body (length s) s (le_bytes 4 0 (length s)) s (read_u32-Reads _ h)
      (str_body-Reads s)
