-- ===== src/ByteIo/Spans.antt =====
-- The bulk reads `I16Span` and `I32Span` against the same number of single reads, on hosts of
-- either byte order.
use mathlib.Core.Path.{ap₂}
use native.Mathlib.Nat.{mod-eq_of_lt}
use bravo_finder.Prelude.{
  ℕ, zero, suc, ◌+◌, ◌*◌, ◌/◌, ◌%◌, ◌^◌, ◌<◌, ◌≡◌, refl, sym, ap, subst, ◌∙◌, List, [], ◌∷◌, ◌++◌,
  map, some, bit_and, bit_or, length, length-append, All, Bytes, arith,
}
use bravo_finder.Prelude.Bits.{bit_or_disjoint, bit_or_comm, bit_and_byte}
use bravo_finder.ByteIo.Reader.{
  ByteReader, Read, ◌>>=◌, give, read_u16, read_u32, read_i16, read_i32, to_signed, Endian, little,
  big, load16, load32, memcpy16, memcpy32, byte_swap16, byte_swap32, swap_if_big, read_i16_span,
  read_i32_span,
}
use bravo_finder.ByteIo.Cursor.{
  Ready, Reads, Reads-give, Reads-bind, Reads-map, past_end-Ready, advance-Ready,
}
use bravo_finder.ByteIo.RoundTrip.{le_bytes, read_u16-Reads, read_u32-Reads}

abbrev pub IsByte : ℕ → Type 0
IsByte b = b < 256

-- `n` calls of one read.
unfoldable pub times : {A : Type 0} → ℕ → Read A → Read (List A)
times zero m = give []
times (suc n) m = do x ← m; xs ← times n m; give (x ∷ xs)

byte_swap16_lem : (a b : ℕ) → IsByte a → IsByte b → byte_swap16 (load16 big a b) ≡ load16 little a b
unfolding byte_swap16 load16
byte_swap16_lem a b p q =
    let v = a * 2 ^ 8 + b in
    let top : v / 2 ^ 8 ≡ a = omega arith in
    rw (bit_or_comm (v * 2 ^ 8) (v / 2 ^ 8), top, bit_or_disjoint 8 a v p) (omega arith)

byte_swap32_lem :
    (a b c d : ℕ)
    → IsByte a
    → IsByte b
    → IsByte c
    → IsByte d
    → byte_swap32 (load32 big a b c d) ≡ load32 little a b c d
unfolding byte_swap32 load32
byte_swap32_lem a b c d ha hb hc hd =
    let v = a * 2 ^ 24 + b * 2 ^ 16 + c * 2 ^ 8 + d in
    let p : bit_and v 0x000000FF * 2 ^ 24 % 2 ^ 32 ≡ d * 2 ^ 24 = omega (arith, bit_and_byte 0 v) in
    let q : bit_and v 0x0000FF00 * 2 ^ 8 % 2 ^ 32 ≡ c * 2 ^ 16 = omega (arith, bit_and_byte 8 v) in
    let r : bit_and v 0x00FF0000 / 2 ^ 8 ≡ b * 2 ^ 8 = omega (arith, bit_and_byte 16 v) in
    let s : bit_and v 0xFF000000 / 2 ^ 24 ≡ a = omega (arith, bit_and_byte 24 v) in
    let pq : bit_or (d * 2 ^ 24) (c * 2 ^ 16) ≡ (c + d * 2 ^ 8) * 2 ^ 16 =
      bit_or_comm (d * 2 ^ 24) (c * 2 ^ 16)
      ∙ bit_or_disjoint 24 (c * 2 ^ 16) d (omega arith)
      ∙ omega arith in
    let pqr : bit_or ((c + d * 2 ^ 8) * 2 ^ 16) (b * 2 ^ 8) ≡ (b + c * 2 ^ 8 + d * 2 ^ 16) * 2 ^ 8 =
      bit_or_comm ((c + d * 2 ^ 8) * 2 ^ 16) (b * 2 ^ 8)
      ∙ bit_or_disjoint 16 (b * 2 ^ 8) (c + d * 2 ^ 8) (omega arith)
      ∙ omega arith in
    let all : bit_or ((b + c * 2 ^ 8 + d * 2 ^ 16) * 2 ^ 8) a
        ≡ a + b * 2 ^ 8 + c * 2 ^ 16 + d * 2 ^ 24 =
      bit_or_comm ((b + c * 2 ^ 8 + d * 2 ^ 16) * 2 ^ 8) a
      ∙ bit_or_disjoint 8 a (b + c * 2 ^ 8 + d * 2 ^ 16) ha
      ∙ omega arith in
    ap₂ bit_or (ap₂ bit_or (ap₂ bit_or p q ∙ pq) r ∙ pqr) s ∙ all

swapped16 :
    (e : Endian) (n : ℕ) (xs : Bytes)
    → All IsByte xs
    → swap_if_big e byte_swap16 (memcpy16 e n xs) ≡ memcpy16 little n xs
unfolding swap_if_big memcpy16
swapped16 little n xs h = refl
swapped16 big zero xs h = refl
swapped16 big (suc n) [] h = refl
swapped16 big (suc n) (a ∷ []) h = refl
swapped16 big (suc n) (a ∷ b ∷ xs) h =
    ap₂ ◌∷◌ (byte_swap16_lem a b h.0 h.1.0) (swapped16 big n xs h.1.1)

swapped32 :
    (e : Endian) (n : ℕ) (xs : Bytes)
    → All IsByte xs
    → swap_if_big e byte_swap32 (memcpy32 e n xs) ≡ memcpy32 little n xs
unfolding swap_if_big memcpy32
swapped32 little n xs h = refl
swapped32 big zero xs h = refl
swapped32 big (suc n) (a ∷ b ∷ c ∷ d ∷ xs) h =
    ap₂ ◌∷◌ (byte_swap32_lem a b c d h.0 h.1.0 h.1.1.0 h.1.1.1.0) (swapped32 big n xs h.1.1.1.1)
swapped32 big (suc n) [] h = refl
swapped32 big (suc n) (a ∷ []) h = refl
swapped32 big (suc n) (a ∷ b ∷ []) h = refl
swapped32 big (suc n) (a ∷ b ∷ c ∷ []) h = refl

le_bytes16 : (a b : ℕ) → IsByte a → IsByte b → le_bytes 2 0 (load16 little a b) ≡ a ∷ b ∷ []
unfolding le_bytes load16
le_bytes16 a b p q = ap₂ (λ (x y : ℕ). x ∷ y ∷ []) (omega arith) (omega arith)

le_bytes32 :
    (a b c d : ℕ)
    → IsByte a
    → IsByte b
    → IsByte c
    → IsByte d
    → le_bytes 4 0 (load32 little a b c d) ≡ a ∷ b ∷ c ∷ d ∷ []
unfolding le_bytes load32
le_bytes32 a b c d ha hb hc hd =
    ap₂ ◌∷◌ (omega arith)
      (ap₂ ◌∷◌ (omega arith) (ap₂ (λ (x y : ℕ). x ∷ y ∷ []) (omega arith) (omega arith)))

-- `n` single reads over bytes that hold `n` elements.
times16-Reads :
    (n : ℕ) (xs rest : Bytes)
    → All IsByte xs
    → length xs ≡ n * 2
    → Reads (times n read_i16) (map (to_signed (2 ^ 16)) (memcpy16 little n (xs ++ rest))) xs
unfolding times memcpy16
times16-Reads zero [] rest h e = Reads-give []
times16-Reads zero (x ∷ xs) rest h e = absurd (omega arith)
times16-Reads (suc n) [] rest h e = absurd (omega arith)
times16-Reads (suc n) (x ∷ []) rest h e = absurd (omega arith)
times16-Reads (suc n) (a ∷ b ∷ xs) rest h e =
    let v = load16 little a b in
    let tail = map (to_signed (2 ^ 16)) (memcpy16 little n (xs ++ rest)) in
    let one : Reads read_u16 v (a ∷ b ∷ []) =
      subst (Reads read_u16 v) (le_bytes16 a b h.0 h.1.0)
        (read_u16-Reads v (unfold load16 in omega (arith, h.0, h.1.0))) in
    Reads-bind read_i16 (λ x. times n read_i16 >>= (λ ys. give (x ∷ ys))) (to_signed (2 ^ 16) v)
      (to_signed (2 ^ 16) v ∷ tail) (a ∷ b ∷ []) xs
      (unfold read_i16 in Reads-map read_u16 (to_signed (2 ^ 16)) v _ (a ∷ b ∷ []) one refl)
      (Reads-map (times n read_i16) (λ ys. to_signed (2 ^ 16) v ∷ ys) tail _ xs
        (times16-Reads n xs rest h.1.1 (omega arith)) refl)

times32-Reads :
    (n : ℕ) (xs rest : Bytes)
    → All IsByte xs
    → length xs ≡ n * 4
    → Reads (times n read_i32) (map (to_signed (2 ^ 32)) (memcpy32 little n (xs ++ rest))) xs
unfolding times memcpy32
times32-Reads zero [] rest h e = Reads-give []
times32-Reads zero (x ∷ xs) rest h e = absurd (omega arith)
times32-Reads (suc n) [] rest h e = absurd (omega arith)
times32-Reads (suc n) (x ∷ []) rest h e = absurd (omega arith)
times32-Reads (suc n) (x ∷ y ∷ []) rest h e = absurd (omega arith)
times32-Reads (suc n) (x ∷ y ∷ z ∷ []) rest h e = absurd (omega arith)
times32-Reads (suc n) (a ∷ b ∷ c ∷ d ∷ xs) rest h e =
    let v = load32 little a b c d in
    let tail = map (to_signed (2 ^ 32)) (memcpy32 little n (xs ++ rest)) in
    let one : Reads read_u32 v (a ∷ b ∷ c ∷ d ∷ []) =
      subst (Reads read_u32 v) (le_bytes32 a b c d h.0 h.1.0 h.1.1.0 h.1.1.1.0)
        (read_u32-Reads v (unfold load32 in omega arith)) in
    Reads-bind read_i32 (λ x. times n read_i32 >>= (λ ys. give (x ∷ ys))) (to_signed (2 ^ 32) v)
      (to_signed (2 ^ 32) v ∷ tail) (a ∷ b ∷ c ∷ d ∷ []) xs
      (unfold read_i32 in Reads-map read_u32 (to_signed (2 ^ 32)) v _ (a ∷ b ∷ c ∷ d ∷ []) one refl)
      (Reads-map (times n read_i32) (λ ys. to_signed (2 ^ 32) v ∷ ys) tail _ xs
        (times32-Reads n xs rest h.1.1.1.1 (omega arith)) refl)

All-front : (xs ys : Bytes) → All IsByte (xs ++ ys) → All IsByte xs
All-front [] ys h = tt
All-front (x ∷ xs) ys h = (h.0, All-front xs ys h.1)

-- On a host of either byte order, `read_i16_span` of `n` elements, from a reader with no error before
-- their `2 * n` bytes, gives what `n` single reads give, and both stop behind those bytes with no
-- error. All bytes still to be read are below 256.
pub read_i16_span_lem :
    (e : Endian) (n : ℕ) (r : ByteReader) (xs rest : Bytes)
    → Ready r (xs ++ rest)
    → All IsByte (xs ++ rest)
    → length xs ≡ n * 2
    → ((read_i16_span e n r).0 ≡ some (times n read_i16 r).0)
      × Ready (read_i16_span e n r).1 rest
      × Ready (times n read_i16 r).1 rest
unfolding read_i16_span
read_i16_span_lem e n r xs rest ready h size =
    let room : length xs < 2 ^ 64 =
      omega (arith, ready.placed, ready.small, length-append xs rest) in
    let count : n * 2 % 2 ^ 64 ≡ length xs =
      mod-eq_of_lt (subst (λ (t : ℕ). t < 2 ^ 64) size room) ∙ sym size in
    let test =
      past_end-Ready (length xs) r (xs ++ rest) ready (omega (arith, length-append xs rest)) in
    let single = times16-Reads n xs rest (All-front xs rest h) size r rest ready in
    let swapped =
      ap (λ bs. swap_if_big e byte_swap16 (memcpy16 e n bs)) ready.unread
      ∙ swapped16 e n (xs ++ rest) h in
    rw (count, test)
      (
        ap (λ vs. some (map (to_signed (2 ^ 16)) vs)) swapped ∙ ap some (sym single.0),
        subst (λ (t : ℕ). Ready (record r { pos = r.pos + t }) rest) size
            (advance-Ready r xs rest ready),
        single.1,
      )

-- On a host of either byte order, `read_i32_span` of `n` elements, from a reader with no error before
-- their `4 * n` bytes, gives what `n` single reads give, and both stop behind those bytes with no
-- error. All bytes still to be read are below 256.
pub read_i32_span_lem :
    (e : Endian) (n : ℕ) (r : ByteReader) (xs rest : Bytes)
    → Ready r (xs ++ rest)
    → All IsByte (xs ++ rest)
    → length xs ≡ n * 4
    → ((read_i32_span e n r).0 ≡ some (times n read_i32 r).0)
      × Ready (read_i32_span e n r).1 rest
      × Ready (times n read_i32 r).1 rest
unfolding read_i32_span
read_i32_span_lem e n r xs rest ready h size =
    let room : length xs < 2 ^ 64 =
      omega (arith, ready.placed, ready.small, length-append xs rest) in
    let count : n * 4 % 2 ^ 64 ≡ length xs =
      mod-eq_of_lt (subst (λ (t : ℕ). t < 2 ^ 64) size room) ∙ sym size in
    let test =
      past_end-Ready (length xs) r (xs ++ rest) ready (omega (arith, length-append xs rest)) in
    let single = times32-Reads n xs rest (All-front xs rest h) size r rest ready in
    let swapped =
      ap (λ bs. swap_if_big e byte_swap32 (memcpy32 e n bs)) ready.unread
      ∙ swapped32 e n (xs ++ rest) h in
    rw (count, test)
      (
        ap (λ vs. some (map (to_signed (2 ^ 32)) vs)) swapped ∙ ap some (sym single.0),
        subst (λ (t : ℕ). Ready (record r { pos = r.pos + t }) rest) size
            (advance-Ready r xs rest ready),
        single.1,
      )
