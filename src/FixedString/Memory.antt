-- ===== src/FixedString/Memory.antt =====
-- The C library calls on arrays that fixed_string.h makes, and the order of texts that they give.
use Prim.Native.Nat.{compare, Ordering}
use bravo_finder.Prelude.{
  ℕ, zero, suc, ◌≤◌, ◌≡◌, ◌↔◌, refl, Bool, true, false, [], ◌∷◌, ◌++◌, length, take, drop, min, ltb,
  if◌then◌else◌, Bytes, arith,
}

-- The sign of `memcmp(a, b, n)`, on unsigned bytes.
unfoldable pub memcmp : ℕ → Bytes → Bytes → Ordering
memcmp zero xs ys = Ordering.eq
memcmp (suc n) [] ys = Ordering.eq
memcmp (suc n) (x ∷ xs) [] = Ordering.eq
memcmp (suc n) (x ∷ xs) (y ∷ ys) =
    let rest = memcmp n xs ys in
    elim (compare x y) [
      | Ordering.lt ↦ Ordering.lt
      | Ordering.gt ↦ Ordering.gt
      | Ordering.eq ↦ rest
    ]

-- `memcpy(dst, src, src.size())` over the front of an array.
unfoldable pub memcpy : Bytes → Bytes → Bytes
memcpy dst src = src ++ drop (length src) dst

unfoldable pub ne_zero : Ordering → Bool
ne_zero Ordering.lt = true
ne_zero Ordering.eq = false
ne_zero Ordering.gt = true

unfoldable pub lt_zero : Ordering → Bool
lt_zero Ordering.lt = true
lt_zero Ordering.eq = false
lt_zero Ordering.gt = false

-- The specification: lexicographic order of byte strings.
unfoldable pub lex_lt : Bytes → Bytes → Bool
lex_lt [] [] = false
lex_lt [] (y ∷ ys) = true
lex_lt (x ∷ xs) [] = false
lex_lt (x ∷ xs) (y ∷ ys) =
    let rest = lex_lt xs ys in
    elim (compare x y) [ Ordering.lt ↦ true | Ordering.gt ↦ false | Ordering.eq ↦ rest ]

pub lex_lt_irrefl : (xs : Bytes) → lex_lt xs xs ≡ false
unfolding lex_lt
lex_lt_irrefl [] = refl
lex_lt_irrefl (x ∷ xs) = ground (arith, lex_lt_irrefl xs)

pub lex_lt_trans :
    (xs ys zs : Bytes) → lex_lt xs ys ≡ true → lex_lt ys zs ≡ true → lex_lt xs zs ≡ true
unfolding lex_lt
lex_lt_trans [] [] zs p q = cc
lex_lt_trans [] (y ∷ ys) [] p q = cc
lex_lt_trans [] (y ∷ ys) (z ∷ zs) p q = refl
lex_lt_trans (x ∷ xs) [] zs p q = cc
lex_lt_trans (x ∷ xs) (y ∷ ys) [] p q = cc
lex_lt_trans (x ∷ xs) (y ∷ ys) (z ∷ zs) p q = ground (arith, lex_lt_trans xs ys zs)

pub lex_lt_connected : (xs ys : Bytes) → lex_lt xs ys ≡ false → lex_lt ys xs ≡ false → xs ≡ ys
unfolding lex_lt
lex_lt_connected [] [] p q = refl
lex_lt_connected [] (y ∷ ys) p q = cc
lex_lt_connected (x ∷ xs) [] p q = cc
lex_lt_connected (x ∷ xs) (y ∷ ys) p q = ground (arith, lex_lt_connected xs ys)

-- A common prefix that compares equal is equal.
pub memcmp-eq :
    (n : ℕ) (xs ys : Bytes)
    → n ≤ length xs
    → n ≤ length ys
    → (memcmp n xs ys ≡ Ordering.eq) ↔ (take n xs ≡ take n ys)
unfolding memcmp
memcmp-eq zero xs ys p q = (λ e. refl, λ e. refl)
memcmp-eq (suc n) [] ys p q = absurd (omega arith)
memcmp-eq (suc n) (x ∷ xs) [] p q = absurd (omega arith)
memcmp-eq (suc n) (x ∷ xs) (y ∷ ys) p q =
    let rest = memcmp-eq n xs ys (omega arith) (omega arith) in ground (arith, rest)

-- The comparison by the common prefix and then by length is the lexicographic order.
pub memcmp-lex_lt :
    (m n : ℕ) (xs ys : Bytes)
    → m ≤ length xs
    → n ≤ length ys
    → (if ne_zero (memcmp (min m n) xs ys) then lt_zero (memcmp (min m n) xs ys) else ltb m n)
      ≡ lex_lt (take m xs) (take n ys)
unfolding memcmp lex_lt ne_zero lt_zero
memcmp-lex_lt zero zero xs ys p q = refl
memcmp-lex_lt zero (suc n) xs [] p q = absurd (omega arith)
memcmp-lex_lt zero (suc n) xs (y ∷ ys) p q =
    let e : min 0 (suc n) ≡ 0 = omega arith in rw e (ground arith)
memcmp-lex_lt (suc m) n [] ys p q = absurd (omega arith)
memcmp-lex_lt (suc m) zero (x ∷ xs) ys p q =
    let e : min (suc m) 0 ≡ 0 = omega arith in rw e (ground arith)
memcmp-lex_lt (suc m) (suc n) (x ∷ xs) [] p q = absurd (omega arith)
memcmp-lex_lt (suc m) (suc n) (x ∷ xs) (y ∷ ys) p q =
    let e : min (suc m) (suc n) ≡ suc (min m n) = omega arith in
    rw e (ground (arith, memcmp-lex_lt m n xs ys (omega arith) (omega arith)))
