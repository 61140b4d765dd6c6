-- ===== src/Crc/Parts.antt =====
-- A checksum over parts is that of the whole.
use Prim.Native.Nat.{digits, differ, bit_xor-bitwise}
use native.Mathlib.Nat.{pow-suc}
use bravo_finder.Prelude.{
  ℕ, zero, suc, ◌-◌, ◌/◌, ◌%◌, ◌^◌, ◌≤◌, ◌<◌, ◌≡◌, refl, sym, ap, ◌∙◌, inl, inr, [], ◌∷◌, ◌++◌,
  Bool-cases, bit_and, bit_xor, ◌==◌, Bytes, arith,
}
use bravo_finder.Prelude.Bits.{bit_and_byte}
use bravo_finder.Crc.{poly, ones, table_round, table_rounds, table_entry, fold_bytes, update}

abbrev xor_digits : ℕ → ℕ → ℕ → ℕ
xor_digits n a b = digits (λ c. c) differ n a b

differ_bit : (a b : ℕ) → a < 2 → b < 2 → differ a b < 2
differ_bit zero b h k = k
differ_bit (suc zero) zero h k = omega arith
differ_bit (suc zero) (suc zero) h k = omega arith
differ_bit (suc zero) (suc (suc b)) h k = absurd (omega (arith, k))
differ_bit (suc (suc a)) b h k = absurd (omega (arith, h))

differ_one : (a : ℕ) → a < 2 → differ a 1 ≡ 1 - a
differ_one zero h = omega arith
differ_one (suc zero) h = omega arith
differ_one (suc (suc a)) h = absurd (omega (arith, h))

-- As many bits as the longer of the two.
xor_digits-lt : (k n a b : ℕ) → a < 2 ^ k → b < 2 ^ k → xor_digits n a b < 2 ^ k
xor_digits-lt k zero a b p q = q
xor_digits-lt k (suc n) zero b p q = q
xor_digits-lt zero (suc n) (suc a) b p q = absurd (omega (arith, p))
xor_digits-lt (suc k) (suc n) (suc a) b p q =
    let rest =
      xor_digits-lt k n (suc a / 2) (b / 2) (omega (arith, p, pow-suc 2 k))
        (omega (arith, q, pow-suc 2 k)) in
    let bit = differ_bit (suc a % 2) (b % 2) (omega arith) (omega arith) in
    omega (arith, rest, bit, pow-suc 2 k)

-- Against ones, the bits are turned over.
xor_digits-ones : (k n a : ℕ) → a ≤ n → a < 2 ^ k → xor_digits n a (2 ^ k - 1) ≡ 2 ^ k - 1 - a
xor_digits-ones k zero zero h p = omega arith
xor_digits-ones k zero (suc a) h p = absurd (omega (arith, h))
xor_digits-ones k (suc n) zero h p = omega arith
xor_digits-ones zero (suc n) (suc a) h p = absurd (omega (arith, p))
xor_digits-ones (suc k) (suc n) (suc a) h p =
    let half : (2 ^ suc k - 1) / 2 ≡ 2 ^ k - 1 = omega (arith, pow-suc 2 k) in
    let low : (2 ^ suc k - 1) % 2 ≡ 1 = omega (arith, pow-suc 2 k, p) in
    let rest = xor_digits-ones k n (suc a / 2) (omega (arith, h)) (omega (arith, p, pow-suc 2 k)) in
    let bit = differ_one (suc a % 2) (omega arith) in
    rw (half, low) (omega (arith, rest, bit, pow-suc 2 k, p))

bit_xor-lt : (a b : ℕ) → a < 2 ^ 32 → b < 2 ^ 32 → bit_xor a b < 2 ^ 32
bit_xor-lt a b p q = rw bit_xor-bitwise (xor_digits-lt 32 a a b p q)

bit_xor-ones : (a : ℕ) → a < 2 ^ 32 → bit_xor a ones ≡ ones - a
bit_xor-ones a p = rw bit_xor-bitwise (xor_digits-ones 32 a a (omega arith) p)

table_round-lt : (c : ℕ) → c < 2 ^ 32 → table_round c < 2 ^ 32
unfolding table_round
table_round-lt c h = elim (Bool-cases (bit_and c 1 == 0)) [
  | inl even ↦ rw even (omega (arith, h))
  | inr odd ↦ rw odd (bit_xor-lt poly (c / 2 ^ 1) (omega arith) (omega (arith, h)))
]

table_rounds-lt : (k c : ℕ) → c < 2 ^ 32 → table_rounds k c < 2 ^ 32
unfolding table_rounds
table_rounds-lt zero c h = h
table_rounds-lt (suc k) c h = table_rounds-lt k (table_round c) (table_round-lt c h)

low_byte : (x : ℕ) → bit_and x 0xFF < 2 ^ 32
low_byte x = omega (arith, bit_and_byte 0 x)

fold_bytes-lt : (c : ℕ) (bs : Bytes) → c < 2 ^ 32 → fold_bytes c bs < 2 ^ 32
unfolding fold_bytes table_entry
fold_bytes-lt c [] h = h
fold_bytes-lt c (b ∷ bs) h =
    let i = bit_and (bit_xor c b) 0xFF in
    fold_bytes-lt (bit_xor (table_rounds 8 i) (c / 2 ^ 8)) bs (
      bit_xor-lt (table_rounds 8 i) (c / 2 ^ 8) (table_rounds-lt 8 i (low_byte (bit_xor c b)))
        (omega (arith, h)))

fold_bytes-append :
    (c : ℕ) (xs bs : Bytes) → fold_bytes c (xs ++ bs) ≡ fold_bytes (fold_bytes c xs) bs
unfolding fold_bytes
fold_bytes-append c [] bs = refl
fold_bytes-append c (a ∷ xs) bs =
    fold_bytes-append (bit_xor (table_entry (bit_and (bit_xor c a) 0xFF)) (c / 2 ^ 8)) xs bs

-- The checksum of a text in two parts, one after the other, is that of the whole, whatever the bytes
-- are and from any 32-bit checksum before them; and a checksum has 32 bits.
pub update-append :
    (crc : ℕ) (xs bs : Bytes)
    → crc < 2 ^ 32
    → (update (update crc xs) bs ≡ update crc (xs ++ bs)) × (update crc xs < 2 ^ 32)
unfolding update
update-append crc xs bs h =
    let start = bit_xor crc ones in
    let start_small = bit_xor-lt crc ones h (omega arith) in
    let middle = fold_bytes start xs in
    let small = fold_bytes-lt start xs start_small in
    let turned : bit_xor middle ones ≡ ones - middle = bit_xor-ones middle small in
    let back : bit_xor (bit_xor middle ones) ones ≡ middle =
      ap (λ x. bit_xor x ones) turned
      ∙ bit_xor-ones (ones - middle) (omega arith)
      ∙ (omega (arith, small)) in
    (
      rw back (ap (λ x. bit_xor x ones) (sym (fold_bytes-append start xs bs))),
      bit_xor-lt middle ones small (omega arith),
    )
