-- ===== src/Prelude/Bits.antt =====
-- `lo | (hi << k)` as a sum. The native `bit_or` computes at numerals only; its law at variables
-- comes from the recursion on binary digits that it stands for.
use Prim.Native.Nat.{digits, bit_or-bitwise, bit_and-bitwise}
use mathlib.Core.WellFounded
use native.Mathlib.Decide.{ℕ_discrete}
use native.Mathlib.Nat.{pow-suc, mul_comm, div-div-eq-div-mul}
use bravo_finder.Prelude.{
  ℕ, zero, suc, ◌+◌, ◌-◌, ◌*◌, ◌/◌, ◌%◌, ◌^◌, ◌≤◌, ◌<◌, max, bit_or, ◌≡◌, refl, ap, sym, ◌∙◌, min,
  bit_and, lt_wf, arith,
}

abbrev or_digits : ℕ → ℕ → ℕ → ℕ
or_digits n a b = digits (λ c. c) max n a b

double_pow : (h k : ℕ) → h * 2 ^ suc k ≡ 2 * (h * 2 ^ k)
double_pow h k = omega (arith, ap (λ (t : ℕ). h * t) (pow-suc 2 k))

-- On any fuel that the low field fits, the digits of the two fields do not meet.
or_digits_disjoint : (k n a h : ℕ) → a ≤ n → a < 2 ^ k → or_digits n a (h * 2 ^ k) ≡ a + h * 2 ^ k
or_digits_disjoint zero zero a h p q = ground arith
or_digits_disjoint zero (suc n) zero h p q = omega arith
or_digits_disjoint zero (suc n) (suc a) h p q = absurd (omega arith)
or_digits_disjoint (suc k) zero zero h p q = omega arith
or_digits_disjoint (suc k) zero (suc a) h p q = absurd (omega arith)
or_digits_disjoint (suc k) (suc n) zero h p q = omega arith
or_digits_disjoint (suc k) (suc n) (suc a) h p q =
    let half : h * 2 ^ suc k / 2 ≡ h * 2 ^ k = omega (arith, double_pow h k) in
    let small : suc a / 2 < 2 ^ k = omega (arith, pow-suc 2 k) in
    let rest = or_digits_disjoint k n (suc a / 2) h (omega arith) small in
    rw half (omega (arith, rest, double_pow h k))

-- `lo | (hi << k)` for a `lo` of at most `k` bits.
pub bit_or_disjoint : (k lo hi : ℕ) → lo < 2 ^ k → bit_or lo (hi * 2 ^ k) ≡ lo + hi * 2 ^ k
bit_or_disjoint k lo hi h = rw bit_or-bitwise (or_digits_disjoint k lo lo hi (omega arith) h)

-- `|` in the other order, for a field that is shifted before it is joined.
or_digits-zero : (n a : ℕ) → a ≤ n → or_digits n a 0 ≡ a
or_digits-zero zero zero h = refl
or_digits-zero zero (suc a) h = absurd (omega arith)
or_digits-zero (suc n) zero h = refl
or_digits-zero (suc n) (suc a) h = omega (arith, or_digits-zero n (suc a / 2) (omega arith))

or_digits_comm : (n m a b : ℕ) → a ≤ n → b ≤ m → or_digits n a b ≡ or_digits m b a
or_digits_comm zero m zero b p q = omega (arith, or_digits-zero m b q)
or_digits_comm zero m (suc a) b p q = absurd (omega arith)
or_digits_comm (suc n) m zero b p q = omega (arith, or_digits-zero m b q)
or_digits_comm (suc n) zero (suc a) zero p q =
    omega (arith, or_digits-zero (suc n) (suc a) (omega arith))
or_digits_comm (suc n) zero (suc a) (suc b) p q = absurd (omega arith)
or_digits_comm (suc n) (suc m) (suc a) zero p q =
    omega (arith, or_digits-zero (suc n) (suc a) (omega arith))
or_digits_comm (suc n) (suc m) (suc a) (suc b) p q =
    omega (arith, or_digits_comm n m (suc a / 2) (suc b / 2) (omega arith) (omega arith))

pub bit_or_comm : (a b : ℕ) → bit_or a b ≡ bit_or b a
bit_or_comm a b = omega (
  arith,
  bit_or-bitwise a b,
  bit_or-bitwise b a,
  or_digits_comm a b a b (omega arith) (omega arith),
)

-- `&` on a given fuel. Fuel beyond the first operand changes nothing.
abbrev shared : ℕ → ℕ → ℕ → ℕ
shared fuel x y = digits (λ _. zero) min fuel x y

shared_once_more : (fuel x y : ℕ) → x ≤ fuel → shared (suc fuel) x y ≡ shared fuel x y
shared_once_more zero zero y h = refl
shared_once_more zero (suc x) y h = absurd (omega arith)
shared_once_more (suc fuel) zero y h = refl
shared_once_more (suc fuel) (suc x) y h =
    omega (arith, shared_once_more fuel (suc x / 2) (y / 2) (omega arith))

shared_spare : (spare x y : ℕ) → shared (spare + x) x y ≡ shared x x y
shared_spare zero x y = rw (let e : 0 + x ≡ x = omega arith in e)
shared_spare (suc spare) x y =
    let e : suc spare + x ≡ suc (spare + x) = omega arith in
    ap (λ k. shared k x y) e
    ∙ shared_once_more (spare + x) x y (omega arith)
    ∙ shared_spare spare x y

none_shared : (y : ℕ) → bit_and 0 y ≡ 0
none_shared y = bit_and-bitwise 0 y

-- `&` digit by digit.
pub bit_and_digit : (x y : ℕ) → bit_and x y ≡ min (x % 2) (y % 2) + 2 * bit_and (x / 2) (y / 2)
bit_and_digit zero y = omega (arith, none_shared y, none_shared (y / 2))
bit_and_digit (suc x) y =
    let half = suc x / 2 in
    let enough : x - half + half ≡ x = omega arith in
    let step : shared x half (y / 2) ≡ shared half half (y / 2) =
      ap (λ k. shared k half (y / 2)) (sym enough) ∙ shared_spare (x - half) half (y / 2) in
    omega (arith, bit_and-bitwise (suc x) y, bit_and-bitwise half (y / 2), step)

pub bit_and-zero : (a : ℕ) → bit_and a 0 ≡ 0
bit_and-zero a = WellFounded.induction lt_wf {C = λ k. bit_and k 0 ≡ 0} a λ k ih.
    elim (ℕ_discrete k 0) [
      | yes e ↦ rw e
      | no e ↦ omega (arith, bit_and_digit k 0, ih (k / 2) (omega arith))
    ]

nibble : (a : ℕ) → bit_and a 15 ≡ a % 16
nibble a = omega (
  arith,
  bit_and_digit a 15,
  bit_and_digit (a / 2) 7,
  bit_and_digit (a / 2 / 2) 3,
  bit_and_digit (a / 2 / 2 / 2) 1,
  bit_and-zero (a / 2 / 2 / 2 / 2),
)

low_byte : (a : ℕ) → bit_and a 255 ≡ a % 256
low_byte a = omega (
  arith,
  bit_and_digit a 255,
  bit_and_digit (a / 2) 127,
  bit_and_digit (a / 2 / 2) 63,
  bit_and_digit (a / 2 / 2 / 2) 31,
  nibble (a / 2 / 2 / 2 / 2),
)

pub bit_and_byte : (k a : ℕ) → bit_and a (255 * 2 ^ k) ≡ a / 2 ^ k % 256 * 2 ^ k
bit_and_byte zero a = omega (arith, low_byte a)
bit_and_byte (suc k) a =
    let half : 255 * 2 ^ suc k / 2 ≡ 255 * 2 ^ k = omega (arith, double_pow 255 k) in
    let quot : a / 2 ^ suc k ≡ a / 2 / 2 ^ k =
      rw (pow-suc 2 k, mul_comm (2 ^ k) 2) (sym (div-div-eq-div-mul a 2 (2 ^ k))) in
    omega (
      arith,
      bit_and_digit a (255 * 2 ^ suc k),
      ap (bit_and (a / 2)) half,
      bit_and_byte k (a / 2),
      double_pow 255 k,
      double_pow (a / 2 / 2 ^ k % 256) k,
      ap (λ (t : ℕ). t % 256 * 2 ^ suc k) quot,
    )
