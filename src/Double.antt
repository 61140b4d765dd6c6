-- ===== src/Double.antt =====
-- The floating-point arithmetic of the C++ code, which is not under the repository: `double` with
-- the operators and the functions of <cmath> that the engine uses. A `float` is a `double` that has
-- been rounded before. The laws that a theorem needs are its hypotheses.
use bravo_finder.Prelude.{ℕ, Bool, true, false}
use bravo_finder.Prelude.Int.{ℤ, pos, negsuc}

pub record Double : Type 1 where
  pub Carrier : Type 0
  -- The literal `m * 10 ^ -k`.
  pub lit : ℤ → ℕ → Carrier
  pub infinity : Carrier
  pub add : Carrier → Carrier → Carrier
  pub sub : Carrier → Carrier → Carrier
  pub mul : Carrier → Carrier → Carrier
  pub div : Carrier → Carrier → Carrier
  pub abs : Carrier → Carrier
  pub sqrt : Carrier → Carrier
  pub sin : Carrier → Carrier
  pub cos : Carrier → Carrier
  pub atan2 : Carrier → Carrier → Carrier
  -- `a == b`, `a < b` and `a <= b`.
  pub eq : Carrier → Carrier → Bool
  pub lt : Carrier → Carrier → Bool
  pub le : Carrier → Carrier → Bool

-- `std::max(a, b)`.
unfoldable pub max_of : (D : Double) → D.Carrier → D.Carrier → D.Carrier
max_of D a b = elim (D.lt a b) [ true ↦ b | false ↦ a ]

abbrev pub zero_of : (D : Double) → D.Carrier
zero_of D = D.lit (pos 0) 0

-- The sentinel `-1.0` of sentinels.h for a heading that is not known.
abbrev pub no_bearing : (D : Double) → D.Carrier
no_bearing D = D.lit (negsuc 0) 0
