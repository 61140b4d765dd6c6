-- ===== src/Procedure.antt =====
-- libs/engine/core/domain/procedure.h and procedure.cc: path terminators, altitude constraints and
-- runway names of published procedures. A character is its ASCII code.
pub mod Laws
mod Runs
use bravo_finder.Prelude.{
  ℕ, zero, suc, ◌≡◌, Bool, true, false, not, ◌&&◌, ◌||◌, List, [], ◌∷◌, ◌++◌, leb, ◌==◌,
  if◌then◌else◌, Bytes, bytes_eq,
}
use bravo_finder.Prelude.Int.{ℤ, pos, eqb_ℤ}
use bravo_finder.Graph.Constraints.{starts_with}

pub data PathTerminator : Type 0 where
  leg_tf leg_if leg_df leg_cf leg_af leg_rf leg_ca leg_fa leg_va leg_ha leg_cd leg_fd :
      PathTerminator
  leg_vd leg_ci leg_vi leg_cr leg_vr leg_fc leg_fm leg_vm leg_pi leg_hm leg_hf leg_unknown :
      PathTerminator

unfoldable pub terminates_at_fix : PathTerminator → Bool
terminates_at_fix leg_tf = true
terminates_at_fix leg_if = true
terminates_at_fix leg_df = true
terminates_at_fix leg_cf = true
terminates_at_fix leg_af = true
terminates_at_fix leg_rf = true
terminates_at_fix leg_ca = false
terminates_at_fix leg_fa = false
terminates_at_fix leg_va = false
terminates_at_fix leg_ha = false
terminates_at_fix leg_cd = false
terminates_at_fix leg_fd = false
terminates_at_fix leg_vd = false
terminates_at_fix leg_ci = false
terminates_at_fix leg_vi = false
terminates_at_fix leg_cr = false
terminates_at_fix leg_vr = false
terminates_at_fix leg_fc = false
terminates_at_fix leg_fm = false
terminates_at_fix leg_vm = false
terminates_at_fix leg_pi = false
terminates_at_fix leg_hm = false
terminates_at_fix leg_hf = true
terminates_at_fix leg_unknown = false

-- The comparisons of `ParsePathTerminator`, in their order.
unfoldable pub tokens : List (Bytes × PathTerminator)
tokens =
    (84 ∷ 70 ∷ [], leg_tf)
    ∷ (73 ∷ 70 ∷ [], leg_if)
    ∷ (68 ∷ 70 ∷ [], leg_df)
    ∷ (67 ∷ 70 ∷ [], leg_cf)
    ∷ (65 ∷ 70 ∷ [], leg_af)
    ∷ (82 ∷ 70 ∷ [], leg_rf)
    ∷ (67 ∷ 65 ∷ [], leg_ca)
    ∷ (70 ∷ 65 ∷ [], leg_fa)
    ∷ (86 ∷ 65 ∷ [], leg_va)
    ∷ (72 ∷ 65 ∷ [], leg_ha)
    ∷ (67 ∷ 68 ∷ [], leg_cd)
    ∷ (70 ∷ 68 ∷ [], leg_fd)
    ∷ (86 ∷ 68 ∷ [], leg_vd)
    ∷ (67 ∷ 73 ∷ [], leg_ci)
    ∷ (86 ∷ 73 ∷ [], leg_vi)
    ∷ (67 ∷ 82 ∷ [], leg_cr)
    ∷ (86 ∷ 82 ∷ [], leg_vr)
    ∷ (70 ∷ 67 ∷ [], leg_fc)
    ∷ (70 ∷ 77 ∷ [], leg_fm)
    ∷ (86 ∷ 77 ∷ [], leg_vm)
    ∷ (80 ∷ 73 ∷ [], leg_pi)
    ∷ (72 ∷ 77 ∷ [], leg_hm)
    ∷ (72 ∷ 70 ∷ [], leg_hf)
    ∷ []

unfoldable pub first_token : Bytes → List (Bytes × PathTerminator) → PathTerminator
first_token token [] = leg_unknown
first_token token ((name, t) ∷ rest) = if bytes_eq token name then t else first_token token rest

unfoldable pub parse_path_terminator : Bytes → PathTerminator
unfolding first_token tokens
parse_path_terminator token = first_token token tokens

unfoldable pub path_terminator_name : PathTerminator → Bytes
path_terminator_name leg_tf = 84 ∷ 70 ∷ []
path_terminator_name leg_if = 73 ∷ 70 ∷ []
path_terminator_name leg_df = 68 ∷ 70 ∷ []
path_terminator_name leg_cf = 67 ∷ 70 ∷ []
path_terminator_name leg_af = 65 ∷ 70 ∷ []
path_terminator_name leg_rf = 82 ∷ 70 ∷ []
path_terminator_name leg_ca = 67 ∷ 65 ∷ []
path_terminator_name leg_fa = 70 ∷ 65 ∷ []
path_terminator_name leg_va = 86 ∷ 65 ∷ []
path_terminator_name leg_ha = 72 ∷ 65 ∷ []
path_terminator_name leg_cd = 67 ∷ 68 ∷ []
path_terminator_name leg_fd = 70 ∷ 68 ∷ []
path_terminator_name leg_vd = 86 ∷ 68 ∷ []
path_terminator_name leg_ci = 67 ∷ 73 ∷ []
path_terminator_name leg_vi = 86 ∷ 73 ∷ []
path_terminator_name leg_cr = 67 ∷ 82 ∷ []
path_terminator_name leg_vr = 86 ∷ 82 ∷ []
path_terminator_name leg_fc = 70 ∷ 67 ∷ []
path_terminator_name leg_fm = 70 ∷ 77 ∷ []
path_terminator_name leg_vm = 86 ∷ 77 ∷ []
path_terminator_name leg_pi = 80 ∷ 73 ∷ []
path_terminator_name leg_hm = 72 ∷ 77 ∷ []
path_terminator_name leg_hf = 72 ∷ 70 ∷ []
path_terminator_name leg_unknown = 63 ∷ 63 ∷ []

pub data AltConstraintKind : Type 0 where
  unrestricted at at_or_above at_or_below between : AltConstraintKind

pub record AltitudeConstraint : Type 0 where
  pub kind : AltConstraintKind
  pub alt1_ft : ℤ
  pub alt2_ft : ℤ

abbrev pub no_constraint : AltitudeConstraint
no_constraint = record { kind = AltConstraintKind.unrestricted; alt1_ft = pos 0; alt2_ft = pos 0 }

-- `desc.empty() ? ' ' : desc.front()`.
unfoldable pub descriptor : Bytes → ℕ
descriptor [] = 32
descriptor (d ∷ ds) = d

-- The kind of a descriptor that leaves the switch by `break`: '+', 'H', 'J', 'V'; '-', 'Y'; others.
unfoldable pub single_kind : ℕ → AltConstraintKind
single_kind d =
    if d == 43 || (d == 72 || (d == 74 || d == 86))
    then AltConstraintKind.at_or_above
    else if d == 45 || d == 89
    then AltConstraintKind.at_or_below
    else AltConstraintKind.at

-- 66 is 'B' and 67 is 'C'.
unfoldable pub parse_alt_constraint : Bytes → ℤ → ℤ → AltitudeConstraint
unfolding single_kind descriptor
parse_alt_constraint desc alt1 alt2 =
    let d = descriptor desc in
    if d == 66
    then record { kind = AltConstraintKind.between; alt1_ft = alt1; alt2_ft = alt2 }
    else if d == 67
    then (if eqb_ℤ alt2 (pos 0)
        then no_constraint
        else record { kind = AltConstraintKind.at_or_above; alt1_ft = alt2; alt2_ft = pos 0 })
    else if eqb_ℤ alt1 (pos 0)
    then no_constraint
    else record { kind = single_kind d; alt1_ft = alt1; alt2_ft = pos 0 }

-- The fourth column of the descriptor, padded with blanks, is 'M'.
unfoldable pub is_mapt_desc : Bytes → Bool
is_mapt_desc (a ∷ b ∷ c ∷ d ∷ rest) = d == 77
is_mapt_desc _ = false

-- "RW"
abbrev pub runway_prefix : Bytes
runway_prefix = 82 ∷ 87 ∷ []

unfoldable pub normalize_runway_ident : Bytes → Bytes
unfolding starts_with
normalize_runway_ident [] = []
normalize_runway_ident (c ∷ rwy) =
    if starts_with (c ∷ rwy) runway_prefix then c ∷ rwy else runway_prefix ++ (c ∷ rwy)

-- `isupper` and `isdigit` of the C locale.
unfoldable pub is_upper : ℕ → Bool
is_upper c = leb 65 c && leb c 90

unfoldable pub is_digit : ℕ → Bool
is_digit c = leb 48 c && leb c 57

-- 'L', 'R' or 'C' at the front, which is where the digits end.
unfoldable pub runway_suffix : Bytes → Bytes
runway_suffix [] = []
runway_suffix (c ∷ cs) = if c == 76 || (c == 82 || c == 67) then c ∷ [] else []

-- The digits from the name's second character on, two at most, and then the suffix.
unfoldable pub digits_and_suffix : ℕ → Bytes → Bytes
unfolding is_digit runway_suffix
digits_and_suffix zero cs = runway_suffix cs
digits_and_suffix (suc n) [] = []
digits_and_suffix (suc n) (c ∷ cs) =
    let rest = digits_and_suffix n cs in if is_digit c then c ∷ rest else runway_suffix (c ∷ cs)

unfoldable pub approach_runway_from_name : Bytes → Bytes
unfolding is_upper is_digit digits_and_suffix
approach_runway_from_name [] = []
approach_runway_from_name (a ∷ []) = []
approach_runway_from_name (a ∷ b ∷ cs) =
    if not (is_upper a)
    then []
    else if not (is_digit b)
    then []
    else runway_prefix ++ digits_and_suffix 2 (b ∷ cs)
