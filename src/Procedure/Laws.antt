-- ===== src/Procedure/Laws.antt =====
-- Round trips and normal forms of the procedure parsers.
use bravo_finder.Prelude.{
  ℕ, ◌≡◌, ◌⊎◌, ◌↔◌, bytes_of, refl, sym, ap, ◌∙◌, inl, inr, true, false, List, [], ◌∷◌, All, Bytes,
  bytes_eq, bytes_eq→eq, Bool-cases, arith,
}
use bravo_finder.Prelude.Int.{ℤ, pos, pos_part, neg_part, eqb_ℤ, ◌≤ℤ◌, ≤ℤ_total, eq_of_parts}
use bravo_finder.Graph.Constraints.{starts_with}
use bravo_finder.Procedure.{
  PathTerminator, tokens, first_token, parse_path_terminator, path_terminator_name,
  AltConstraintKind, AltitudeConstraint, parse_alt_constraint, normalize_runway_ident,
  approach_runway_from_name, runway_prefix, is_upper, is_digit,
}

abbrev pub Leaves : AltConstraintKind → ℤ → ℤ → ℤ → Type 0
Leaves AltConstraintKind.unrestricted a b x = Unit {0}
Leaves AltConstraintKind.at a b x = x ≡ a
Leaves AltConstraintKind.at_or_above a b x = a ≤ℤ x
Leaves AltConstraintKind.at_or_below a b x = x ≤ℤ a
Leaves AltConstraintKind.between a b x = (b ≤ℤ x) × (x ≤ℤ a)

abbrev IsNamed : Bytes × PathTerminator → Type 0
IsNamed e = path_terminator_name e.1 ≡ e.0

tokens-IsNamed : All IsNamed tokens
unfolding tokens path_terminator_name
tokens-IsNamed = (
  refl,
  (
    refl,
    (
      refl,
      (
        refl,
        (
          refl,
          (
            refl,
            (
              refl,
              (
                refl,
                (
                  refl,
                  (
                    refl,
                    (
                      refl,
                      (
                        refl,
                        (
                          refl,
                          (
                            refl,
                            (
                              refl,
                              (refl, (refl, (refl, (refl, (refl, (refl, (refl, (refl, tt)))))))),
                            ),
                          ),
                        ),
                      ),
                    ),
                  ),
                ),
              ),
            ),
          ),
        ),
      ),
    ),
  ),
)

first_token-IsNamed :
    (token : Bytes) (table : List (Bytes × PathTerminator))
    → All IsNamed table
    → (path_terminator_name (first_token token table) ≡ token)
      ⊎ (first_token token table ≡ PathTerminator.leg_unknown)
unfolding first_token
first_token-IsNamed token [] h = inr refl
first_token-IsNamed token ((name, t) ∷ rest) h = elim (Bool-cases (bytes_eq token name)) [
  | inl hit ↦ rw hit (inl (h.0 ∙ sym (bytes_eq→eq token name hit)))
  | inr miss ↦ rw miss (first_token-IsNamed token rest h.1)
]

parse-name : (t : PathTerminator) → parse_path_terminator (path_terminator_name t) ≡ t
unfolding parse_path_terminator first_token tokens path_terminator_name bytes_eq
parse-name PathTerminator.leg_tf = refl
parse-name PathTerminator.leg_if = refl
parse-name PathTerminator.leg_df = refl
parse-name PathTerminator.leg_cf = refl
parse-name PathTerminator.leg_af = refl
parse-name PathTerminator.leg_rf = refl
parse-name PathTerminator.leg_ca = refl
parse-name PathTerminator.leg_fa = refl
parse-name PathTerminator.leg_va = refl
parse-name PathTerminator.leg_ha = refl
parse-name PathTerminator.leg_cd = refl
parse-name PathTerminator.leg_fd = refl
parse-name PathTerminator.leg_vd = refl
parse-name PathTerminator.leg_ci = refl
parse-name PathTerminator.leg_vi = refl
parse-name PathTerminator.leg_cr = refl
parse-name PathTerminator.leg_vr = refl
parse-name PathTerminator.leg_fc = refl
parse-name PathTerminator.leg_fm = refl
parse-name PathTerminator.leg_vm = refl
parse-name PathTerminator.leg_pi = refl
parse-name PathTerminator.leg_hm = refl
parse-name PathTerminator.leg_hf = refl
parse-name PathTerminator.leg_unknown = refl

-- Every path terminator is parsed back from its name, and a token that is parsed as any terminator
-- but the unknown one is that terminator's name.
pub parse_path_terminator-path_terminator_name :
    (t : PathTerminator) (token : Bytes)
    → (parse_path_terminator (path_terminator_name t) ≡ t)
      × ((path_terminator_name (parse_path_terminator token) ≡ token)
          ⊎ (parse_path_terminator token ≡ PathTerminator.leg_unknown))
parse_path_terminator-path_terminator_name t token =
    (parse-name t, unfold parse_path_terminator in first_token-IsNamed token tokens tokens-IsNamed)

-- The altitudes that a constraint leaves, by what procedure.h says of its kinds.
abbrev pub Permits : AltitudeConstraint → ℤ → Type 0
Permits ac alt = Leaves ac.kind ac.alt1_ft ac.alt2_ft alt

-- At two altitudes that are not 0: '@' permits the first altitude and no other, and what both '+' and
-- '-' permit; each altitude is permitted by '+' or by '-'; and 'B' permits what both '-', of the first
-- altitude, and 'C', of the second, permit. H, J and V mean what '+' does, Y what '-' does, and G, I, X,
-- a blank and no descriptor what '@' does, whatever follows the descriptor.
pub parse_alt_constraint_meets :
    (alt1 alt2 alt : ℤ) (rest : Bytes)
    → eqb_ℤ alt1 (pos 0) ≡ false
    → eqb_ℤ alt2 (pos 0) ≡ false
    → let parsed = λ (desc : Bytes). parse_alt_constraint desc alt1 alt2 in
      (Permits (parsed (bytes_of "@")) alt ↔ (alt ≡ alt1))
      × (Permits (parsed (bytes_of "@")) alt
          ↔ (Permits (parsed (bytes_of "+")) alt × Permits (parsed (bytes_of "-")) alt))
      × (Permits (parsed (bytes_of "+")) alt ⊎ Permits (parsed (bytes_of "-")) alt)
      × (Permits (parsed (bytes_of "B")) alt
          ↔ (Permits (parsed (bytes_of "-")) alt × Permits (parsed (bytes_of "C")) alt))
      × All (λ d. parsed (d ∷ rest) ≡ parsed (bytes_of "+")) (bytes_of "HJV")
      × (parsed (89 ∷ rest) ≡ parsed (bytes_of "-"))
      × (parsed [] ≡ parsed (bytes_of "@"))
      × All (λ d. parsed (d ∷ rest) ≡ parsed (bytes_of "@")) (bytes_of "GIX ")
unfolding parse_alt_constraint
parse_alt_constraint_meets alt1 alt2 alt rest first second = (
  rw first ((λ e. e), (λ e. e)),
  rw first (
    (λ e.
        (omega (arith, ap pos_part e, ap neg_part e), omega (arith, ap pos_part e, ap neg_part e))),
    (λ h. eq_of_parts alt alt1 (omega (arith, h.0, h.1))),
  ),
  rw first (≤ℤ_total alt1 alt),
  rw (first, second) ((λ h. (h.1, h.0)), (λ h. (h.1, h.0))),
  (refl, (refl, (refl, tt))),
  refl,
  refl,
  (refl, (refl, (refl, (refl, tt)))),
)

normalize_prefixed : (s : Bytes) → starts_with s runway_prefix ≡ true → normalize_runway_ident s ≡ s
unfolding normalize_runway_ident
normalize_prefixed [] h = refl
normalize_prefixed (c ∷ s) h = rw h refl

normalize_bare :
    (c : ℕ) (s : Bytes)
    → starts_with (c ∷ s) runway_prefix ≡ false
    → normalize_runway_ident (c ∷ s) ≡ 82 ∷ 87 ∷ c ∷ s
unfolding normalize_runway_ident
normalize_bare c s h = rw h refl

prefixed : (s : Bytes) → starts_with (82 ∷ 87 ∷ s) runway_prefix ≡ true
unfolding starts_with
prefixed s = refl

normalize_twice :
    (s : Bytes) → normalize_runway_ident (normalize_runway_ident s) ≡ normalize_runway_ident s
normalize_twice [] = unfold normalize_runway_ident in refl
normalize_twice (c ∷ s) = elim (Bool-cases (starts_with (c ∷ s) runway_prefix)) [
  | inl hit ↦ ap normalize_runway_ident (normalize_prefixed (c ∷ s) hit)
  | inr miss ↦
      let e = normalize_bare c s miss in
      ap normalize_runway_ident e ∙ normalize_prefixed (82 ∷ 87 ∷ c ∷ s) (prefixed (c ∷ s)) ∙ sym e
]

normalize_named :
    (s : Bytes) → normalize_runway_ident (approach_runway_from_name s) ≡ approach_runway_from_name s
unfolding approach_runway_from_name
normalize_named [] = unfold normalize_runway_ident in refl
normalize_named (a ∷ []) = unfold normalize_runway_ident in refl
normalize_named (a ∷ b ∷ cs) =
    let nothing : normalize_runway_ident [] ≡ [] = unfold normalize_runway_ident in refl in
    elim (Bool-cases (is_upper a)) [
      | inr low ↦ rw low nothing
      | inl upper ↦ elim (Bool-cases (is_digit b)) [
        | inr other ↦ rw (upper, other) nothing
        | inl digit ↦ rw (upper, digit) (normalize_prefixed (82 ∷ 87 ∷ _) (prefixed _))
      ]
    ]

-- Normalizing a runway a second time changes nothing, and a runway that is taken from an approach's
-- name is normal.
pub normalize_runway_ident_fixes :
    (rwy name : Bytes)
    → (normalize_runway_ident (normalize_runway_ident rwy) ≡ normalize_runway_ident rwy)
      × (normalize_runway_ident (approach_runway_from_name name) ≡ approach_runway_from_name name)
normalize_runway_ident_fixes rwy name = (normalize_twice rwy, normalize_named name)
