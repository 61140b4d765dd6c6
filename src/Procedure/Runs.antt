-- ===== src/Procedure/Runs.antt =====
-- The procedure parsers of libs/engine/core/domain/procedure.cc at concrete texts.
use bravo_finder.Prelude.{◌≡◌, ◌⊎◌, ◌↔◌, refl, All, bytes_of, arith, [], ◌∷◌, Bytes}
use bravo_finder.Prelude.Int.{pos}
use bravo_finder.Procedure.{
  PathTerminator, parse_path_terminator, path_terminator_name, parse_alt_constraint,
  normalize_runway_ident, approach_runway_from_name,
}
use bravo_finder.Procedure.Laws.{
  parse_path_terminator-path_terminator_name, parse_alt_constraint_meets, Permits,
  normalize_runway_ident_fixes,
}

-- "R08LZ"
abbrev approach : Bytes
approach = 82 ∷ 48 ∷ 56 ∷ 76 ∷ 90 ∷ []

-- "RW08L"
approach_runway : approach_runway_from_name approach ≡ 82 ∷ 87 ∷ 48 ∷ 56 ∷ 76 ∷ []
unfolding approach_runway_from_name
approach_runway = refl

parse_path_terminator-path_terminator_name_example :
    (parse_path_terminator (path_terminator_name PathTerminator.leg_tf) ≡ PathTerminator.leg_tf)
    × ((path_terminator_name (parse_path_terminator (82 ∷ 70 ∷ [])) ≡ 82 ∷ 70 ∷ [])
        ⊎ (parse_path_terminator (82 ∷ 70 ∷ []) ≡ PathTerminator.leg_unknown))
parse_path_terminator-path_terminator_name_example =
    parse_path_terminator-path_terminator_name PathTerminator.leg_tf (82 ∷ 70 ∷ [])

parse_alt_constraint_meets_example :
    let parsed = λ (desc : Bytes). parse_alt_constraint desc (pos 9000) (pos 5000) in
    (Permits (parsed (bytes_of "@")) (pos 7000) ↔ (pos 7000 ≡ pos 9000))
    × (Permits (parsed (bytes_of "@")) (pos 7000)
        ↔ (Permits (parsed (bytes_of "+")) (pos 7000) × Permits (parsed (bytes_of "-")) (pos 7000)))
    × (Permits (parsed (bytes_of "+")) (pos 7000) ⊎ Permits (parsed (bytes_of "-")) (pos 7000))
    × (Permits (parsed (bytes_of "B")) (pos 7000)
        ↔ (Permits (parsed (bytes_of "-")) (pos 7000) × Permits (parsed (bytes_of "C")) (pos 7000)))
    × All (λ d. parsed (d ∷ []) ≡ parsed (bytes_of "+")) (bytes_of "HJV")
    × (parsed (89 ∷ []) ≡ parsed (bytes_of "-"))
    × (parsed [] ≡ parsed (bytes_of "@"))
    × All (λ d. parsed (d ∷ []) ≡ parsed (bytes_of "@")) (bytes_of "GIX ")
parse_alt_constraint_meets_example =
    parse_alt_constraint_meets (pos 9000) (pos 5000) (pos 7000) [] refl refl

-- Between 9000 and 5000 feet, 7000 is permitted.
in_band : Permits (parse_alt_constraint (bytes_of "B") (pos 9000) (pos 5000)) (pos 7000)
unfolding parse_alt_constraint
in_band = (omega arith, omega arith)

normalize_runway_ident_fixes_example :
    (normalize_runway_ident (normalize_runway_ident (48 ∷ 56 ∷ []))
      ≡ normalize_runway_ident (48 ∷ 56 ∷ []))
    × (normalize_runway_ident (approach_runway_from_name approach)
        ≡ approach_runway_from_name approach)
normalize_runway_ident_fixes_example = normalize_runway_ident_fixes (48 ∷ 56 ∷ []) approach
