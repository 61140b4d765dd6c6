-- ===== src/FixedString/Runs.antt =====
-- The fixed-size names of libs/engine/core/domain/fixed_string.h at concrete texts.
use bravo_finder.Prelude.{◌≤◌, ◌<◌, ◌≡◌, refl, ◌↔◌, ◌⊎◌, true, [], ◌∷◌, length, Bytes, arith}
use bravo_finder.Result.{
  ok, err, invalid_argument, name_too_long, ident_too_long, icao_code_too_long,
}
use bravo_finder.FixedString.Memory.{lex_lt}
use bravo_finder.FixedString.Name.{FixedName, view, from, name_lt, name_eq}
use bravo_finder.FixedString.Name.Laws.{from_total, from-order}
use bravo_finder.FixedString.Name.Laws as NameLaws
use bravo_finder.FixedString.Ident.{Ident, FixedIdent, from_ident, to_ident, fixed_lt, fixed_eq}
use bravo_finder.FixedString.Ident.Laws.{ident_lt, from_ident_total, from_ident-order}
use bravo_finder.FixedString.Ident.Laws as IdentLaws

abbrev runway : Bytes
runway = 82 ∷ 87 ∷ 48 ∷ 56 ∷ []

from_total_example :
    ((length runway ≤ 7)
      × ((f : FixedName) × (from 8 runway ≡ ok f)
          × (view f ≡ runway)
          × (length f.text ≡ 7)
          × NameLaws.IsPacked f))
    ⊎ ((7 < length runway)
        × (from 8 runway
            ≡ err (record {
              code = invalid_argument;
              message = name_too_long runway (length runway) 7;
            })))
from_total_example = from_total 8 runway (omega arith)

abbrev a_text : Bytes
a_text = 65 ∷ []

abbrev ab_text : Bytes
ab_text = 65 ∷ 66 ∷ []

abbrev packed_a : FixedName
packed_a = record { text = 65 ∷ 0 ∷ 0 ∷ []; len = 1 }

abbrev packed_ab : FixedName
packed_ab = record { text = 65 ∷ 66 ∷ 0 ∷ []; len = 2 }

-- A text comes before the texts it begins.
from-order_example :
    (name_lt packed_a packed_ab ≡ lex_lt a_text ab_text)
    × ((name_eq packed_a packed_ab ≡ true) ↔ (a_text ≡ ab_text))
unfolding from bravo_finder.FixedString.Memory.memcpy
from-order_example = from-order 4 a_text ab_text packed_a packed_ab (omega arith) refl refl

abbrev point : Ident
point = record { ident = 65 ∷ 66 ∷ []; arinc424_icao_code = 90 ∷ [] }

abbrev packed_point : FixedIdent
packed_point = record {
  ident = 65 ∷ 66 ∷ 0 ∷ 0 ∷ 0 ∷ 0 ∷ 0 ∷ [];
  arinc424_icao_code = 90 ∷ 0 ∷ 0 ∷ [];
  ident_len = 2;
  arinc424_icao_code_len = 1;
}

from_ident_total_example :
    ((length point.ident ≤ 7)
      × (length point.arinc424_icao_code ≤ 3)
      × ((f : FixedIdent) × (from_ident point ≡ ok f)
          × (to_ident f ≡ point)
          × IdentLaws.IsPacked f))
    ⊎ ((7 < length point.ident)
        × (from_ident point
            ≡ err (record {
              code = invalid_argument;
              message = ident_too_long point.ident (length point.ident) 7;
            })))
    ⊎ ((length point.ident ≤ 7)
        × (3 < length point.arinc424_icao_code)
        × (from_ident point
            ≡ err (record {
              code = invalid_argument;
              message =
                  icao_code_too_long point.arinc424_icao_code (length point.arinc424_icao_code) 3;
            })))
from_ident_total_example = from_ident_total point

from_ident-order_example :
    (fixed_lt packed_point packed_point ≡ ident_lt point point)
    × ((fixed_eq packed_point packed_point ≡ true) ↔ (point ≡ point))
unfolding from_ident bravo_finder.FixedString.Ident.from_parts
    bravo_finder.FixedString.Memory.memcpy
from_ident-order_example = from_ident-order point point packed_point packed_point refl refl
