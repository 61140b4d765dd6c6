-- ===== src/FixedString/Ident.antt =====
-- `Ident` of libs/engine/core/domain/ident.h and `FixedIdent` of fixed_string.h.
pub mod Laws
use bravo_finder.Prelude.{
  ℕ, ◌%◌, Bool, true, false, not, ◌&&◌, ltb, ◌==◌, length, take, replicate, min, if◌then◌else◌,
  Bytes, bytes_eq,
}
use bravo_finder.Result.{Result, ok, err, invalid_argument, ident_too_long, icao_code_too_long}
use bravo_finder.FixedString.Memory.{memcmp, memcpy, ne_zero, lt_zero}

pub record Ident : Type 0 where
  pub ident : Bytes
  pub arinc424_icao_code : Bytes

unfoldable pub ident_eq : Ident → Ident → Bool
ident_eq a b = bytes_eq a.ident b.ident && bytes_eq a.arinc424_icao_code b.arinc424_icao_code

abbrev pub ident_cap : ℕ
ident_cap = 7

abbrev pub arinc424_icao_code_cap : ℕ
arinc424_icao_code_cap = 3

pub record FixedIdent : Type 0 where
  pub ident : Bytes
  pub arinc424_icao_code : Bytes
  pub ident_len : ℕ
  pub arinc424_icao_code_len : ℕ

unfoldable pub ident_view : FixedIdent → Bytes
ident_view f = take f.ident_len f.ident

unfoldable pub icao_code_view : FixedIdent → Bytes
icao_code_view f = take f.arinc424_icao_code_len f.arinc424_icao_code

unfoldable pub fixed_eq : FixedIdent → FixedIdent → Bool
fixed_eq f o =
    f.ident_len == o.ident_len
    && (f.arinc424_icao_code_len == o.arinc424_icao_code_len
        && (not (ne_zero (memcmp f.ident_len f.ident o.ident))
            && not (
                ne_zero
                  (memcmp f.arinc424_icao_code_len f.arinc424_icao_code o.arinc424_icao_code))))

unfoldable pub fixed_lt : FixedIdent → FixedIdent → Bool
fixed_lt f o =
    let c = memcmp (min f.ident_len o.ident_len) f.ident o.ident in
    let c2 =
      memcmp (min f.arinc424_icao_code_len o.arinc424_icao_code_len) f.arinc424_icao_code
        o.arinc424_icao_code in
    if ne_zero c
    then lt_zero c
    else if not (f.ident_len == o.ident_len)
    then ltb f.ident_len o.ident_len
    else if ne_zero c2
    then lt_zero c2
    else ltb f.arinc424_icao_code_len o.arinc424_icao_code_len

unfoldable pub from_parts : Bytes → Bytes → Result FixedIdent
from_parts id icao =
    if ltb ident_cap (length id)
    then err (record { code = invalid_argument; message = ident_too_long id (length id) ident_cap })
    else if ltb arinc424_icao_code_cap (length icao)
    then err (record {
      code = invalid_argument;
      message = icao_code_too_long icao (length icao) arinc424_icao_code_cap;
    })
    else ok (record {
      ident = memcpy (replicate ident_cap 0) id;
      arinc424_icao_code = memcpy (replicate arinc424_icao_code_cap 0) icao;
      ident_len = length id % 256;
      arinc424_icao_code_len = length icao % 256;
    })

unfoldable pub from_ident : Ident → Result FixedIdent
from_ident id = from_parts id.ident id.arinc424_icao_code

unfoldable pub to_ident : FixedIdent → Ident
to_ident f = record { ident = ident_view f; arinc424_icao_code = icao_code_view f }
