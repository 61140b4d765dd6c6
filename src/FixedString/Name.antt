-- ===== src/FixedString/Name.antt =====
-- `FixedName<N>` of libs/engine/core/domain/fixed_string.h, for every `N`; its capacity is `N - 1`.
pub mod Laws
use bravo_finder.Prelude.{
  ℕ, ◌-◌, ◌%◌, Bool, true, false, not, ◌&&◌, ltb, ◌==◌, length, take, replicate, min, if◌then◌else◌,
  Bytes,
}
use bravo_finder.Result.{Result, ok, err, invalid_argument, name_too_long}
use bravo_finder.FixedString.Memory.{memcmp, memcpy, ne_zero, lt_zero}

-- `text_` has `N - 1` bytes.
pub record FixedName : Type 0 where
  pub text : Bytes
  pub len : ℕ

unfoldable pub view : FixedName → Bytes
view f = take f.len f.text

unfoldable pub name_lt : FixedName → FixedName → Bool
name_lt f o =
    let c = memcmp (min f.len o.len) f.text o.text in
    if ne_zero c then lt_zero c else ltb f.len o.len

unfoldable pub name_eq : FixedName → FixedName → Bool
name_eq f o = f.len == o.len && not (ne_zero (memcmp f.len f.text o.text))

unfoldable pub from : ℕ → Bytes → Result FixedName
from n s =
    let cap = n - 1 in
    if ltb cap (length s)
    then err (record { code = invalid_argument; message = name_too_long s (length s) cap })
    else ok (record { text = memcpy (replicate cap 0) s; len = length s % 256 })
