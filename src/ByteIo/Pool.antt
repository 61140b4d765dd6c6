-- ===== src/ByteIo/Pool.antt =====
-- `StringPool` of libs/engine/io/cache/byte_io.h. The `unordered_map` is an association list, the
-- newest entry first.
use bravo_finder.Prelude.{
  ℕ, ◌%◌, ◌^◌, List, [], ◌∷◌, ◌++◌, Option, none, some, length, if◌then◌else◌, Bytes, bytes_eq,
}

-- The offset and the length of a string in the blob.
pub record Ref : Type 0 where
  pub offset : ℕ
  pub len : ℕ

pub record StringPool : Type 0 where
  pub blob : Bytes
  pub interned : List (Bytes × Ref)

unfoldable pub find_ref : Bytes → List (Bytes × Ref) → Option Ref
unfolding bytes_eq
find_ref s [] = none
find_ref s ((t, ref) ∷ m) = if bytes_eq t s then some ref else find_ref s m

unfoldable pub no_strings : StringPool
no_strings = record { blob = []; interned = [] }

unfoldable pub intern : Bytes → StringPool → Option Ref → Ref × StringPool
intern s p (some ref) = (ref, p)
intern s p none =
    let ref : Ref = record { offset = length p.blob % 2 ^ 32; len = length s % 2 ^ 32 } in
    (ref, record { blob = p.blob ++ s; interned = (s, ref) ∷ p.interned })

-- `try_emplace`, and on a new string the append to the blob.
unfoldable pub add : Bytes → StringPool → Ref × StringPool
unfolding intern
add s p = intern s p (find_ref s p.interned)
