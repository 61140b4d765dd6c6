-- ===== src/Crc.antt =====
-- CRC-32C of libs/engine/io/cache/crc32c.h. The table is the function that fills it.
pub mod Parts
pub mod Runs
use bravo_finder.Prelude.{
  ℕ, zero, suc, ◌+◌, ◌*◌, ◌/◌, ◌%◌, ◌^◌, List, [], ◌∷◌, bit_and, bit_xor, ◌==◌, if◌then◌else◌,
  Bytes,
}

abbrev pub poly : ℕ
poly = 0x82F63B78

abbrev pub ones : ℕ
ones = 0xFFFFFFFF

unfoldable pub table_round : ℕ → ℕ
table_round c = if bit_and c 1 == 0 then c / 2 ^ 1 else bit_xor poly (c / 2 ^ 1)

unfoldable pub table_rounds : ℕ → ℕ → ℕ
unfolding table_round
table_rounds zero c = c
table_rounds (suc k) c = table_rounds k (table_round c)

-- `kTable[i]`.
unfoldable pub table_entry : ℕ → ℕ
unfolding table_rounds
table_entry i = table_rounds 8 i

unfoldable pub fold_bytes : ℕ → Bytes → ℕ
unfolding table_entry
fold_bytes c [] = c
fold_bytes c (b ∷ bs) =
    fold_bytes (bit_xor (table_entry (bit_and (bit_xor c b) 0xFF)) (c / 2 ^ 8)) bs

unfoldable pub update : ℕ → Bytes → ℕ
unfolding fold_bytes
update crc bytes = bit_xor (fold_bytes (bit_xor crc ones) bytes) ones

unfoldable pub compute : Bytes → ℕ
unfolding update
compute bytes = update 0 bytes
