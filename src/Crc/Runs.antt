-- ===== src/Crc/Runs.antt =====
-- The check value of CRC-32C: that of the text 123456789.
use bravo_finder.Prelude.{◌<◌, ◌^◌, ◌≡◌, refl, ◌++◌, Bytes, bytes_of, arith}
use bravo_finder.Crc.{update, compute}
use bravo_finder.Crc.Parts.{update-append}

abbrev check_text : Bytes
check_text = bytes_of "123456789"

checked : compute check_text ≡ 0xE3069283
unfolding compute update bravo_finder.Crc.fold_bytes bravo_finder.Crc.table_entry
    bravo_finder.Crc.table_rounds bravo_finder.Crc.table_round
checked = refl

update-append_example :
    (update (update 0 (bytes_of "1234")) (bytes_of "56789")
      ≡ update 0 (bytes_of "1234" ++ bytes_of "56789"))
    × (update 0 (bytes_of "1234") < 2 ^ 32)
update-append_example = update-append 0 (bytes_of "1234") (bytes_of "56789") (omega arith)
