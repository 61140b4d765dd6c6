-- ===== src/ByteIo/Failures.antt =====
-- Reads that fail, and the reads that follow them.
use bravo_finder.Prelude.{ℕ, ◌+◌, ◌^◌, ◌<◌, ◌≡◌, false, none, length, get_or, arith}
use bravo_finder.ByteIo.Reader.{ByteReader, past_end, read_u8, read_bytes}
use bravo_finder.ByteIo.Safety.{IsSane}

-- A bulk read of fewer than 2 ^ 63 bytes that would pass the end, of a reader inside its buffer with
-- a byte at the cursor, copies nothing, and the next single read is not stopped by the error: it
-- returns the byte at the cursor and moves on by one, with the error still set.
pub read_u8-read_bytes_failed :
    (n : ℕ) (r : ByteReader)
    → IsSane r
    → length r.bytes < r.pos + n
    → n < 2 ^ 63
    → r.pos < length r.bytes
    → ((read_bytes n r).0 ≡ none)
      × (read_u8 (read_bytes n r).1
          ≡ (get_or r.bytes r.pos 0, record r { pos = r.pos + 1; ok = false }))
unfolding read_bytes read_u8 past_end
read_u8-read_bytes_failed n r s past small here = ground (arith, s.inside, s.small)
