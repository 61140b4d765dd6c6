-- ===== src/ByteIo.antt =====
-- libs/engine/io/cache/byte_io.h: little-endian serialization, and the string pool.
-- A byte buffer is the list of its bytes. A float is its IEEE-754 bit pattern, which is all that
-- this code ever does with one; `size_t` is 64 bits wide.
mod Runs
pub mod Writer
pub mod Reader
pub mod Pool
pub mod Cursor
pub mod RoundTrip
pub mod Sequences
pub mod Safety
pub mod Spans
pub mod Interning
pub mod Failures
