-- ===== src/FixedString.antt =====
-- libs/engine/core/domain/fixed_string.h and ident.h: names packed into arrays of fixed size, with
-- their length behind them. An array of `n` bytes is a list of that length.
mod Runs
pub mod Memory
pub mod Name
pub mod Ident
