-- ===== src/Inventory.antt =====
-- The cache files of a directory: names in libs/engine/io/cache/bfdb_naming.cc (Naming), the scan in
-- bfdb_inventory.cc (Scan), and what they keep.
pub mod Naming
pub mod Names
pub mod Scan
pub mod Winners
pub mod Choices
pub mod Runs
