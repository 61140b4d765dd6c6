-- ===== src/Inventory/Runs.antt =====
-- A directory with a cache under the legacy name and one under the name of their common cycle.
use bravo_finder.Prelude.{
  ℕ, ◌+◌, ◌≡◌, refl, inl, inr, true, List, [], ◌∷◌, ◌++◌, Option, none, some, All, Bytes, bytes_of,
  arith,
}
use bravo_finder.Inventory.Naming.{slash, format_bfdb_name, parse_bfdb_name}
use bravo_finder.Inventory.Names.{parse_bfdb_name-format_bfdb_name}
use bravo_finder.Inventory.Scan.{BfdbEntry, canonical, scan, find, latest}
use bravo_finder.Inventory.Winners.{Sorted}
use bravo_finder.Inventory.Choices.{IsTrue, scan-Sorted, find-scan}

abbrev legacy_path : Bytes
legacy_path = bytes_of "data/nav.bfdb"

abbrev named_path : Bytes
named_path = bytes_of "data/nav_2601.bfdb"

abbrev paths : List Bytes
paths = legacy_path ∷ named_path ∷ bytes_of "data/other.bfdb" ∷ []

-- Both headers say 2601.
abbrev header_cycle : Bytes → Option ℕ
header_cycle path = some 2601

named : parse_bfdb_name named_path ≡ some 2601
unfolding bravo_finder.Inventory.Naming.decimal bravo_finder.Inventory.Naming.format_bfdb_name
    bravo_finder.Inventory.Naming.has_slash bravo_finder.Inventory.Naming.filename
    bravo_finder.Inventory.Naming.parse_cycle bravo_finder.Inventory.Naming.parse_name
    bravo_finder.Inventory.Naming.parse_bfdb_name bravo_finder.Prelude.bytes_eq
named = refl

-- The file named for its cycle is the one that is found.
chosen : find 2601 (scan header_cycle paths) ≡ some (record { path = named_path; cycle = 2601 })
unfolding bravo_finder.Inventory.Naming.decimal bravo_finder.Inventory.Naming.format_bfdb_name
    bravo_finder.Inventory.Naming.has_slash bravo_finder.Inventory.Naming.filename
    bravo_finder.Inventory.Naming.parse_cycle bravo_finder.Inventory.Naming.parse_name
    bravo_finder.Inventory.Naming.parse_bfdb_name bravo_finder.Prelude.bytes_eq
    bravo_finder.Inventory.Scan.canonical bravo_finder.Inventory.Scan.find_cycle
    bravo_finder.Inventory.Scan.replace_cycle bravo_finder.Inventory.Scan.admit
    bravo_finder.Inventory.Scan.scan_header bravo_finder.Inventory.Scan.scan_files
    bravo_finder.Inventory.Scan.insert_entry bravo_finder.Inventory.Scan.sort_entries
    bravo_finder.Inventory.Scan.scan bravo_finder.Inventory.Scan.last_entry
    bravo_finder.Inventory.Scan.latest bravo_finder.Inventory.Scan.find_from
    bravo_finder.Inventory.Scan.find
chosen = refl

newest : latest (scan header_cycle paths) ≡ some (record { path = named_path; cycle = 2601 })
unfolding bravo_finder.Inventory.Naming.decimal bravo_finder.Inventory.Naming.format_bfdb_name
    bravo_finder.Inventory.Naming.has_slash bravo_finder.Inventory.Naming.filename
    bravo_finder.Inventory.Naming.parse_cycle bravo_finder.Inventory.Naming.parse_name
    bravo_finder.Inventory.Naming.parse_bfdb_name bravo_finder.Prelude.bytes_eq
    bravo_finder.Inventory.Scan.canonical bravo_finder.Inventory.Scan.find_cycle
    bravo_finder.Inventory.Scan.replace_cycle bravo_finder.Inventory.Scan.admit
    bravo_finder.Inventory.Scan.scan_header bravo_finder.Inventory.Scan.scan_files
    bravo_finder.Inventory.Scan.insert_entry bravo_finder.Inventory.Scan.sort_entries
    bravo_finder.Inventory.Scan.scan bravo_finder.Inventory.Scan.last_entry
    bravo_finder.Inventory.Scan.latest bravo_finder.Inventory.Scan.find_from
    bravo_finder.Inventory.Scan.find
newest = refl

find-scan_example :
    (e : BfdbEntry) × (find 2601 (scan header_cycle paths) ≡ some e)
    × (e.cycle ≡ 2601)
    × (header_cycle e.path ≡ some 2601)
    × (canonical (record { path = named_path; cycle = 2601 }) ≡ true → canonical e ≡ true)
find-scan_example = find-scan header_cycle 2601 2601 named_path paths (inr (inl refl)) named refl

scan-Sorted_example :
    Sorted (scan header_cycle paths).entries
    × All (IsTrue header_cycle) (scan header_cycle paths).entries
scan-Sorted_example = scan-Sorted header_cycle paths

parse_bfdb_name-format_bfdb_name_example :
    (parse_bfdb_name (format_bfdb_name 2601) ≡ some 2601)
    × (parse_bfdb_name (bytes_of "data" ++ (slash ∷ format_bfdb_name 2601)) ≡ some 2601)
parse_bfdb_name-format_bfdb_name_example =
    parse_bfdb_name-format_bfdb_name (bytes_of "data") 2601 (omega arith)
