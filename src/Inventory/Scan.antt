-- ===== src/Inventory/Scan.antt =====
-- `BfdbInventory` of libs/engine/io/cache/bfdb_inventory.cc. The files of the directory and the cycle
-- in a file's header are parameters: `ListFiles` and `UnifiedCache::ReadHeader` read the disk. The
-- map by cycle is a list of entries with one for each cycle, in no order until the sort.
use bravo_finder.Prelude.{
  ℕ, Bool, not, ◌&&◌, List, [], ◌∷◌, ◌++◌, Option, none, some, ltb, ◌==◌, if◌then◌else◌, Bytes,
  bytes_eq,
}
use bravo_finder.Inventory.Naming.{format_bfdb_name, filename, parse_bfdb_name}

pub record BfdbEntry : Type 0 where
  pub path : Bytes
  pub cycle : ℕ

pub record BfdbInventory : Type 0 where
  pub entries : List BfdbEntry
  pub discarded : List BfdbEntry
  pub skipped : List Bytes

unfoldable pub canonical : BfdbEntry → Bool
canonical e = bytes_eq (filename e.path) (format_bfdb_name e.cycle)

-- `best.find(cycle)`.
unfoldable pub find_cycle : ℕ → List BfdbEntry → Option BfdbEntry
find_cycle cycle [] = none
find_cycle cycle (b ∷ best) = if b.cycle == cycle then some b else find_cycle cycle best

-- `found->second = entry`.
unfoldable pub replace_cycle : BfdbEntry → List BfdbEntry → List BfdbEntry
replace_cycle entry [] = []
replace_cycle entry (b ∷ best) =
    let rest = replace_cycle entry best in if b.cycle == entry.cycle then entry ∷ best else b ∷ rest

-- An entry against the one that was found for its cycle. `entries` holds `best` during the scan.
unfoldable pub admit : BfdbEntry → Option BfdbEntry → BfdbInventory → BfdbInventory
unfolding canonical replace_cycle
admit entry none inv = record inv { entries = entry ∷ inv.entries }
admit entry (some found) inv =
    if canonical entry && not (canonical found)
    then record inv {
      entries = replace_cycle entry inv.entries;
      discarded = inv.discarded ++ (found ∷ []);
    }
    else record inv { discarded = inv.discarded ++ (entry ∷ []) }

-- One file, with the cycle of its header.
unfoldable pub scan_header : Bytes → Option ℕ → BfdbInventory → BfdbInventory
unfolding find_cycle admit
scan_header path none inv = record inv { skipped = inv.skipped ++ (path ∷ []) }
scan_header path (some cycle) inv =
    admit (record { path = path; cycle = cycle }) (find_cycle cycle inv.entries) inv

unfoldable pub scan_files : (Bytes → Option ℕ) → List Bytes → BfdbInventory → BfdbInventory
unfolding scan_header
scan_files read_header [] inv = inv
scan_files read_header (path ∷ paths) inv = elim (parse_bfdb_name path) [
  | none ↦ scan_files read_header paths inv
  | some _ ↦ scan_files read_header paths (scan_header path (read_header path) inv)
]

-- `std::sort` by cycle.
unfoldable pub insert_entry : BfdbEntry → List BfdbEntry → List BfdbEntry
insert_entry e [] = e ∷ []
insert_entry e (x ∷ xs) =
    let rest = insert_entry e xs in if ltb x.cycle e.cycle then x ∷ rest else e ∷ x ∷ xs

unfoldable pub sort_entries : List BfdbEntry → List BfdbEntry
unfolding insert_entry
sort_entries [] = []
sort_entries (e ∷ es) = insert_entry e (sort_entries es)

unfoldable pub scan : (Bytes → Option ℕ) → List Bytes → BfdbInventory
unfolding scan_files sort_entries
scan read_header files =
    let inv =
      scan_files read_header files (record { entries = []; discarded = []; skipped = [] }) in
    record inv { entries = sort_entries inv.entries }

-- `entries_.back()` of a list that may be empty.
unfoldable pub last_entry : List BfdbEntry → Option BfdbEntry
last_entry [] = none
last_entry (e ∷ []) = some e
last_entry (e ∷ f ∷ es) = last_entry (f ∷ es)

unfoldable pub latest : BfdbInventory → Option BfdbEntry
unfolding last_entry
latest inv = last_entry inv.entries

-- `std::lower_bound` of a list in order of cycle, and the test behind it.
unfoldable pub find_from : ℕ → List BfdbEntry → Option BfdbEntry
find_from cycle [] = none
find_from cycle (e ∷ es) =
    let rest = find_from cycle es in
    if ltb e.cycle cycle then rest else if e.cycle == cycle then some e else none

unfoldable pub find : ℕ → BfdbInventory → Option BfdbEntry
unfolding find_from
find cycle inv = find_from cycle inv.entries
