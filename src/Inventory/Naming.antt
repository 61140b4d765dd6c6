-- ===== src/Inventory/Naming.antt =====
-- `FormatBfdbName` and `ParseBfdbName` of libs/engine/io/cache/bfdb_naming.cc. Paths are those of a
-- POSIX system.
use bravo_finder.Prelude.{
  ℕ, zero, suc, ◌+◌, ◌-◌, ◌*◌, ◌/◌, ◌%◌, ◌^◌, Bool, false, not, ◌||◌, [], ◌∷◌, ◌++◌, length, take,
  drop, Option, none, some, ltb, leb, ◌==◌, if◌then◌else◌, Bytes, bytes_of, bytes_eq,
}

abbrev pub legacy_name : Bytes
legacy_name = bytes_of "nav.bfdb"

abbrev pub prefix : Bytes
prefix = bytes_of "nav_"

abbrev pub suffix : Bytes
suffix = bytes_of ".bfdb"

abbrev pub slash : ℕ
slash = 47

-- `std::format("{}", n)` of an unsigned number of at most `suc fuel` digits.
unfoldable pub decimal : ℕ → ℕ → Bytes
decimal zero n = (48 + n % 10) ∷ []
decimal (suc fuel) n =
    let front = decimal fuel (n / 10) in
    if ltb n 10 then (48 + n) ∷ [] else front ++ ((48 + n % 10) ∷ [])

-- A `uint32_t` has at most ten digits.
unfoldable pub format_bfdb_name : ℕ → Bytes
unfolding decimal
format_bfdb_name cycle = if cycle == 0 then legacy_name else prefix ++ (decimal 9 cycle ++ suffix)

unfoldable pub has_slash : Bytes → Bool
has_slash [] = false
has_slash (c ∷ cs) = c == slash || has_slash cs

-- `std::filesystem::path(path).filename()`: what follows the last slash.
unfoldable pub filename : Bytes → Bytes
unfolding has_slash
filename [] = []
filename (c ∷ cs) =
    let rest = filename cs in if has_slash cs then rest else if c == slash then cs else c ∷ cs

-- The loop over the digits, from the value so far.
unfoldable pub parse_cycle : ℕ → Bytes → Option ℕ
parse_cycle value [] = some value
parse_cycle value (c ∷ cs) =
    let next = (value * 10 + (c - 48)) % 2 ^ 64 in
    let rest = parse_cycle next cs in
    if ltb c 48 || ltb 57 c then none else if ltb 0xFFFFFFFF next then none else rest

-- What is done with the file name.
unfoldable pub parse_name : Bytes → Option ℕ
unfolding parse_cycle
parse_name name =
    let cycle_str =
      take (length name - length prefix - length suffix) (drop (length prefix) name) in
    if bytes_eq name legacy_name
    then some 0
    else if leb (length name) (length prefix + length suffix)
        || (not (bytes_eq (take (length prefix) name) prefix)
            || not (bytes_eq (drop (length name - length suffix) name) suffix))
    then none
    else if length cycle_str == 0
    then none
    else parse_cycle 0 cycle_str

unfoldable pub parse_bfdb_name : Bytes → Option ℕ
unfolding filename parse_name
parse_bfdb_name path = parse_name (filename path)
