-- ===== src/Inventory/Choices.antt =====
-- What `BfdbInventory::Scan` chooses: an entry for each cycle, the file named for the cycle first.
use bravo_finder.Prelude.{
  ℕ, ◌≡◌, refl, sym, ap, subst, ◌∙◌, inl, inr, Bool, true, not, ◌&&◌, List, [], ◌∷◌, Option, none,
  some, All, Among, Bool-cases, ◌==◌, if◌then◌else◌, Bytes, arith,
}
use bravo_finder.Inventory.Naming.{parse_bfdb_name}
use bravo_finder.Inventory.Scan.{
  BfdbEntry, BfdbInventory, canonical, find_cycle, admit, scan_header, scan_files, scan, find,
}
use bravo_finder.Inventory.Winners.{
  Distinct, Sorted, replace_cycle-All, sort_entries-All, sort_entries-Sorted,
  find_from-sort_entries, find_cycle-none, find_cycle-replace_cycle, replace_cycle-Distinct,
}

-- The entry for `c`, which is canonical if a canonical file was seen.
abbrev Chosen : ℕ → Bool → Option BfdbEntry → Type 0
Chosen c canon r =
    (e : BfdbEntry) × (r ≡ some e) × (e.cycle ≡ c) × (canon ≡ true → canonical e ≡ true)

find_cycle-cycle :
    (c : ℕ) (es : List BfdbEntry) (e : BfdbEntry) → find_cycle c es ≡ some e → e.cycle ≡ c
unfolding find_cycle
find_cycle-cycle c [] e h = cc
find_cycle-cycle c (x ∷ es) e h = elim (Bool-cases (x.cycle == c)) [
  | inl same ↦
      let found : some x ≡ some e = sym (rw same refl) ∙ h in
      let equal : x.cycle ≡ c = ground (arith, same) in
      let entry : x ≡ e = cc found in sym (ap (λ (y : BfdbEntry). y.cycle) entry) ∙ equal
  | inr other ↦ find_cycle-cycle c es e (sym (rw other refl) ∙ h)
]

found-All :
    (P : BfdbEntry → Type 0) (c : ℕ) (es : List BfdbEntry) (e : BfdbEntry)
    → find_cycle c es ≡ some e
    → All P es
    → P e
unfolding find_cycle
found-All P c [] e h all = cc
found-All P c (x ∷ es) e h all = elim (Bool-cases (x.cycle == c)) [
  | inl same ↦
      let found : some x ≡ some e = sym (rw same refl) ∙ h in
      let entry : x ≡ e = cc found in subst P entry all.0
  | inr other ↦ found-All P c es e (sym (rw other refl) ∙ h) all.1
]

module _ (read_header : Bytes → Option ℕ) where
  -- The entry has the cycle of its file's header.
  abbrev pub IsTrue : BfdbEntry → Type 0
  IsTrue e = read_header e.path ≡ some e.cycle

  record Kept (inv : BfdbInventory) : Type 0 where
    distinct : Distinct inv.entries
    true_cycles : All IsTrue inv.entries

  admit-Kept :
      (entry : BfdbEntry) (r : Option BfdbEntry) (inv : BfdbInventory)
      → find_cycle entry.cycle inv.entries ≡ r
      → IsTrue entry
      → Kept inv
      → Kept (admit entry r inv)
  unfolding admit
  admit-Kept entry none inv e t k = record {
    distinct = (find_cycle-none entry.cycle inv.entries e, k.distinct);
    true_cycles = (t, k.true_cycles);
  }
  admit-Kept entry (some found) inv e t k =
      elim (Bool-cases (canonical entry && not (canonical found))) [
        | inl wins ↦ rw wins (record {
          distinct = replace_cycle-Distinct entry inv.entries k.distinct;
          true_cycles = replace_cycle-All IsTrue entry inv.entries t k.true_cycles;
        })
        | inr loses ↦ rw loses (record { distinct = k.distinct; true_cycles = k.true_cycles })
      ]

  -- A choice stays one, and the new file is counted.
  admit-Chosen :
      (c : ℕ) (canon : Bool) (entry : BfdbEntry) (r : Option BfdbEntry) (inv : BfdbInventory)
      → find_cycle entry.cycle inv.entries ≡ r
      → Chosen c canon (find_cycle c inv.entries)
      → Chosen c canon (find_cycle c (admit entry r inv).entries)
  unfolding admit find_cycle
  admit-Chosen c canon entry none inv e (x, found, cycle, first) =
      elim (Bool-cases (entry.cycle == c)) [
        | inl same ↦
            let equal : entry.cycle ≡ c = ground (arith, same) in
            let wrong : none ≡ some x = sym e ∙ ap (λ k. find_cycle k inv.entries) equal ∙ found in
            absurd (cc wrong)
        | inr other ↦ (x, rw other found, cycle, first)
      ]
  admit-Chosen c canon entry (some y) inv e (x, found, cycle, first) =
      elim (Bool-cases (canonical entry && not (canonical y))) [
        | inl wins ↦
            let now = find_cycle-replace_cycle c entry inv.entries y e in
            elim (Bool-cases (entry.cycle == c)) [
              | inl same ↦ (
                entry,
                rw wins (now ∙ ap (λ b. if b then some entry else find_cycle c inv.entries) same),
                ground (arith, same),
                λ named. ground (arith, wins),
              )
              | inr other ↦ (
                x,
                rw wins (
                    now
                    ∙ ap (λ b. if b then some entry else find_cycle c inv.entries) other
                    ∙ found),
                cycle,
                first,
              )
            ]
        | inr loses ↦ (x, rw loses found, cycle, first)
      ]

  admit-chooses :
      (entry : BfdbEntry) (r : Option BfdbEntry) (inv : BfdbInventory)
      → find_cycle entry.cycle inv.entries ≡ r
      → Chosen entry.cycle (canonical entry) (find_cycle entry.cycle (admit entry r inv).entries)
  unfolding admit find_cycle
  admit-chooses entry none inv e = (entry, ground arith, refl, λ named. named)
  admit-chooses entry (some y) inv e = elim (Bool-cases (canonical entry && not (canonical y))) [
    | inl wins ↦
        let now = find_cycle-replace_cycle entry.cycle entry inv.entries y e in
        let own : (entry.cycle == entry.cycle) ≡ true = ground arith in
        (
          entry,
          rw wins
              (now ∙ ap (λ b. if b then some entry else find_cycle entry.cycle inv.entries) own),
          refl,
          λ named. named,
        )
    | inr loses ↦ (
      y,
      rw loses e,
      find_cycle-cycle entry.cycle inv.entries y e,
      λ named. ground (arith, loses, named),
    )
  ]

  -- Which files the scan opens.
  abbrev after_name : Bytes → List Bytes → BfdbInventory → Option ℕ → BfdbInventory
  after_name path paths inv none = scan_files read_header paths inv
  after_name path paths inv (some v) =
      scan_files read_header paths (scan_header path (read_header path) inv)

  scan_header-Kept :
      (path : Bytes) (h : Option ℕ) (inv : BfdbInventory)
      → read_header path ≡ h
      → Kept inv
      → Kept (scan_header path h inv)
  unfolding scan_header
  scan_header-Kept path none inv e k = record { distinct = k.distinct; true_cycles = k.true_cycles }
  scan_header-Kept path (some c) inv e k =
      admit-Kept (record { path = path; cycle = c }) (find_cycle c inv.entries) inv refl e k

  scan_header-Chosen :
      (c : ℕ) (canon : Bool) (path : Bytes) (h : Option ℕ) (inv : BfdbInventory)
      → Chosen c canon (find_cycle c inv.entries)
      → Chosen c canon (find_cycle c (scan_header path h inv).entries)
  unfolding scan_header
  scan_header-Chosen c canon path none inv k = k
  scan_header-Chosen c canon path (some d) inv k =
      admit-Chosen c canon (record { path = path; cycle = d }) (find_cycle d inv.entries) inv refl k

  scan_files-Kept :
      (files : List Bytes) (inv : BfdbInventory)
      → Kept inv
      → Kept (scan_files read_header files inv)
  unfolding scan_files
  scan_files-Kept [] inv k = k
  scan_files-Kept (path ∷ paths) inv k = named (parse_bfdb_name path) (scan_files-Kept paths)
    where
      named :
          (r : Option ℕ)
          → ((i : BfdbInventory) → Kept i → Kept (scan_files read_header paths i))
          → Kept (after_name path paths inv r)
      named none again = again inv k
      named (some v) again =
          again (scan_header path (read_header path) inv)
            (scan_header-Kept path (read_header path) inv refl k)

  scan_files-Chosen :
      (c : ℕ) (canon : Bool) (files : List Bytes) (inv : BfdbInventory)
      → Chosen c canon (find_cycle c inv.entries)
      → Chosen c canon (find_cycle c (scan_files read_header files inv).entries)
  unfolding scan_files
  scan_files-Chosen c canon [] inv k = k
  scan_files-Chosen c canon (path ∷ paths) inv k =
      named (parse_bfdb_name path) (scan_files-Chosen c canon paths)
    where
      named :
          (r : Option ℕ)
          → ((i : BfdbInventory)
              → Chosen c canon (find_cycle c i.entries)
              → Chosen c canon (find_cycle c (scan_files read_header paths i).entries))
          → Chosen c canon (find_cycle c (after_name path paths inv r).entries)
      named none again = again inv k
      named (some v) again =
          again (scan_header path (read_header path) inv)
            (scan_header-Chosen c canon path (read_header path) inv k)

  scan_files-chooses :
      (c v : ℕ) (file : Bytes) (files : List Bytes) (inv : BfdbInventory)
      → Among file files
      → parse_bfdb_name file ≡ some v
      → read_header file ≡ some c
      → Chosen c
          (canonical (record { path = file; cycle = c }))
          (find_cycle c (scan_files read_header files inv).entries)
  unfolding scan_files scan_header
  scan_files-chooses c v file [] inv m name header = elim m [ ]
  scan_files-chooses c v file (path ∷ paths) inv (inl here) name header =
      let entry : BfdbEntry = record { path = file; cycle = c } in
      let inv' = scan_header file (some c) inv in
      let now = admit-chooses entry (find_cycle c inv.entries) inv refl in
      subst
        (λ p.
          Chosen c (canonical entry)
            (find_cycle c (scan_files read_header (p ∷ paths) inv).entries))
        here (rw (scan_files, name, header) (scan_files-Chosen c (canonical entry) paths inv' now))
  scan_files-chooses c v file (path ∷ paths) inv (inr later) name header =
      named (parse_bfdb_name path) (λ i. scan_files-chooses c v file paths i later name header)
    where
      named :
          (r : Option ℕ)
          → ((i : BfdbInventory)
              → Chosen c
                  (canonical (record { path = file; cycle = c }))
                  (find_cycle c (scan_files read_header paths i).entries))
          → Chosen c
              (canonical (record { path = file; cycle = c }))
              (find_cycle c (after_name path paths inv r).entries)
      named none again = again inv
      named (some w) again = again (scan_header path (read_header path) inv)

  first_Kept : Kept (record { entries = []; discarded = []; skipped = [] })
  first_Kept = record { distinct = tt; true_cycles = tt }

  -- Whatever the headers of the files say, the entries of a scan are in ascending order of cycle, with
  -- no cycle twice, and each has the cycle of its file's header.
  pub scan-Sorted :
      (files : List Bytes)
      → Sorted (scan read_header files).entries × All IsTrue (scan read_header files).entries
  unfolding scan
  scan-Sorted files =
      let k =
        scan_files-Kept files (record { entries = []; discarded = []; skipped = [] }) first_Kept in
      (sort_entries-Sorted _ k.distinct, sort_entries-All IsTrue _ k.true_cycles)

  -- If a file of the directory has a cache's name and its header says the cycle `c`, then the scan's
  -- result has an entry for `c`, the header of the entry's own file says `c`, and that file is named
  -- for its cycle if the given one is.
  pub find-scan :
      (c v : ℕ) (file : Bytes) (files : List Bytes)
      → Among file files
      → parse_bfdb_name file ≡ some v
      → read_header file ≡ some c
      → (e : BfdbEntry) × (find c (scan read_header files) ≡ some e)
        × (e.cycle ≡ c)
        × (read_header e.path ≡ some c)
        × (canonical (record { path = file; cycle = c }) ≡ true → canonical e ≡ true)
  unfolding scan find
  find-scan c v file files m name header =
      let inv =
        scan_files read_header files (record { entries = []; discarded = []; skipped = [] }) in
      let k =
        scan_files-Kept files (record { entries = []; discarded = []; skipped = [] }) first_Kept in
      let (e, found, cycle, first) =
        scan_files-chooses c v file files (record { entries = []; discarded = []; skipped = [] }) m
          name header in
      let header_cycle = found-All IsTrue c inv.entries e found k.true_cycles in
      (
        e,
        find_from-sort_entries c inv.entries k.distinct ∙ found,
        cycle,
        header_cycle ∙ ap some cycle,
        first,
      )
