-- ===== src/Inventory/Winners.antt =====
-- The scan keeps one entry for each cycle that a file's header names, and finds it again.
use bravo_finder.Prelude.{
  ℕ, ◌<◌, ◌≡◌, ◌≢◌, refl, sym, ap, subst, ◌∙◌, inl, inr, List, [], ◌∷◌, none, some, All, Bool-cases,
  ltb, ◌==◌, if◌then◌else◌, arith,
}
use bravo_finder.Inventory.Scan.{
  BfdbEntry, find_cycle, replace_cycle, insert_entry, sort_entries, find_from,
}

-- One entry for each cycle, in any order.
abbrev pub Distinct : List BfdbEntry → Type 0
Distinct [] = Unit {0}
Distinct (e ∷ es) = All (λ (x : BfdbEntry). x.cycle ≢ e.cycle) es × Distinct es

abbrev pub Sorted : List BfdbEntry → Type 0
Sorted [] = Unit {0}
Sorted (e ∷ es) = All (λ (x : BfdbEntry). e.cycle < x.cycle) es × Sorted es

module _ (P : BfdbEntry → Type 0) where
  insert_entry-All :
      (e : BfdbEntry) (xs : List BfdbEntry) → P e → All P xs → All P (insert_entry e xs)
  unfolding insert_entry
  insert_entry-All e [] p h = (p, tt)
  insert_entry-All e (x ∷ xs) p h = elim (Bool-cases (ltb x.cycle e.cycle)) [
    | inl less ↦ rw less (h.0, insert_entry-All e xs p h.1)
    | inr more ↦ rw more (p, h)
  ]

  pub sort_entries-All : (es : List BfdbEntry) → All P es → All P (sort_entries es)
  unfolding sort_entries
  sort_entries-All [] h = tt
  sort_entries-All (e ∷ es) h = insert_entry-All e (sort_entries es) h.0 (sort_entries-All es h.1)

  pub replace_cycle-All :
      (e : BfdbEntry) (es : List BfdbEntry) → P e → All P es → All P (replace_cycle e es)
  unfolding replace_cycle
  replace_cycle-All e [] p h = tt
  replace_cycle-All e (x ∷ es) p h = elim (Bool-cases (x.cycle == e.cycle)) [
    | inl same ↦ rw same (p, h.1)
    | inr other ↦ rw other (h.0, replace_cycle-All e es p h.1)
  ]

above :
    (a b : ℕ) (xs : List BfdbEntry)
    → a < b
    → All (λ (x : BfdbEntry). b < x.cycle) xs
    → All (λ (x : BfdbEntry). a < x.cycle) xs
above a b [] h k = tt
above a b (x ∷ xs) h k = (omega (arith, h, k.0), above a b xs h k.1)

insert_entry-Sorted :
    (e : BfdbEntry) (xs : List BfdbEntry)
    → Sorted xs
    → All (λ (x : BfdbEntry). x.cycle ≢ e.cycle) xs
    → Sorted (insert_entry e xs)
unfolding insert_entry
insert_entry-Sorted e [] s h = (tt, tt)
insert_entry-Sorted e (x ∷ xs) s h = elim (Bool-cases (ltb x.cycle e.cycle)) [
  | inl less ↦ rw less (
    insert_entry-All (λ (y : BfdbEntry). x.cycle < y.cycle) e xs (ground (arith, less)) s.0,
    insert_entry-Sorted e xs s.1 h.1,
  )
  | inr more ↦
      let up : e.cycle < x.cycle = ground (arith, more, h.0) in
      rw more ((up, above e.cycle x.cycle xs up s.0), s)
]

pub sort_entries-Sorted : (es : List BfdbEntry) → Distinct es → Sorted (sort_entries es)
unfolding sort_entries
sort_entries-Sorted [] d = tt
sort_entries-Sorted (e ∷ es) d =
    insert_entry-Sorted e (sort_entries es) (sort_entries-Sorted es d.1)
      (sort_entries-All (λ (x : BfdbEntry). x.cycle ≢ e.cycle) es d.0)

-- Below the first entry nothing is found.
find_from-above :
    (c : ℕ) (xs : List BfdbEntry) → All (λ (x : BfdbEntry). c < x.cycle) xs → find_from c xs ≡ none
unfolding find_from
find_from-above c [] h = refl
find_from-above c (x ∷ xs) h = ground (arith, h.0)

find_from-insert_entry :
    (c : ℕ) (e : BfdbEntry) (xs : List BfdbEntry)
    → Sorted xs
    → All (λ (x : BfdbEntry). x.cycle ≢ e.cycle) xs
    → find_from c (insert_entry e xs) ≡ (if e.cycle == c then some e else find_from c xs)
unfolding find_from insert_entry
find_from-insert_entry c e [] s h = ground arith
find_from-insert_entry c e (x ∷ xs) s h = ground (arith, find_from-insert_entry c e xs s.1 h.1, h.0)

pub find_from-sort_entries :
    (c : ℕ) (es : List BfdbEntry) → Distinct es → find_from c (sort_entries es) ≡ find_cycle c es
unfolding find_cycle sort_entries find_from
find_from-sort_entries c [] d = refl
find_from-sort_entries c (e ∷ es) d =
    find_from-insert_entry c e (sort_entries es) (sort_entries-Sorted es d.1)
      (sort_entries-All (λ (x : BfdbEntry). x.cycle ≢ e.cycle) es d.0)
    ∙ ap (λ r. if e.cycle == c then some e else r) (find_from-sort_entries c es d.1)

pub find_cycle-none :
    (c : ℕ) (es : List BfdbEntry) → find_cycle c es ≡ none → All (λ (x : BfdbEntry). x.cycle ≢ c) es
unfolding find_cycle
find_cycle-none c [] h = tt
find_cycle-none c (x ∷ es) h = elim (Bool-cases (x.cycle == c)) [
  | inl same ↦ let wrong : some x ≡ none = sym (rw same refl) ∙ h in cc wrong
  | inr other ↦ (ground (arith, other), find_cycle-none c es (sym (rw other refl) ∙ h))
]

pub find_cycle-replace_cycle :
    (c : ℕ) (e : BfdbEntry) (es : List BfdbEntry) (found : BfdbEntry)
    → find_cycle e.cycle es ≡ some found
    → find_cycle c (replace_cycle e es) ≡ (if e.cycle == c then some e else find_cycle c es)
unfolding find_cycle replace_cycle
find_cycle-replace_cycle c e [] found h = cc
find_cycle-replace_cycle c e (x ∷ es) found h =
    ground (arith, h, find_cycle-replace_cycle c e es found)

pub replace_cycle-Distinct :
    (e : BfdbEntry) (es : List BfdbEntry) → Distinct es → Distinct (replace_cycle e es)
unfolding replace_cycle
replace_cycle-Distinct e [] d = tt
replace_cycle-Distinct e (x ∷ es) d = elim (Bool-cases (x.cycle == e.cycle)) [
  | inl same ↦
      let equal : x.cycle ≡ e.cycle = ground (arith, same) in
      rw same (subst (λ k. All (λ (y : BfdbEntry). y.cycle ≢ k) es) equal d.0, d.1)
  | inr other ↦ rw other (
    replace_cycle-All (λ (y : BfdbEntry). y.cycle ≢ x.cycle) e es (ground (arith, other)) d.0,
    replace_cycle-Distinct e es d.1,
  )
]
