-- ===== src/GraphCodec/Consistency.antt =====
-- What a graph section promises: the array accesses of the search stay inside their arrays.
use bravo_finder.Prelude.{
  ℕ, ◌+◌, ◌-◌, ◌^◌, ◌<◌, ◌≤◌, ◌≡◌, ◌⊎◌, refl, ap, inl, inr, Bool, true, false, List, [], ◌∷◌,
  length, get_or, none, All, arith,
}
use bravo_finder.Prelude.Int.{ℤ, pos, negsuc, pos_part, ltb_ℤ, eqb_ℤ}
use bravo_finder.ByteIo.Reader.{to_signed}
use bravo_finder.GraphCodec.{
  EdgeRecord, GraphSnapshot, is_vertex_kind_byte, level_both, Fault, Checked, require, with_value,
  edge_fault, last_offset,
}

-- The edge ends at a vertex, has an airway name and a level.
pub record IsEdge (v airway_count : ℕ) (ed : EdgeRecord) : Type 0 where
  pub target : ltb_ℤ ed.to (pos 0) ≡ false
  pub inside : pos_part ed.to < v
  pub named : ed.airway_id < airway_count
  pub level : ed.level ≤ level_both

-- Each offset is at least the one before it.
abbrev pub Ascending : ℤ → List ℤ → Type 0
Ascending low [] = Unit {0}
Ascending low (x ∷ xs) = (ltb_ℤ x low ≡ false) × Ascending x xs

pub record IsConsistent (s : GraphSnapshot) : Type 0 where
  pub airports_start : ltb_ℤ s.first_airport_vertex (pos 0) ≡ false
  pub airports_inside : pos_part s.first_airport_vertex ≤ length s.coords
  pub elevations :
      length s.airport_elevations_ft ≡ length s.coords - pos_part s.first_airport_vertex
  pub idents : length s.idents ≡ length s.coords
  pub outbound : length s.has_outbound ≡ length s.coords
  pub inbound : length s.has_inbound ≡ length s.coords
  pub kinds : length s.kinds ≡ length s.coords
  pub vertex_kinds : All (λ k. is_vertex_kind_byte k ≡ true) s.kinds
  pub offsets : length s.offsets ≡ length s.coords + 1
  pub starts : get_or s.offsets 0 (pos 0) ≡ pos 0
  pub ascending : Ascending (pos 0) s.offsets
  pub ends : last_offset s.offsets ≡ pos (length s.edges)
  pub edges : All (IsEdge (length s.coords) (length s.airway_names)) s.edges

-- What a success says of the guards before it.
pub require-good :
    {A : Type 0} (test : Bool) (fault : Fault) (rest : Checked A) (a : A)
    → require test fault rest ≡ Checked.good a
    → (test ≡ true) × (rest ≡ Checked.good a)
unfolding require
require-good true fault rest a e = (refl, e)
require-good false fault rest a e = cc

pub with_value-good :
    {A B : Type 0} (first : Checked A) (rest : A → Checked B) (b : B)
    → with_value first rest ≡ Checked.good b
    → (a : A) × (first ≡ Checked.good a) × (rest a ≡ Checked.good b)
unfolding with_value
with_value-good (Checked.good a) rest b e = (a, refl, e)
with_value-good (Checked.bad fault) rest b e = cc

pub edge_fault-none :
    (v airway_count : ℕ) (ed : EdgeRecord)
    → edge_fault v airway_count ed ≡ none
    → IsEdge v airway_count ed
unfolding edge_fault
edge_fault-none v airway_count ed e = record {
  target = ground (arith, e);
  inside = ground (arith, e);
  named = ground (arith, e);
  level = ground (arith, e);
}

-- An array that ascends from 0 ends at no negative number.
pub last_offset-Ascending :
    (low : ℤ) (xs : List ℤ)
    → ltb_ℤ low (pos 0) ≡ false
    → Ascending low xs
    → ltb_ℤ (last_offset xs) (pos 0) ≡ false
unfolding last_offset
last_offset-Ascending low [] h a = refl
last_offset-Ascending low (x ∷ []) h a = ground (arith, a.0)
last_offset-Ascending low (x ∷ y ∷ xs) h a =
    last_offset-Ascending x (y ∷ xs) (ground (arith, a.0)) a.1

-- The end that the code compares with is the number of edges, which therefore fits an `int`.
pub last_offset-count :
    (xs : List ℤ) (n : ℕ)
    → n < 2 ^ 32
    → Ascending (pos 0) xs
    → eqb_ℤ (last_offset xs) (to_signed (2 ^ 32) n) ≡ true
    → last_offset xs ≡ pos n
unfolding to_signed
last_offset-count xs n small a e =
    let low = last_offset-Ascending (pos 0) xs refl a in same (last_offset xs) low e
  where
    same : (x : ℤ) → ltb_ℤ x (pos 0) ≡ false → eqb_ℤ x (to_signed (2 ^ 32) n) ≡ true → x ≡ pos n
    same (pos k) low h = ap pos (ground (arith, h, small))
    same (negsuc k) low h = absurd (ground (arith, low))

-- An error, or a value of which `P` holds.
abbrev pub Accepts : {A : Type 0} → (A → Type 0) → Checked A → Type 0
Accepts P c = ((fault : Fault) × (c ≡ Checked.bad fault)) ⊎ ((a : _) × (c ≡ Checked.good a) × P a)

pub accepts :
    {A : Type 0} (P : A → Type 0) (c : Checked A)
    → ((a : A) → c ≡ Checked.good a → P a)
    → Accepts P c
accepts P (Checked.good a) h = inr (a, refl, h a refl)
accepts P (Checked.bad fault) h = inl (fault, refl)

pub is_zero : (x : ℤ) → eqb_ℤ x (pos 0) ≡ true → x ≡ pos 0
is_zero (pos k) h = ap pos (ground (arith, h))
is_zero (negsuc k) h = absurd (ground (arith, h))
