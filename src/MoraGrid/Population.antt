-- ===== src/MoraGrid/Population.antt =====
-- The count of populated cells that `SetCell` and `FromCells` keep.
use bravo_finder.Prelude.{
  ℕ, zero, suc, ◌+◌, ◌*◌, ◌<◌, ◌≡◌, ◌↔◌, refl, sym, ◌∙◌, ◌⊎◌, ◌≢◌, inl, inr, true, false, not, List,
  [], ◌∷◌, length, length-set, length-replicate, get_or, set, replicate, ◌==◌, if◌then◌else◌, All,
  Bool-cases, arith,
}
use bravo_finder.Prelude.Int.{ℤ, pos, pos_part, ltb_ℤ, eqb_ℤ, ◌+ℤ◌, ◌*ℤ◌}
use bravo_finder.MoraGrid.{
  MoraGrid, lat_count, lon_count, no_data, index, put_cell, set_cell, is_empty, count_populated,
  from_cells,
}

-- How many cells have a value.
pub populated_in : List ℤ → ℕ
populated_in [] = 0
populated_in (v ∷ vs) = (if eqb_ℤ v (pos 0) then 0 else 1) + populated_in vs

pub record IsCounted (g : MoraGrid) : Type 0 where
  pub full : length g.cells ≡ lat_count * lon_count
  pub counted : g.populated ≡ populated_in g.cells

populated_in-set :
    (vs : List ℤ) (i : ℕ) (v : ℤ)
    → i < length vs
    → populated_in (set vs i v) + (if eqb_ℤ (get_or vs i (pos 0)) (pos 0) then 0 else 1)
      ≡ populated_in vs + (if eqb_ℤ v (pos 0) then 0 else 1)
unfolding populated_in
populated_in-set [] i v h = elim h [ ]
populated_in-set (x ∷ vs) zero v h = omega arith
populated_in-set (x ∷ vs) (suc i) v h = omega (arith, populated_in-set vs i v (omega arith))

index-lt :
    (lat lon : ℤ)
    → ltb_ℤ (index lat lon) (pos 0) ≡ false
    → pos_part (index lat lon) < lat_count * lon_count
unfolding index ◌+ℤ◌ ◌*ℤ◌
index-lt lat lon h = ground arith

put_cell-IsCounted :
    (g : MoraGrid) (i : ℕ) (v : ℤ) → IsCounted g → i < length g.cells → IsCounted (put_cell g i v)
unfolding put_cell
put_cell-IsCounted g i v c h = record {
  full = length-set g.cells i v ∙ c.full;
  counted = ground (arith, c.counted, populated_in-set g.cells i v h);
}

-- Writing any value at any position, in the grid or not, keeps the grid's size and its count of
-- populated cells right.
pub set_cell-IsCounted :
    (lat lon v : ℤ) (g : MoraGrid) → IsCounted g → IsCounted (set_cell lat lon v g)
unfolding set_cell
set_cell-IsCounted lat lon v g c = elim (Bool-cases (ltb_ℤ (index lat lon) (pos 0))) [
  | inl out ↦ rw out c
  | inr inside ↦ rw inside (
      put_cell-IsCounted g (pos_part (index lat lon)) v c
        (omega (arith, index-lt lat lon inside, c.full)))
]

count_populated-eq : (vs : List ℤ) (n : ℕ) → count_populated vs n ≡ n + populated_in vs
unfolding count_populated populated_in
count_populated-eq [] n = omega arith
count_populated-eq (v ∷ vs) n =
    ground (arith, count_populated-eq vs (if not (eqb_ℤ v (pos 0)) then n + 1 else n))

populated_in-replicate : (n : ℕ) → populated_in (replicate n (pos 0)) ≡ 0
unfolding populated_in
populated_in-replicate zero = refl
populated_in-replicate (suc n) = omega (arith, populated_in-replicate n)

pub no_data-IsCounted : IsCounted no_data
unfolding no_data
no_data-IsCounted = record {
  full = length-replicate (lat_count * lon_count) (pos 0);
  counted = sym (populated_in-replicate (lat_count * lon_count));
}

-- A grid rebuilt from any list of cells has the right size and count: the list's cells if it has
-- one for each position, and the empty grid otherwise.
pub from_cells-IsCounted :
    (cells : List ℤ)
    → IsCounted (from_cells cells)
      × ((((from_cells cells).cells ≡ cells) × (length cells ≡ lat_count * lon_count))
          ⊎ ((from_cells cells ≡ no_data) × (length cells ≢ lat_count * lon_count)))
unfolding from_cells
from_cells-IsCounted cells = elim (Bool-cases (length cells == lat_count * lon_count)) [
  | inl same ↦
      let size : length cells ≡ lat_count * lon_count = ground arith in
      rw same (
        record { full = size; counted = count_populated-eq cells 0 ∙ omega arith },
        inl (refl, size),
      )
  | inr other ↦ rw other (no_data-IsCounted, inr (refl, ground arith))
]

populated_in-zero : (vs : List ℤ) → (populated_in vs ≡ 0) ↔ All (λ (v : ℤ). v ≡ pos 0) vs
unfolding populated_in
populated_in-zero [] = (λ e. tt, λ h. refl)
populated_in-zero (v ∷ vs) =
    let (there, back) = populated_in-zero vs in
    (λ e. (ground arith, there (ground arith)), λ h. ground (arith, h.0, back h.1))

-- On a grid whose size and count are right, `is_empty` answers whether every cell is without a value.
pub is_empty_iff :
    (g : MoraGrid) → IsCounted g → (is_empty g ≡ true) ↔ All (λ (v : ℤ). v ≡ pos 0) g.cells
unfolding is_empty
is_empty_iff g c =
    let (there, back) = populated_in-zero g.cells in
    (λ e. there (ground (arith, c.counted)), λ h. ground (arith, c.counted, back h))
