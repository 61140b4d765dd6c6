-- ===== src/MoraGrid/Cells.antt =====
-- Reads of the grid after writes, the longitude's wrap and the grid's edges.
use mathlib.Core.Path.{ap₂}
use bravo_finder.Prelude.{
  ℕ, ◌+◌, ◌-◌, ◌*◌, ◌%◌, ◌^◌, ◌<◌, ◌≡◌, ◌≢◌, refl, ap, ◌∙◌, inl, inr, false, ◌&&◌, length, get_or,
  set, get_or-set_self, get_or-set_ne, if◌then◌else◌, Bool-cases, arith,
}
use bravo_finder.Prelude.Int.{
  ℤ, pos, negsuc, pos_part, neg_part, ltb_ℤ, eqb_ℤ, ◌≤ℤ◌, ◌+ℤ◌, ◌*ℤ◌, ◌-ℤ◌, eq_of_parts,
}
use bravo_finder.MoraGrid.{
  MoraGrid, lat_count, lon_count, index, put_cell, set_cell, rem, wrap_lon, mora_at_cell,
}

-- A cell of the grid, by its south-west corner.
pub record IsCell (lat lon : ℤ) : Type 0 where
  pub south : negsuc 89 ≤ℤ lat
  pub north : lat ≤ℤ pos 89
  pub west : negsuc 179 ≤ℤ lon
  pub east : lon ≤ℤ pos 179

-- The values of a 32-bit `int`.
abbrev pub IsInt : ℤ → Type 0
IsInt x = (negsuc (2 ^ 31 - 1) ≤ℤ x) × (x ≤ℤ pos (2 ^ 31 - 1))

-- The remainder that is never negative, which the two C++ remainders make.
emod : ℤ → ℕ
emod (pos n) = n % 360
emod (negsuc n) = 359 - n % 360

wrap_lon-range : (lon : ℤ) → (negsuc 179 ≤ℤ wrap_lon lon) × (wrap_lon lon ≤ℤ pos 179)
unfolding wrap_lon rem ◌+ℤ◌ ◌-ℤ◌
wrap_lon-range (pos n) = ground arith
wrap_lon-range (negsuc n) = ground arith

wrap_lon_inside : (lon : ℤ) → negsuc 179 ≤ℤ lon → lon ≤ℤ pos 179 → wrap_lon lon ≡ lon
unfolding wrap_lon rem ◌+ℤ◌ ◌-ℤ◌
wrap_lon_inside (pos n) p q = ground arith
wrap_lon_inside (negsuc n) p q = ground arith

index_value :
    (lat lon : ℤ)
    → IsCell lat lon
    → pos_part (index lat lon) + 360 * neg_part lat + neg_part lon
      ≡ 360 * pos_part lat + pos_part lon + 32580
unfolding index ◌+ℤ◌ ◌*ℤ◌
index_value lat lon c = ground (arith, c.south, c.north, c.west, c.east)

-- Two different cells have different indices, and each has one.
index-injective :
    (lat lon lat' lon' : ℤ)
    → IsCell lat lon
    → IsCell lat' lon'
    → pos_part (index lat lon) ≡ pos_part (index lat' lon')
    → (lat ≡ lat') × (lon ≡ lon')
index-injective lat lon lat' lon' c c' e =
    let one = index_value lat lon c in
    let other = index_value lat' lon' c' in
    (
      eq_of_parts lat lat' (omega (arith, e, one, other, c.west, c.east, c'.west, c'.east)),
      eq_of_parts lon lon' (omega (arith, e, one, other, c.west, c.east, c'.west, c'.east)),
    )

index_inside :
    (lat lon : ℤ)
    → IsCell lat lon
    → (ltb_ℤ (index lat lon) (pos 0) ≡ false) × (pos_part (index lat lon) < lat_count * lon_count)
unfolding index ◌+ℤ◌ ◌*ℤ◌
index_inside lat lon c = ground (arith, c.south, c.north, c.west, c.east)

-- Inside the grid neither the pole nor the wrap moves a position.
mora_at_cell_inside :
    (lat lon : ℤ) (g : MoraGrid)
    → IsCell lat lon
    → mora_at_cell lat lon g ≡ get_or g.cells (pos_part (index lat lon)) (pos 0)
unfolding mora_at_cell
mora_at_cell_inside lat lon g c =
    let row : eqb_ℤ lat (pos 90) ≡ false = ground (arith, c.north) in
    let inside = (index_inside lat lon c).0 in
    rw (row, wrap_lon_inside lon c.west c.east, inside) refl

set_cell_inside :
    (lat lon v : ℤ) (g : MoraGrid)
    → IsCell lat lon
    → (set_cell lat lon v g).cells ≡ set g.cells (pos_part (index lat lon)) v
unfolding set_cell put_cell
set_cell_inside lat lon v g c = rw (index_inside lat lon c).0 refl

-- What is written at a cell of the grid is read there, and every other cell reads as before.
pub mora_at_cell-set_cell :
    (lat lon v : ℤ) (g : MoraGrid) (lat' lon' : ℤ)
    → length g.cells ≡ lat_count * lon_count
    → IsCell lat lon
    → IsCell lat' lon'
    → mora_at_cell lat' lon' (set_cell lat lon v g)
      ≡ (if eqb_ℤ lat lat' && eqb_ℤ lon lon' then v else mora_at_cell lat' lon' g)
mora_at_cell-set_cell lat lon v g lat' lon' full c c' =
    let at = pos_part (index lat lon) in
    let at' = pos_part (index lat' lon') in
    let read : mora_at_cell lat' lon' (set_cell lat lon v g)
        ≡ get_or (set g.cells at v) at' (pos 0) =
      mora_at_cell_inside lat' lon' (set_cell lat lon v g) c'
      ∙ ap (λ vs. get_or vs at' (pos 0)) (set_cell_inside lat lon v g c) in
    read ∙ elim (Bool-cases (eqb_ℤ lat lat' && eqb_ℤ lon lon')) [
      | inl same ↦
          let rows : lat ≡ lat' = eq_of_parts lat lat' (ground arith) in
          let cols : lon ≡ lon' = eq_of_parts lon lon' (ground arith) in
          let here : at ≡ at' = ap₂ (λ (a b : ℤ). pos_part (index a b)) rows cols in
          let bound : at < length g.cells = omega (arith, (index_inside lat lon c).1, full) in
          rw (same, ← here) (get_or-set_self g.cells at v (pos 0) bound)
      | inr other ↦
          let apart : at ≢ at' = λ e.
            let (rows, cols) = index-injective lat lon lat' lon' c c' e in
            ground (arith, rows, cols) in
          rw (other, mora_at_cell_inside lat' lon' g c')
            (get_or-set_ne g.cells at at' v (pos 0) apart)
    ]
