-- ===== src/MoraGrid/Runs.antt =====
-- The grid of libs/engine/core/domain/mora_grid.h at concrete cells.
use bravo_finder.Prelude.{
  ◌*◌, ◌≡◌, ◌≢◌, ◌↔◌, ◌⊎◌, true, [], ◌∷◌, length, All, ◌&&◌, if◌then◌else◌, arith,
}
use bravo_finder.Prelude.Int.{ℤ, pos, negsuc, eqb_ℤ}
use bravo_finder.MoraGrid.{
  lat_count, lon_count, no_data, set_cell, mora_at_cell, from_cells, is_empty,
}
use bravo_finder.MoraGrid.Population.{
  IsCounted, no_data-IsCounted, set_cell-IsCounted, from_cells-IsCounted, is_empty_iff,
}
use bravo_finder.MoraGrid.Cells.{IsCell, mora_at_cell-set_cell}

set_cell-IsCounted_example : IsCounted (set_cell (pos 47) (pos 11) (pos 130) no_data)
set_cell-IsCounted_example =
    set_cell-IsCounted (pos 47) (pos 11) (pos 130) no_data no_data-IsCounted

from_cells-IsCounted_example :
    IsCounted (from_cells (pos 1 ∷ []))
    × ((((from_cells (pos 1 ∷ [])).cells ≡ pos 1 ∷ [])
          × (length (pos 1 ∷ []) ≡ lat_count * lon_count))
        ⊎ ((from_cells (pos 1 ∷ []) ≡ no_data) × (length (pos 1 ∷ []) ≢ lat_count * lon_count)))
from_cells-IsCounted_example = from_cells-IsCounted (pos 1 ∷ [])

is_empty_iff_example : (is_empty no_data ≡ true) ↔ All (λ (v : ℤ). v ≡ pos 0) no_data.cells
is_empty_iff_example = is_empty_iff no_data no_data-IsCounted

alps : IsCell (pos 47) (pos 11)
alps = record { south = omega arith; north = omega arith; west = omega arith; east = omega arith }

andes : IsCell (negsuc 33) (negsuc 70)
andes = record { south = omega arith; north = omega arith; west = omega arith; east = omega arith }

mora_at_cell-set_cell_example :
    mora_at_cell (negsuc 33) (negsuc 70) (set_cell (pos 47) (pos 11) (pos 130) no_data) ≡ (
      if eqb_ℤ (pos 47) (negsuc 33) && eqb_ℤ (pos 11) (negsuc 70)
      then pos 130
      else mora_at_cell (negsuc 33) (negsuc 70) no_data)
mora_at_cell-set_cell_example =
    mora_at_cell-set_cell (pos 47) (pos 11) (pos 130) no_data (negsuc 33) (negsuc 70)
      no_data-IsCounted.full alps andes
