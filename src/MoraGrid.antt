-- ===== src/MoraGrid.antt =====
-- libs/engine/core/domain/mora_grid.h: minimum off-route altitudes on a 1-degree grid. `int` and
-- `int16_t` are integers; no sum here leaves 32 bits for columns of at most 2 ^ 31 - 181.
mod Runs
pub mod Population
pub mod Cells
use bravo_finder.Prelude.{
  ℕ, zero, suc, ◌+◌, ◌-◌, ◌*◌, ◌%◌, Bool, true, false, not, ◌&&◌, ◌||◌, List, [], ◌∷◌, length,
  get_or, set, replicate, ltb, ◌==◌, if◌then◌else◌,
}
use bravo_finder.Prelude.Int.{ℤ, pos, negsuc, pos_part, neg_part, ◌+ℤ◌, ◌-ℤ◌, ◌*ℤ◌, ltb_ℤ, eqb_ℤ}

abbrev pub lat_count : ℕ
lat_count = 180

abbrev pub lon_count : ℕ
lon_count = 360

pub record MoraGrid : Type 0 where
  pub cells : List ℤ
  pub populated : ℕ

unfoldable pub no_data : MoraGrid
no_data = record { cells = replicate (lat_count * lon_count) (pos 0); populated = 0 }

unfoldable pub index : ℤ → ℤ → ℤ
index lat lon =
    if ltb_ℤ lat (negsuc 89)
      || ltb_ℤ (pos 89) lat
      || (ltb_ℤ lon (negsuc 179) || ltb_ℤ (pos 179) lon)
    then negsuc 0
    else (lat +ℤ pos 90) *ℤ pos lon_count +ℤ (lon +ℤ pos 180)

-- The write at a valid index, with the count of populated cells.
unfoldable pub put_cell : MoraGrid → ℕ → ℤ → MoraGrid
put_cell g idx mora_fl =
    let was_populated = not (eqb_ℤ (get_or g.cells idx (pos 0)) (pos 0)) in
    let now_populated = not (eqb_ℤ mora_fl (pos 0)) in
    record {
      cells = set g.cells idx mora_fl;
      populated =
          if not was_populated && now_populated
          then g.populated + 1
          else if was_populated && not now_populated
          then g.populated - 1
          else g.populated;
    }

unfoldable pub set_cell : ℤ → ℤ → ℤ → MoraGrid → MoraGrid
unfolding put_cell index
set_cell lat lon mora_fl g =
    let idx = index lat lon in if ltb_ℤ idx (pos 0) then g else put_cell g (pos_part idx) mora_fl

-- `cells_[idx]` at a valid index, and 0 at any other.
unfoldable pub cell_or_zero : MoraGrid → ℤ → ℤ
cell_or_zero g idx = if ltb_ℤ idx (pos 0) then pos 0 else get_or g.cells (pos_part idx) (pos 0)

-- `a % m` of C++: the remainder has the sign of `a`.
unfoldable pub rem : ℤ → ℕ → ℤ
rem (pos n) m = pos (n % m)
rem (negsuc n) m = pos 0 -ℤ pos (suc n % m)

-- `lon + 180` of the source overflows an `int` for columns above 2 ^ 31 - 181, where its behaviour is
-- undefined; this sum does not wrap, and stands for the source's at the columns up to there.
unfoldable pub wrap_lon : ℤ → ℤ
wrap_lon lon = rem (rem (lon +ℤ pos 180) lon_count +ℤ pos lon_count) lon_count -ℤ pos 180

unfoldable pub mora_at_cell : ℤ → ℤ → MoraGrid → ℤ
unfolding cell_or_zero wrap_lon rem index
mora_at_cell lat lon g =
    let row = if eqb_ℤ lat (pos 90) then pos 89 else lat in
    cell_or_zero g (index row (wrap_lon lon))

unfoldable pub is_empty : MoraGrid → Bool
is_empty g = g.populated == 0

unfoldable pub count_populated : List ℤ → ℕ → ℕ
count_populated [] n = n
count_populated (v ∷ vs) n = count_populated vs (if not (eqb_ℤ v (pos 0)) then n + 1 else n)

unfoldable pub from_cells : List ℤ → MoraGrid
from_cells cells =
    if not (length cells == lat_count * lon_count)
    then no_data
    else record { cells = cells; populated = count_populated cells 0 }
