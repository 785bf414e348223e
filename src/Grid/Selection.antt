-- ===== src/Grid/Selection.antt =====
-- `SelectionModel` (crates/dat0-core/src/grid/selection.rs). A `usize` is a number below `2 ^ 64`,
-- an `isize` an integer between `-2 ^ 63` and `2 ^ 63`; sums wrap as in a release build, and the
-- `debug_assert` of `new` is not in one.
pub mod Spans
pub mod Merged
pub mod Rows
pub mod Bounds
mod Examples
use dat.Prelude.{
  ℕ, zero, suc, ◌+◌, ◌-◌, ◌%◌, ◌^◌, Bool, true, false, ◌&&◌, List, [], ◌∷◌, ◌++◌, Option, none,
  some, leb, ltb, if◌then◌else◌, min, max, any, map, length, ℤ, pos, negsuc,
}

pub record CellCoord : Type 0 where
  pub row : ℕ
  pub col : ℕ

pub record CellRange : Type 0 where
  pub r0 : ℕ
  pub c0 : ℕ
  pub r1 : ℕ
  pub c1 : ℕ

abbrev pub range_contains : CellRange → ℕ → ℕ → Bool
range_contains rg r c =
    leb (min rg.r0 rg.r1) r
    && leb r (max rg.r0 rg.r1)
    && leb (min rg.c0 rg.c1) c
    && leb c (max rg.c0 rg.c1)

pub record SelectionModel : Type 0 where
  pub rows : ℕ
  pub cols : ℕ
  pub ranges : List CellRange
  pub anchor : CellCoord
  pub active : CellCoord

abbrev pub origin : CellCoord
origin = record { row = 0; col = 0 }

abbrev pub new : ℕ → ℕ → SelectionModel
new rows cols = record { rows = rows; cols = cols; ranges = []; anchor = origin; active = origin }

-- The range from one cell to another.
abbrev pub between : CellCoord → CellCoord → CellRange
between a b = record { r0 = a.row; c0 = a.col; r1 = b.row; c1 = b.col }

unfoldable pub clear : SelectionModel → SelectionModel
clear s = record s { ranges = [] }

unfoldable pub click : SelectionModel → CellCoord → SelectionModel
click s c = record s { anchor = c; active = c; ranges = between c c ∷ [] }

unfoldable pub add_click : SelectionModel → CellCoord → SelectionModel
add_click s c = record s { anchor = c; active = c; ranges = s.ranges ++ between c c ∷ [] }

-- `if let Some(last) = ranges.last_mut() { *last = rg } else { ranges.push(rg) }`
abbrev pub set_last : List CellRange → CellRange → List CellRange
set_last [] rg = rg ∷ []
set_last (x ∷ []) rg = rg ∷ []
set_last (x ∷ y ∷ ys) rg = x ∷ set_last (y ∷ ys) rg

unfoldable pub extend_to : SelectionModel → CellCoord → SelectionModel
extend_to s c = record s { active = c; ranges = set_last s.ranges (between s.anchor c) }

-- `click` leaves one range, so its `last_mut` is that one.
unfoldable pub select_row : SelectionModel → ℕ → SelectionModel
select_row s r = record s {
  anchor = record { row = r; col = 0 };
  active = record { row = r; col = 0 };
  ranges = record { r0 = r; c0 = 0; r1 = r; c1 = s.cols - 1 } ∷ [];
}

unfoldable pub select_column : SelectionModel → ℕ → SelectionModel
select_column s c = record s {
  anchor = record { row = 0; col = c };
  active = record { row = 0; col = c };
  ranges = record { r0 = 0; c0 = c; r1 = s.rows - 1; c1 = c } ∷ [];
}

unfoldable pub select_all : SelectionModel → SelectionModel
select_all s = record s {
  ranges = record { r0 = 0; c0 = 0; r1 = s.rows - 1; c1 = s.cols - 1 } ∷ [];
}

abbrev pub normal : CellRange → CellRange
normal rg = record {
  r0 = min rg.r0 rg.r1;
  c0 = min rg.c0 rg.c1;
  r1 = max rg.r0 rg.r1;
  c1 = max rg.c0 rg.c1;
}

abbrev pub join : CellRange → CellRange → CellRange
join b rg = record {
  r0 = min b.r0 rg.r0;
  c0 = min b.c0 rg.c0;
  r1 = max b.r1 rg.r1;
  c1 = max b.c1 rg.c1;
}

-- One round of the fold of `bounds`.
abbrev pub widen : Option CellRange → CellRange → CellRange
widen none rg = normal rg
widen (some b) rg = join b (normal rg)

abbrev pub bounds_from : Option CellRange → List CellRange → Option CellRange
bounds_from acc [] = acc
bounds_from acc (rg ∷ rest) = bounds_from (some (widen acc rg)) rest

unfoldable pub bounds : SelectionModel → Option CellRange
bounds s = bounds_from none s.ranges

unfoldable pub contains : SelectionModel → ℕ → ℕ → Bool
contains s r c = any (λ rg. range_contains rg r c) s.ranges

abbrev pub has_selection : SelectionModel → Bool
has_selection s = elim s.ranges [ [] ↦ false | _ ∷ _ ↦ true ]

-- `n as isize`, and back.
abbrev pub to_isize : ℕ → ℤ
to_isize n = if ltb n (2 ^ 63) then pos n else negsuc (2 ^ 64 - n - 1)

abbrev pub to_usize : ℤ → ℕ
to_usize (pos n) = n
to_usize (negsuc n) = 2 ^ 64 - suc n

-- `a as isize + d`
unfoldable pub add_isize : ℕ → ℤ → ℤ
add_isize a d = to_isize ((a + to_usize d) % 2 ^ 64)

-- `x.clamp(0, hi) as usize`, which panics where `hi` is negative.
unfoldable pub clamp_from_zero : ℤ → ℤ → Option ℕ
clamp_from_zero x (negsuc _) = none
clamp_from_zero (negsuc _) (pos hi) = some 0
clamp_from_zero (pos n) (pos hi) = some (min n hi)

abbrev pub cell : Option ℕ → Option ℕ → Option CellCoord
cell (some r) (some c) = some (record { row = r; col = c })
cell none c = none
cell (some r) none = none

-- The cell that the cursor moves to.
unfoldable pub moved : SelectionModel → ℤ → ℤ → Option CellCoord
moved s dr dc =
    cell (clamp_from_zero (add_isize s.active.row dr) (to_isize (s.rows - 1)))
      (clamp_from_zero (add_isize s.active.col dc) (to_isize (s.cols - 1)))

abbrev pub map_cell : (CellCoord → SelectionModel) → Option CellCoord → Option SelectionModel
map_cell f none = none
map_cell f (some c) = some (f c)

unfoldable pub move_active : SelectionModel → ℤ → ℤ → Option SelectionModel
move_active s dr dc = map_cell (click s) (moved s dr dc)

unfoldable pub extend_active : SelectionModel → ℤ → ℤ → Option SelectionModel
extend_active s dr dc = map_cell (extend_to s) (moved s dr dc)

unfoldable pub move_active_to : SelectionModel → ℕ → ℕ → SelectionModel
move_active_to s row col =
    click s (record { row = min row (s.rows - 1); col = min col (s.cols - 1) })
