-- ===== src/Grid/Selection/Examples.antt =====
-- Tests and instances for the ranges of the selection.
use dat.Prelude.{ℕ, [], ◌∷◌, ◌≡◌, arith, any, min, length}
use dat.Grid.Selection.{SelectionModel, new}
use dat.Grid.Selection.Spans.{selected_rows, selected_cols, selected_row_count, usize_max}
use dat.Grid.Selection.Rows.{AscendsFrom, member, row_in, col_in, selected_rows_lem}

-- Dragged upwards, and a second range that touches the first one.
abbrev two_ranges : SelectionModel
two_ranges = record (new 9 4) {
  ranges =
      record { r0 = 5; c0 = 1; r1 = 2; c1 = 0 } ∷ record { r0 = 6; c0 = 3; r1 = 7; c1 = 3 } ∷ [];
}

selected_rows_lem_example :
    AscendsFrom 0 (selected_rows two_ranges)
    × ((r : ℕ) → member r (selected_rows two_ranges) ≡ any (row_in r) two_ranges.ranges)
    × (selected_row_count two_ranges ≡ min (length (selected_rows two_ranges)) usize_max)
    × AscendsFrom 0 (selected_cols two_ranges)
    × ((c : ℕ) → member c (selected_cols two_ranges) ≡ any (col_in c) two_ranges.ranges)
selected_rows_lem_example = selected_rows_lem two_ranges (
  (omega arith, omega arith, omega arith, omega arith),
  ((omega arith, omega arith, omega arith, omega arith), tt),
)
