-- ===== src/Grid/Keymap/InGrid.antt =====
-- The keyboard never leaves the grid.
use dat.Prelude.{
  ℕ, ◌+◌, ◌-◌, ◌^◌, ◌≤◌, ◌<◌, List, [], ◌∷◌, Option, none, some, ◌≡◌, refl, arith, ℤ, pos, negsuc,
  min, suc, ap, ap₂, ◌∙◌,
}
use dat.Prelude.Predicates.{All}
use dat.Grid.Selection.{
  CellCoord, CellRange, SelectionModel, new, between, clear, click, set_last, extend_to, select_row,
  select_column, select_all, to_isize, add_isize, clamp_from_zero, moved, cell, move_active,
  extend_active, move_active_to,
}
use dat.Grid.Keymap.{Key, apply_key}

-- In a grid with no rows or columns the cell (0, 0) counts as inside.
abbrev pub Inside : ℕ → ℕ → CellCoord → Type 0
Inside rows cols c = (c.row ≤ rows - 1) × (c.col ≤ cols - 1)

abbrev pub Covered : ℕ → ℕ → CellRange → Type 0
Covered rows cols rg =
    (rg.r0 ≤ rows - 1) × (rg.r1 ≤ rows - 1) × (rg.c0 ≤ cols - 1) × (rg.c1 ≤ cols - 1)

pub record InGrid (rows cols : ℕ) (s : SelectionModel) : Type 0 where
  pub rows_eq : s.rows ≡ rows
  pub cols_eq : s.cols ≡ cols
  pub active : Inside rows cols s.active
  pub anchor : Inside rows cols s.anchor
  pub ranges : All (Covered rows cols) s.ranges

abbrev pub StaysInGrid : ℕ → ℕ → Option SelectionModel → Type 0
StaysInGrid rows cols none = ⊥
StaysInGrid rows cols (some s) = InGrid rows cols s

module _ (rows cols : ℕ) where
  set_last-Covered :
      (l : List CellRange) (rg : CellRange)
      → All (Covered rows cols) l
      → Covered rows cols rg
      → All (Covered rows cols) (set_last l rg)
  set_last-Covered [] rg h k = (k, tt)
  set_last-Covered (x ∷ []) rg h k = (k, tt)
  set_last-Covered (x ∷ y ∷ ys) rg h k = (h.0, set_last-Covered (y ∷ ys) rg h.1 k)

  click-InGrid :
      (s : SelectionModel) (c : CellCoord)
      → InGrid rows cols s
      → Inside rows cols c
      → InGrid rows cols (click s c)
  unfolding click
  click-InGrid s c i k = record {
    rows_eq = i.rows_eq;
    cols_eq = i.cols_eq;
    active = k;
    anchor = k;
    ranges = ((k.0, k.0, k.1, k.1), tt);
  }

  extend_to-InGrid :
      (s : SelectionModel) (c : CellCoord)
      → InGrid rows cols s
      → Inside rows cols c
      → InGrid rows cols (extend_to s c)
  unfolding extend_to
  extend_to-InGrid s c i k = record {
    rows_eq = i.rows_eq;
    cols_eq = i.cols_eq;
    active = k;
    anchor = i.anchor;
    ranges =
        set_last-Covered s.ranges (between s.anchor c) i.ranges (i.anchor.0, k.0, i.anchor.1, k.1);
  }

module _ (rows cols : ℕ) (s : SelectionModel) (i : InGrid rows cols s) where
  clear-InGrid : InGrid rows cols (clear s)
  unfolding clear
  clear-InGrid = record {
    rows_eq = i.rows_eq;
    cols_eq = i.cols_eq;
    active = i.active;
    anchor = i.anchor;
    ranges = tt;
  }

  select_all-InGrid : InGrid rows cols (select_all s)
  unfolding select_all
  select_all-InGrid = record {
    rows_eq = i.rows_eq;
    cols_eq = i.cols_eq;
    active = i.active;
    anchor = i.anchor;
    ranges = omega (arith, i.rows_eq, i.cols_eq);
  }

  select_row-InGrid : (r : ℕ) → r ≤ rows - 1 → InGrid rows cols (select_row s r)
  unfolding select_row
  select_row-InGrid r h = record {
    rows_eq = i.rows_eq;
    cols_eq = i.cols_eq;
    active = (h, omega arith);
    anchor = (h, omega arith);
    ranges = omega (arith, i.cols_eq);
  }

  select_column-InGrid : (c : ℕ) → c ≤ cols - 1 → InGrid rows cols (select_column s c)
  unfolding select_column
  select_column-InGrid c h = record {
    rows_eq = i.rows_eq;
    cols_eq = i.cols_eq;
    active = (omega arith, h);
    anchor = (omega arith, h);
    ranges = omega (arith, i.rows_eq);
  }

-- The steps of one cell that the arrow keys make.
data IsStep : ℤ → Type 0 where
  back : IsStep (negsuc 0)
  stay : IsStep (pos 0)
  ahead : IsStep (pos 1)

abbrev pub step_to : ℤ → ℕ → ℕ → ℕ
step_to (pos d) n size = min (n + d) (size - 1)
step_to (negsuc d) n size = n - suc d

-- A step from inside is clamped at both ends, and does not wrap.
clamp-step :
    (n size : ℕ) (d : ℤ)
    → IsStep d
    → size < 2 ^ 63
    → n ≤ size - 1
    → clamp_from_zero (add_isize n d) (to_isize (size - 1)) ≡ some (step_to d n size)
unfolding clamp_from_zero add_isize
clamp-step n size d back h k = ground arith
clamp-step n size d stay h k = ground arith
clamp-step n size d ahead h k = ground arith

step_to-le : (n size : ℕ) (d : ℤ) → IsStep d → n ≤ size - 1 → step_to d n size ≤ size - 1
step_to-le n size d back k = omega arith
step_to-le n size d stay k = omega arith
step_to-le n size d ahead k = omega arith

module _ (rows cols : ℕ) (rows_lt : rows < 2 ^ 63) (cols_lt : cols < 2 ^ 63) where
  module _ (s : SelectionModel) (i : InGrid rows cols s) where
    moved-step :
        (dr dc : ℤ)
        → IsStep dr
        → IsStep dc
        → moved s dr dc
          ≡ some (record { row = step_to dr s.active.row rows; col = step_to dc s.active.col cols })
    unfolding moved
    moved-step dr dc p q =
        ap₂ cell
          (ap (λ k. clamp_from_zero (add_isize s.active.row dr) (to_isize (k - 1))) i.rows_eq
            ∙ clamp-step s.active.row rows dr p rows_lt i.active.0)
          (ap (λ k. clamp_from_zero (add_isize s.active.col dc) (to_isize (k - 1))) i.cols_eq
            ∙ clamp-step s.active.col cols dc q cols_lt i.active.1)

    move_active-InGrid :
        (dr dc : ℤ) → IsStep dr → IsStep dc → StaysInGrid rows cols (move_active s dr dc)
    unfolding move_active
    move_active-InGrid dr dc p q = rw (moved-step dr dc p q) (
        click-InGrid rows cols s _ i (
          step_to-le s.active.row rows dr p i.active.0,
          step_to-le s.active.col cols dc q i.active.1,
        ))

    extend_active-InGrid :
        (dr dc : ℤ) → IsStep dr → IsStep dc → StaysInGrid rows cols (extend_active s dr dc)
    unfolding extend_active
    extend_active-InGrid dr dc p q = rw (moved-step dr dc p q) (
        extend_to-InGrid rows cols s _ i (
          step_to-le s.active.row rows dr p i.active.0,
          step_to-le s.active.col cols dc q i.active.1,
        ))

    move_active_to-InGrid : (row col : ℕ) → InGrid rows cols (move_active_to s row col)
    unfolding move_active_to
    move_active_to-InGrid row col =
        click-InGrid rows cols s _ i (omega (arith, i.rows_eq), omega (arith, i.cols_eq))

  -- From a selection in a grid of fewer than 2^63 rows and columns, no key panics, and after every
  -- key the cursor, the anchor and both corners of every range are in the grid.
  pub apply_key-InGrid :
      (s : SelectionModel) (key : Key)
      → InGrid rows cols s
      → StaysInGrid rows cols (apply_key s key)
  unfolding apply_key
  apply_key-InGrid s Key.up i = move_active-InGrid s i (negsuc 0) (pos 0) back stay
  apply_key-InGrid s Key.down i = move_active-InGrid s i (pos 1) (pos 0) ahead stay
  apply_key-InGrid s Key.left i = move_active-InGrid s i (pos 0) (negsuc 0) stay back
  apply_key-InGrid s Key.right i = move_active-InGrid s i (pos 0) (pos 1) stay ahead
  apply_key-InGrid s Key.shift_up i = extend_active-InGrid s i (negsuc 0) (pos 0) back stay
  apply_key-InGrid s Key.shift_down i = extend_active-InGrid s i (pos 1) (pos 0) ahead stay
  apply_key-InGrid s Key.shift_left i = extend_active-InGrid s i (pos 0) (negsuc 0) stay back
  apply_key-InGrid s Key.shift_right i = extend_active-InGrid s i (pos 0) (pos 1) stay ahead
  apply_key-InGrid s Key.jump_top i = move_active_to-InGrid s i 0 s.active.col
  apply_key-InGrid s Key.jump_bottom i = move_active_to-InGrid s i (s.rows - 1) s.active.col
  apply_key-InGrid s Key.jump_left i = move_active_to-InGrid s i s.active.row 0
  apply_key-InGrid s Key.jump_right i = move_active_to-InGrid s i s.active.row (s.cols - 1)
  apply_key-InGrid s Key.select_all_cells i = select_all-InGrid rows cols s i
  apply_key-InGrid s Key.select_active_row i =
      select_row-InGrid rows cols s i s.active.row i.active.0
  apply_key-InGrid s Key.select_active_column i =
      select_column-InGrid rows cols s i s.active.col i.active.1
  apply_key-InGrid s Key.escape i = clear-InGrid rows cols s i

pub new-InGrid : (rows cols : ℕ) → InGrid rows cols (new rows cols)
new-InGrid rows cols = record {
  rows_eq = refl;
  cols_eq = refl;
  active = omega arith;
  anchor = omega arith;
  ranges = tt;
}
