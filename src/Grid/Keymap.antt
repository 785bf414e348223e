-- ===== src/Grid/Keymap.antt =====
-- Keys to selections (crates/dat0-core/src/grid/keymap.rs).
pub mod InGrid
mod Examples
use dat.Prelude.{ℕ, ◌-◌, Option, some, pos, negsuc}
use dat.Grid.Selection.{
  SelectionModel, move_active, extend_active, move_active_to, select_all, select_row, select_column,
  clear,
}

pub data Key : Type 0 where
  up down left right : Key
  shift_up shift_down shift_left shift_right : Key
  jump_top jump_bottom jump_left jump_right : Key
  select_all_cells select_active_row select_active_column : Key
  escape : Key

unfoldable pub apply_key : SelectionModel → Key → Option SelectionModel
apply_key s up = move_active s (negsuc 0) (pos 0)
apply_key s down = move_active s (pos 1) (pos 0)
apply_key s left = move_active s (pos 0) (negsuc 0)
apply_key s right = move_active s (pos 0) (pos 1)
apply_key s shift_up = extend_active s (negsuc 0) (pos 0)
apply_key s shift_down = extend_active s (pos 1) (pos 0)
apply_key s shift_left = extend_active s (pos 0) (negsuc 0)
apply_key s shift_right = extend_active s (pos 0) (pos 1)
apply_key s jump_top = some (move_active_to s 0 s.active.col)
apply_key s jump_bottom = some (move_active_to s (s.rows - 1) s.active.col)
apply_key s jump_left = some (move_active_to s s.active.row 0)
apply_key s jump_right = some (move_active_to s s.active.row (s.cols - 1))
apply_key s select_all_cells = some (select_all s)
apply_key s select_active_row = some (select_row s s.active.row)
apply_key s select_active_column = some (select_column s s.active.col)
apply_key s escape = some (clear s)
