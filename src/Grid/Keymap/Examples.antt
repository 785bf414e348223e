-- ===== src/Grid/Keymap/Examples.antt =====
-- Tests and instances for the selection and the keyboard.
use dat.Prelude.{◌≡◌, refl, some, arith}
use dat.Grid.Selection.{new, move_active, moved, click, add_isize, clamp_from_zero}
use dat.Grid.Keymap.{Key, apply_key}
use dat.Grid.Keymap.InGrid.{StaysInGrid, apply_key-InGrid, new-InGrid}

apply_key-InGrid_example : StaysInGrid 3 2 (apply_key (new 3 2) Key.down)
apply_key-InGrid_example =
    apply_key-InGrid 3 2 (omega arith) (omega arith) (new 3 2) Key.down (new-InGrid 3 2)

up_at_the_top : apply_key (new 3 2) Key.up ≡ some (click (new 3 2) (record { row = 0; col = 0 }))
unfolding apply_key move_active moved add_isize clamp_from_zero
up_at_the_top = refl
