-- ===== src/View/Model/Action.antt =====
-- The calls that a client makes on a `ViewModel`, as data. The popover's outcomes
-- (`route_outcome`) are among them.
use dat.Prelude.{ℕ, Bool, true, false, List, [], ◌∷◌, Text, Option, none, some, all, ◌≡◌}
use dat.Engine.Transform.{RowKey, CellEdit, SortKey, Transformation, edit, row_delete}
use dat.Engine.Render.Literal.{Host}
use dat.Engine.Render.Success.{is_renderable}
use dat.View.Model.Calls
use dat.View.Model.{ViewModel, ViewChange}
use dat.View.Model.Calls.{some_change}

-- What the filter popover hands back.
pub data PopoverOutcome : Type 0 where
  apply_filter : Transformation → PopoverOutcome
  cancel : PopoverOutcome
  clear_column : (column : Text) (pre_populated : Bool) → PopoverOutcome

unfoldable pub route_outcome :
    Host → ViewModel → PopoverOutcome → Option (ViewModel × Option ViewChange)
route_outcome h vm (apply_filter t) = some_change (Calls.set_filter h vm t)
route_outcome h vm (clear_column column true) = some_change (Calls.clear_filter h vm column)
route_outcome h vm (clear_column column false) = some (vm, none)
route_outcome h vm cancel = some (vm, none)

pub data Action : Type 0 where
  apply : Transformation → Action
  edit_cells : List CellEdit → Action
  delete_rows : List RowKey → Action
  undo redo clear rebind : Action
  jump_to remove_at : ℕ → Action
  replace_at_cursor : Transformation → Action
  set_sort : List SortKey → Action
  route : PopoverOutcome → Action
  reset_to_replayed : List Transformation → Action

unfoldable pub act : Host → ViewModel → Action → Option (ViewModel × Option ViewChange)
act h vm (Action.apply t) = some_change (Calls.apply h vm t)
act h vm (Action.edit_cells cells) = some_change (Calls.edit_cells h vm cells)
act h vm (Action.delete_rows rows) = some_change (Calls.delete_rows h vm rows)
act h vm Action.undo = Calls.undo h vm
act h vm Action.redo = Calls.redo h vm
act h vm Action.clear = some_change (Calls.clear h vm)
act h vm Action.rebind = some_change (Calls.rebind h vm)
act h vm (Action.jump_to k) = some_change (Calls.jump_to h vm k)
act h vm (Action.remove_at i) = some_change (Calls.remove_at h vm i)
act h vm (Action.replace_at_cursor t) = some_change (Calls.replace_at_cursor h vm t)
act h vm (Action.set_sort keys) = some_change (Calls.set_sort h vm keys)
act h vm (Action.route o) = route_outcome h vm o
act h vm (Action.reset_to_replayed ops) = some_change (Calls.reset_to_replayed h vm ops)

-- What the user interface checks before it makes the call: the transformations are renderable.
abbrev pub IsAdmissible : Host → Action → Type 0
IsAdmissible h (Action.apply t) = is_renderable h t ≡ true
IsAdmissible h (Action.edit_cells cells) = is_renderable h (edit cells) ≡ true
IsAdmissible h (Action.delete_rows rows) = is_renderable h (row_delete rows) ≡ true
IsAdmissible h (Action.replace_at_cursor t) = is_renderable h t ≡ true
IsAdmissible h (Action.route (apply_filter t)) = is_renderable h t ≡ true
IsAdmissible h (Action.reset_to_replayed ops) = all (is_renderable h) ops ≡ true
IsAdmissible h _ = Unit

-- A session of calls; it stops at a panic.
unfoldable pub run : Host → ViewModel → List Action → Option ViewModel
run h vm [] = some vm
run h vm (a ∷ rest) = elim (act h vm a) [ none ↦ none | some (vm', c) ↦ run h vm' rest ]
