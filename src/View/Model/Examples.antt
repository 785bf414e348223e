-- ===== src/View/Model/Examples.antt =====
-- Tests and instances for the view model.
use dat.Prelude.{[], ◌∷◌, ◌≡◌, refl, true, Text, codes, none, some, text_eq, ◌≤◌, arith}
use dat.Prelude.Decimal.{decimal}
use dat.Engine.Transform.{Transformation, FilterValue, filter, is_not_empty, is_empty}
use dat.Engine.Render.Literal.{Host, quote_ident, double}
use dat.Engine.Render.Filter.{render_filter, is_supported}
use dat.Engine.Render.Compile.{compile_view_sql, add_clauses, add_clause, assemble}
use dat.Engine.Render.Success.{is_renderable}
use dat.View.Model.{
  ViewModel, ViewChange, new, regenerate_view, bind_sql, checkpoint, evict, view_name,
  sanitize_for_view_name, is_name_byte,
}
use dat.View.Model.Calls.{
  apply, undo, redo, set_filter, set_sort, clear_filter, is_filter_on, is_sort, find_filter_for,
  current_sort_as_active,
}
use dat.View.Model.Action.{Action, act}
use dat.View.Model.Stacks.{IsValid, KeepsMaybe}
use dat.View.Model.Valid.{act-IsValid, new-IsValid}
use dat.View.Model.Undo.{ReturnsTo, redo-undo, undo-redo, undo-apply}
use dat.View.Model.Upsert.{
  count, without, find_filter_for-set_filter, current_sort-set_sort, find_filter_for-clear_filter,
}

abbrev pub host : Host
host = record { debug_f64 = λ _. codes "0.5"; regex_error = λ _. none }

abbrev pub qty : Text
qty = codes "qty"

abbrev has_qty : Transformation
has_qty = filter qty is_not_empty FilterValue.none

abbrev no_qty : Transformation
no_qty = filter qty is_empty FilterValue.none

abbrev fresh : ViewModel
fresh = new (codes "tab-1") (codes "\"orders\"")

-- After one filter.
abbrev pub filtered : ViewModel
filtered = record {
  tab_id = codes "tab-1";
  base_table = codes "\"orders\"";
  present = has_qty ∷ [];
  past = [] ∷ [];
  future = [];
  active_view = some (codes "v_tab1_1");
  active_view_sql = some (codes "SELECT * FROM \"orders\" WHERE (\"qty\" IS NOT NULL)");
  nonce_seq = 1;
}

-- After one filter and its undo.
abbrev undone : ViewModel
undone = record {
  tab_id = codes "tab-1";
  base_table = codes "\"orders\"";
  present = [];
  past = [];
  future = (has_qty ∷ []) ∷ [];
  active_view = none;
  active_view_sql = none;
  nonce_seq = 1;
}

fresh-IsValid : IsValid host fresh
fresh-IsValid = new-IsValid host (codes "tab-1") (codes "\"orders\"")

pub filtered-IsValid : IsValid host filtered
unfolding act apply regenerate_view bind_sql checkpoint evict compile_view_sql add_clauses
    add_clause render_filter quote_ident double assemble view_name sanitize_for_view_name
    is_name_byte decimal is_renderable is_supported
filtered-IsValid = act-IsValid host fresh (Action.apply has_qty) fresh-IsValid refl

undone-IsValid : IsValid host undone
unfolding act undo regenerate_view
undone-IsValid = act-IsValid host filtered Action.undo filtered-IsValid tt

has_qty-renderable : is_renderable host has_qty ≡ true
unfolding is_renderable is_supported
has_qty-renderable = refl

no_qty-renderable : is_renderable host no_qty ≡ true
unfolding is_renderable is_supported
no_qty-renderable = refl

act-IsValid_example : KeepsMaybe host (act host filtered (Action.set_sort []))
act-IsValid_example = act-IsValid host filtered (Action.set_sort []) filtered-IsValid tt

redo-undo_example : ReturnsTo (undo host filtered) (redo host) filtered
redo-undo_example = redo-undo host filtered filtered-IsValid refl

undo-redo_example : ReturnsTo (redo host undone) (undo host) undone
undo-redo_example = undo-redo host undone undone-IsValid refl

undo-apply_example :
    (vm1 vm2 : ViewModel) × (c1 c2 : ViewChange) × (apply host filtered no_qty ≡ some (vm1, c1))
    × (undo host vm1 ≡ some (vm2, some c2))
    × (vm1.present ≡ has_qty ∷ no_qty ∷ [])
    × (vm2.present ≡ has_qty ∷ [])
    × (vm2.future ≡ (has_qty ∷ no_qty ∷ []) ∷ [])
undo-apply_example = undo-apply host filtered no_qty filtered-IsValid no_qty-renderable

one_filter : count (is_filter_on qty) filtered.present ≤ 1
unfolding text_eq
one_filter = omega arith

find_filter_for-set_filter_example :
    (vm' : ViewModel) × (c : ViewChange) × (set_filter host filtered no_qty ≡ some (vm', c))
    × (find_filter_for vm' qty ≡ some no_qty)
    × (count (is_filter_on qty) vm'.present ≡ 1)
    × (without (is_filter_on qty) vm'.present ≡ without (is_filter_on qty) filtered.present)
find_filter_for-set_filter_example =
    find_filter_for-set_filter host filtered qty is_empty FilterValue.none filtered-IsValid
      no_qty-renderable one_filter

current_sort-set_sort_example :
    (vm' : ViewModel) × (c : ViewChange) × (set_sort host filtered [] ≡ some (vm', c))
    × (current_sort_as_active vm' ≡ [])
    × (count is_sort vm'.present ≡ 1)
    × (without is_sort vm'.present ≡ without is_sort filtered.present)
current_sort-set_sort_example =
    current_sort-set_sort host filtered [] filtered-IsValid (omega arith)

find_filter_for-clear_filter_example :
    (vm' : ViewModel) × (c : ViewChange) × (clear_filter host filtered qty ≡ some (vm', c))
    × (find_filter_for vm' qty ≡ none)
    × (vm'.present ≡ without (is_filter_on qty) filtered.present)
find_filter_for-clear_filter_example =
    find_filter_for-clear_filter host filtered qty filtered-IsValid one_filter
