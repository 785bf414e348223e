-- ===== src/View/Model/Calls.antt =====
-- The methods of `ViewModel` that change it, and the queries on its present stack.
use dat.Prelude.{
  ℕ, suc, Bool, true, false, List, [], ◌∷◌, ◌++◌, Text, Option, none, some, leb, ◌==◌,
  if◌then◌else◌, length, take, set, erase_idx, position, any, text_eq, min,
}
use dat.Engine.Transform.{RowKey, CellEdit, SortKey, Transformation, filter, sort, edit, row_delete}
use dat.Engine.Render.Literal.{Host}
use dat.View.Model.{ViewModel, ViewChange, Outcome, is_nil, regenerate_view, checkpoint}

unfoldable pub apply : Host → ViewModel → Transformation → Outcome
apply h vm t =
    let c = checkpoint vm in regenerate_view h (record c { present = c.present ++ t ∷ [] })

unfoldable pub edit_cells : Host → ViewModel → List CellEdit → Outcome
edit_cells h vm cells = apply h vm (edit cells)

unfoldable pub delete_rows : Host → ViewModel → List RowKey → Outcome
delete_rows h vm rows = apply h vm (row_delete rows)

abbrev is_overlay : Transformation → Bool
is_overlay (edit _) = true
is_overlay (row_delete _) = true
is_overlay _ = false

unfoldable pub is_dirty : ViewModel → Bool
is_dirty vm = any is_overlay vm.present

abbrev pub some_change : Outcome → Option (ViewModel × Option ViewChange)
some_change none = none
some_change (some (vm, c)) = some (vm, some c)

-- `pop` from one stack of snapshots, and push the present stack on the other. The second part of
-- the result is `none` where there is nothing to pop.
abbrev pub undo_from :
    Host → ViewModel → List (List Transformation) → Option (ViewModel × Option ViewChange)
undo_from h vm [] = some (vm, none)
undo_from h vm (prev ∷ rest) =
    some_change (
      regenerate_view h
        (record vm { past = rest; future = vm.present ∷ vm.future; present = prev }))

abbrev pub redo_from :
    Host → ViewModel → List (List Transformation) → Option (ViewModel × Option ViewChange)
redo_from h vm [] = some (vm, none)
redo_from h vm (next ∷ rest) =
    some_change
      (regenerate_view h (record vm { past = vm.present ∷ vm.past; future = rest; present = next }))

unfoldable pub undo : Host → ViewModel → Option (ViewModel × Option ViewChange)
undo h vm = undo_from h vm vm.past

unfoldable pub redo : Host → ViewModel → Option (ViewModel × Option ViewChange)
redo h vm = redo_from h vm vm.future

unfoldable pub clear : Host → ViewModel → Outcome
clear h vm =
    if is_nil vm.present
    then regenerate_view h vm
    else regenerate_view h (record (checkpoint vm) { present = [] })

unfoldable pub jump_to : Host → ViewModel → ℕ → Outcome
jump_to h vm k =
    let k' = min k (length vm.present) in
    if k' == length vm.present
    then regenerate_view h vm
    else regenerate_view h (record (checkpoint vm) { present = take k' vm.present })

unfoldable pub remove_at : Host → ViewModel → ℕ → Outcome
remove_at h vm i =
    if leb (length vm.present) i
    then regenerate_view h vm
    else regenerate_view h (record (checkpoint vm) { present = erase_idx vm.present i })

abbrev pub is_filter_on : Text → Transformation → Bool
is_filter_on column (filter c _ _) = text_eq c column
is_filter_on column _ = false

abbrev pub is_sort : Transformation → Bool
is_sort (sort _) = true
is_sort _ = false

-- A later position, or this one.
abbrev pub or_here : Option ℕ → Bool → Option ℕ
or_here (some i) b = some (suc i)
or_here none b = if b then some 0 else none

-- `iter().rposition(p)`
abbrev pub rposition {ℓ} : {A : Type ℓ} → (A → Bool) → List A → Option ℕ
rposition p [] = none
rposition p (x ∷ xs) = or_here (rposition p xs) (p x)

-- `iter().rfind(p)`
abbrev pub rfind {ℓ} : {A : Type ℓ} → (A → Bool) → List A → Option A
rfind p [] = none
rfind p (x ∷ xs) = elim (rfind p xs) [ some y ↦ some y | none ↦ if p x then some x else none ]

-- The two arms of the `match` in `clear_filter`.
abbrev pub clear_at : Host → ViewModel → Option ℕ → Outcome
clear_at h vm (some i) = remove_at h vm i
clear_at h vm none = regenerate_view h vm

unfoldable pub clear_filter : Host → ViewModel → Text → Outcome
clear_filter h vm column = clear_at h vm (rposition (is_filter_on column) vm.present)

-- `if let Some(last) = present.last_mut() { *last = t }`
unfoldable pub replace_last : List Transformation → Transformation → List Transformation
replace_last [] t = []
replace_last (x ∷ []) t = t ∷ []
replace_last (x ∷ y ∷ ys) t = x ∷ replace_last (y ∷ ys) t

unfoldable pub replace_at_cursor : Host → ViewModel → Transformation → Outcome
unfolding replace_last
replace_at_cursor h vm t =
    if is_nil vm.present
    then regenerate_view h vm
    else regenerate_view h (record vm { present = replace_last vm.present t; future = [] })

-- The `if let Some(idx) = … else` of `set_sort` and `set_filter`: replace in place, or append.
abbrev pub upsert_at : Host → ViewModel → Transformation → Option ℕ → Outcome
upsert_at h vm t (some idx) =
    regenerate_view h (record vm { present = set vm.present idx t; future = [] })
upsert_at h vm t none = apply h vm t

unfoldable pub set_sort : Host → ViewModel → List SortKey → Outcome
set_sort h vm keys = upsert_at h vm (sort keys) (position is_sort vm.present)

-- The `debug_assert` on another transformation than a filter is not in a release build.
unfoldable pub set_filter : Host → ViewModel → Transformation → Outcome
set_filter h vm (filter column op value) =
    upsert_at h vm (filter column op value) (position (is_filter_on column) vm.present)
set_filter h vm t = apply h vm t

unfoldable pub reset_to_replayed : Host → ViewModel → List Transformation → Outcome
reset_to_replayed h vm ops =
    regenerate_view h (record vm { past = []; future = []; present = ops; active_view_sql = none })

unfoldable pub rebind : Host → ViewModel → Outcome
rebind h vm = regenerate_view h (record vm { active_view = none; active_view_sql = none })

abbrev pub keys_of : Option Transformation → List SortKey
keys_of (some (sort keys)) = keys
keys_of _ = []

unfoldable pub current_sort_as_active : ViewModel → List SortKey
current_sort_as_active vm = keys_of (rfind is_sort vm.present)

unfoldable pub find_filter_for : ViewModel → Text → Option Transformation
find_filter_for vm column = rfind (is_filter_on column) vm.present
