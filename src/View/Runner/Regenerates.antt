-- ===== src/View/Runner/Regenerates.antt =====
-- Every call on the model but `rebind` regenerates the view, of stacks of its own and with the view
-- that was bound, or changes nothing.
use dat.Prelude.{
  ℕ, Bool, true, false, List, [], ◌∷◌, Option, none, some, ◌≡◌, refl, ◌⊎◌, inl, inr, Bool-cases,
  min, length, leb, ◌==◌,
}
use mathlib.Core.Bool.{true≢false}
use dat.Engine.Transform.{Transformation, filter, sort, edit, row_delete}
use dat.Engine.Render.Literal.{Host}
use dat.View.Model.{ViewModel, ViewChange, is_nil, regenerate_view, checkpoint, Outcome}
use dat.View.Model.Calls.{
  apply, edit_cells, delete_rows, undo, redo, clear, clear_filter, jump_to, remove_at,
  replace_at_cursor, set_sort, set_filter, reset_to_replayed, upsert_at, clear_at, undo_from,
  redo_from, some_change,
}
use dat.View.Model.Action.{
  PopoverOutcome, apply_filter, cancel, clear_column, route_outcome, Action, act,
}

-- The same view, or the same but for its SQL, which is forgotten.
pub record SameView (vm vm0 : ViewModel) : Type 0 where
  pub tab_id : vm0.tab_id ≡ vm.tab_id
  pub active_view : vm0.active_view ≡ vm.active_view
  pub nonce_seq : vm0.nonce_seq ≡ vm.nonce_seq
  pub active_view_sql : (vm0.active_view_sql ≡ vm.active_view_sql) ⊎ (vm0.active_view_sql ≡ none)

abbrev pub IsRegenerated : Host → ViewModel → Outcome → Type 0
IsRegenerated h vm out = (vm0 : ViewModel) × SameView vm vm0 × (out ≡ regenerate_view h vm0)

same_view : (vm : ViewModel) → SameView vm vm
same_view vm = record {
  tab_id = refl;
  active_view = refl;
  nonce_seq = refl;
  active_view_sql = inl refl;
}

module _ (h : Host) (vm : ViewModel) where
  at_once : IsRegenerated h vm (regenerate_view h vm)
  at_once = (vm, same_view vm, refl)

  with_stacks :
      (past future : List (List Transformation)) (present : List Transformation)
      → IsRegenerated h vm
          (regenerate_view h (record vm { past = past; future = future; present = present }))
  with_stacks past future present = (
    record vm { past = past; future = future; present = present },
    record { tab_id = refl; active_view = refl; nonce_seq = refl; active_view_sql = inl refl },
    refl,
  )

  checkpointed :
      (present : List Transformation)
      → IsRegenerated h vm (regenerate_view h (record (checkpoint vm) { present = present }))
  unfolding checkpoint
  checkpointed present = with_stacks _ _ present

  apply-IsRegenerated : (t : Transformation) → IsRegenerated h vm (apply h vm t)
  unfolding apply
  apply-IsRegenerated t = checkpointed _

  clear-IsRegenerated : IsRegenerated h vm (clear h vm)
  unfolding clear
  clear-IsRegenerated = elim (Bool-cases (is_nil vm.present)) [
    | inl e ↦ rw e at_once
    | inr e ↦ rw e (checkpointed _)
  ]

  jump_to-IsRegenerated : (k : ℕ) → IsRegenerated h vm (jump_to h vm k)
  unfolding jump_to
  jump_to-IsRegenerated k = elim (Bool-cases (min k (length vm.present) == length vm.present)) [
    | inl e ↦ rw e at_once
    | inr e ↦ rw e (checkpointed _)
  ]

  remove_at-IsRegenerated : (i : ℕ) → IsRegenerated h vm (remove_at h vm i)
  unfolding remove_at
  remove_at-IsRegenerated i = elim (Bool-cases (leb (length vm.present) i)) [
    | inl e ↦ rw e at_once
    | inr e ↦ rw e (checkpointed _)
  ]

  clear_at-IsRegenerated : (found : Option ℕ) → IsRegenerated h vm (clear_at h vm found)
  clear_at-IsRegenerated (some i) = remove_at-IsRegenerated i
  clear_at-IsRegenerated none = at_once

  replace_at_cursor-IsRegenerated :
      (t : Transformation) → IsRegenerated h vm (replace_at_cursor h vm t)
  unfolding replace_at_cursor
  replace_at_cursor-IsRegenerated t = elim (Bool-cases (is_nil vm.present)) [
    | inl e ↦ rw e at_once
    | inr e ↦ rw e (with_stacks _ _ _)
  ]

  upsert_at-IsRegenerated :
      (t : Transformation) (found : Option ℕ) → IsRegenerated h vm (upsert_at h vm t found)
  upsert_at-IsRegenerated t (some i) = with_stacks _ _ _
  upsert_at-IsRegenerated t none = apply-IsRegenerated t

  set_filter-IsRegenerated : (t : Transformation) → IsRegenerated h vm (set_filter h vm t)
  unfolding set_filter
  set_filter-IsRegenerated (filter c o x) = upsert_at-IsRegenerated (filter c o x) _
  set_filter-IsRegenerated t = apply-IsRegenerated t

  reset_to_replayed-IsRegenerated :
      (ops : List Transformation) → IsRegenerated h vm (reset_to_replayed h vm ops)
  unfolding reset_to_replayed
  reset_to_replayed-IsRegenerated ops = (
    record vm { past = []; future = []; present = ops; active_view_sql = none },
    record { tab_id = refl; active_view = refl; nonce_seq = refl; active_view_sql = inr refl },
    refl,
  )

abbrev pub is_rebind : Action → Bool
is_rebind Action.rebind = true
is_rebind _ = false

-- What a call returns: nothing changed, or a view generated.
abbrev pub Regenerates : Host → ViewModel → Option (ViewModel × Option ViewChange) → Type 0
Regenerates h vm out =
    (out ≡ some (vm, none)) ⊎ ((o : Outcome) × IsRegenerated h vm o × (out ≡ some_change o))

module _ (h : Host) (vm : ViewModel) where
  change : (o : Outcome) → IsRegenerated h vm o → Regenerates h vm (some_change o)
  change o r = inr (o, r, refl)

  undo_from-Regenerates :
      (stack : List (List Transformation)) → Regenerates h vm (undo_from h vm stack)
  undo_from-Regenerates [] = inl refl
  undo_from-Regenerates (prev ∷ rest) = change _ (with_stacks h vm _ _ _)

  redo_from-Regenerates :
      (stack : List (List Transformation)) → Regenerates h vm (redo_from h vm stack)
  redo_from-Regenerates [] = inl refl
  redo_from-Regenerates (next ∷ rest) = change _ (with_stacks h vm _ _ _)

  route_outcome-Regenerates : (o : PopoverOutcome) → Regenerates h vm (route_outcome h vm o)
  unfolding route_outcome clear_filter
  route_outcome-Regenerates (apply_filter t) = change _ (set_filter-IsRegenerated h vm t)
  route_outcome-Regenerates (clear_column column true) = change _ (clear_at-IsRegenerated h vm _)
  route_outcome-Regenerates (clear_column column false) = inl refl
  route_outcome-Regenerates cancel = inl refl

  pub act-Regenerates : (a : Action) → is_rebind a ≡ false → Regenerates h vm (act h vm a)
  unfolding act undo redo edit_cells delete_rows set_sort
  act-Regenerates (Action.apply t) n = change _ (apply-IsRegenerated h vm t)
  act-Regenerates (Action.edit_cells c) n = change _ (apply-IsRegenerated h vm (edit c))
  act-Regenerates (Action.delete_rows c) n = change _ (apply-IsRegenerated h vm (row_delete c))
  act-Regenerates Action.undo n = undo_from-Regenerates vm.past
  act-Regenerates Action.redo n = redo_from-Regenerates vm.future
  act-Regenerates Action.clear n = change _ (clear-IsRegenerated h vm)
  act-Regenerates Action.rebind n = absurd (true≢false n)
  act-Regenerates (Action.jump_to k) n = change _ (jump_to-IsRegenerated h vm k)
  act-Regenerates (Action.remove_at i) n = change _ (remove_at-IsRegenerated h vm i)
  act-Regenerates (Action.replace_at_cursor t) n = change _ (replace_at_cursor-IsRegenerated h vm t)
  act-Regenerates (Action.set_sort keys) n = change _ (upsert_at-IsRegenerated h vm (sort keys) _)
  act-Regenerates (Action.route o) n = route_outcome-Regenerates o
  act-Regenerates (Action.reset_to_replayed ops) n =
      change _ (reset_to_replayed-IsRegenerated h vm ops)
