-- ===== src/View/Model/Valid.antt =====
-- Every call keeps the invariant, and none panics.
use dat.Prelude.{
  ℕ, true, false, List, [], ◌∷◌, ◌++◌, Text, Option, none, some, ◌≡◌, refl, arith, set, take,
  erase_idx, length, Bool-cases, inl, inr, min, leb, ◌==◌, ap,
}
use mathlib.Core.Path.{subst}
use dat.Prelude.Predicates.{All, all-append, all-take, all-erase_idx, all-set}
use dat.Engine.Transform.{Transformation, filter, sort, edit, row_delete}
use dat.Engine.Render.Literal.{Host}
use dat.Engine.Render.Success.{is_renderable}
use dat.View.Model.{ViewModel, new, checkpoint, is_nil}
use dat.View.Model.Calls.{
  apply, edit_cells, delete_rows, undo, redo, clear, clear_filter, jump_to, remove_at,
  replace_at_cursor, replace_last, set_sort, set_filter, reset_to_replayed, rebind, upsert_at,
  clear_at, undo_from, redo_from,
}
use dat.View.Model.Action.{
  PopoverOutcome, apply_filter, cancel, clear_column, route_outcome, Action, act, IsAdmissible,
}
use dat.View.Model.Stacks.{
  Renders, HasStacks, IsValid, Keeps, regenerate_view-Keeps, checkpoint-HasStacks,
  replace-HasStacks, all-replace_last, KeepsMaybe, some_change-Keeps,
}

module _ (h : Host) (vm : ViewModel) (v : IsValid h vm) where
  s : HasStacks h vm
  s = v.stacks

  apply-Keeps : (t : Transformation) → is_renderable h t ≡ true → Keeps h (apply h vm t)
  unfolding apply checkpoint
  apply-Keeps t r = regenerate_view-Keeps (
      checkpoint-HasStacks (vm.present ++ t ∷ []) s
        (all-append (is_renderable h) vm.present (t ∷ []) s.present (rw r)))

  clear-Keeps : Keeps h (clear h vm)
  unfolding clear
  clear-Keeps = elim (Bool-cases (is_nil vm.present)) [
    | inl e ↦ rw e (regenerate_view-Keeps s)
    | inr e ↦ rw e (regenerate_view-Keeps (checkpoint-HasStacks [] s refl))
  ]

  jump_to-Keeps : (k : ℕ) → Keeps h (jump_to h vm k)
  unfolding jump_to
  jump_to-Keeps k = elim (Bool-cases (min k (length vm.present) == length vm.present)) [
    | inl e ↦ rw e (regenerate_view-Keeps s)
    | inr e ↦ rw e (
        regenerate_view-Keeps (
          checkpoint-HasStacks (take (min k (length vm.present)) vm.present) s
            (all-take (is_renderable h) (min k (length vm.present)) vm.present s.present)))
  ]

  remove_at-Keeps : (i : ℕ) → Keeps h (remove_at h vm i)
  unfolding remove_at
  remove_at-Keeps i = elim (Bool-cases (leb (length vm.present) i)) [
    | inl e ↦ rw e (regenerate_view-Keeps s)
    | inr e ↦ rw e (
        regenerate_view-Keeps (
          checkpoint-HasStacks (erase_idx vm.present i) s
            (all-erase_idx (is_renderable h) vm.present i s.present)))
  ]

  clear_at-Keeps : (found : Option ℕ) → Keeps h (clear_at h vm found)
  clear_at-Keeps (some i) = remove_at-Keeps i
  clear_at-Keeps none = regenerate_view-Keeps s

  replace_at_cursor-Keeps :
      (t : Transformation) → is_renderable h t ≡ true → Keeps h (replace_at_cursor h vm t)
  unfolding replace_at_cursor
  replace_at_cursor-Keeps t r = elim (Bool-cases (is_nil vm.present)) [
    | inl e ↦ rw e (regenerate_view-Keeps s)
    | inr e ↦ rw e (
        regenerate_view-Keeps (
          replace-HasStacks (replace_last vm.present t) s
            (all-replace_last h vm.present t s.present r)))
  ]

  upsert_at-Keeps :
      (t : Transformation) (found : Option ℕ)
      → is_renderable h t ≡ true
      → Keeps h (upsert_at h vm t found)
  upsert_at-Keeps t (some i) r = regenerate_view-Keeps (
      replace-HasStacks (set vm.present i t) s
        (all-set (is_renderable h) vm.present i t s.present r))
  upsert_at-Keeps t none r = apply-Keeps t r

  set_filter-Keeps : (t : Transformation) → is_renderable h t ≡ true → Keeps h (set_filter h vm t)
  unfolding set_filter
  set_filter-Keeps (filter c o x) r = upsert_at-Keeps (filter c o x) _ r
  set_filter-Keeps t r = apply-Keeps t r

  reset_to_replayed-Keeps :
      (ops : List Transformation) → Renders h ops → Keeps h (reset_to_replayed h vm ops)
  unfolding reset_to_replayed
  reset_to_replayed-Keeps ops r = regenerate_view-Keeps (record {
    bounded = omega arith;
    present = r;
    past = tt;
    future = tt;
    named = record { name = s.named.name; nonce_lt = s.named.nonce_lt };
  })

  rebind-Keeps : Keeps h (rebind h vm)
  unfolding rebind
  rebind-Keeps = regenerate_view-Keeps (record {
    bounded = s.bounded;
    present = s.present;
    past = s.past;
    future = s.future;
    named = record { name = inl refl; nonce_lt = s.named.nonce_lt };
  })

  undo_from-Keeps :
      (stack : List (List Transformation)) → vm.past ≡ stack → KeepsMaybe h (undo_from h vm stack)
  undo_from-Keeps [] e = v
  undo_from-Keeps (prev ∷ rest) e = some_change-Keeps h _ (
      regenerate_view-Keeps (record {
        bounded = omega (arith, s.bounded, ap length e);
        present = (subst (All (Renders h)) e s.past).0;
        past = (subst (All (Renders h)) e s.past).1;
        future = (s.present, s.future);
        named = record { name = s.named.name; nonce_lt = s.named.nonce_lt };
      }))

  redo_from-Keeps :
      (stack : List (List Transformation)) → vm.future ≡ stack → KeepsMaybe h (redo_from h vm stack)
  redo_from-Keeps [] e = v
  redo_from-Keeps (next ∷ rest) e = some_change-Keeps h _ (
      regenerate_view-Keeps (record {
        bounded = omega (arith, s.bounded, ap length e);
        present = (subst (All (Renders h)) e s.future).0;
        past = (s.present, s.past);
        future = (subst (All (Renders h)) e s.future).1;
        named = record { name = s.named.name; nonce_lt = s.named.nonce_lt };
      }))

  route_outcome-Keeps :
      (o : PopoverOutcome) → IsAdmissible h (Action.route o) → KeepsMaybe h (route_outcome h vm o)
  unfolding route_outcome clear_filter
  route_outcome-Keeps (apply_filter t) r = some_change-Keeps h _ (set_filter-Keeps t r)
  route_outcome-Keeps (clear_column column true) r = some_change-Keeps h _ (clear_at-Keeps _)
  route_outcome-Keeps (clear_column column false) r = v
  route_outcome-Keeps cancel r = v

-- From a valid model, every call with renderable transformations returns (the SQL of the view
-- always compiles), and leaves a valid model: at most 200 snapshots, all of them renderable, and
-- the bound view is the one of the present stack.
pub act-IsValid :
    (h : Host) (vm : ViewModel) (a : Action)
    → IsValid h vm
    → IsAdmissible h a
    → KeepsMaybe h (act h vm a)
unfolding act undo redo edit_cells delete_rows set_sort
act-IsValid h vm (Action.apply t) v r = some_change-Keeps h _ (apply-Keeps h vm v t r)
act-IsValid h vm (Action.edit_cells c) v r = some_change-Keeps h _ (apply-Keeps h vm v (edit c) r)
act-IsValid h vm (Action.delete_rows c) v r =
    some_change-Keeps h _ (apply-Keeps h vm v (row_delete c) r)
act-IsValid h vm Action.undo v r = undo_from-Keeps h vm v vm.past refl
act-IsValid h vm Action.redo v r = redo_from-Keeps h vm v vm.future refl
act-IsValid h vm Action.clear v r = some_change-Keeps h _ (clear-Keeps h vm v)
act-IsValid h vm Action.rebind v r = some_change-Keeps h _ (rebind-Keeps h vm v)
act-IsValid h vm (Action.jump_to k) v r = some_change-Keeps h _ (jump_to-Keeps h vm v k)
act-IsValid h vm (Action.remove_at i) v r = some_change-Keeps h _ (remove_at-Keeps h vm v i)
act-IsValid h vm (Action.replace_at_cursor t) v r =
    some_change-Keeps h _ (replace_at_cursor-Keeps h vm v t r)
act-IsValid h vm (Action.set_sort keys) v r =
    some_change-Keeps h _ (upsert_at-Keeps h vm v (sort keys) _ (unfold is_renderable in refl))
act-IsValid h vm (Action.route o) v r = route_outcome-Keeps h vm v o r
act-IsValid h vm (Action.reset_to_replayed ops) v r =
    some_change-Keeps h _ (reset_to_replayed-Keeps h vm v ops r)

pub new-IsValid : (h : Host) (tab base : Text) → IsValid h (new tab base)
new-IsValid h tab base = record {
  stacks = record {
    bounded = omega arith;
    present = refl;
    past = tt;
    future = tt;
    named = record { name = inl refl; nonce_lt = omega arith };
  };
  synced = record { idle = λ _. refl; bound = λ n. absurd (n refl) };
}
