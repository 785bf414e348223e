-- ===== src/View/Model/Upsert.antt =====
-- `set_filter`, `set_sort` and `clear_filter` touch one transformation.
mod Single
use dat.Prelude.{
  ℕ, ◌≤◌, Bool, true, false, List, [], ◌∷◌, ◌++◌, Text, Option, none, some, ◌≡◌, refl, sym, ◌∙◌, ap,
  arith, length, all, position, ◌<◌, leb, set, text_eq, text_eq_iff, erase_idx, Option-cases, inl,
  inr,
}
use dat.Prelude.Predicates.{all-append, all-set, all-erase_idx}
use dat.Engine.Transform.{FilterOp, FilterValue, SortKey, Transformation, filter, sort}
use dat.Engine.Render.Literal.{Host}
use dat.Engine.Render.Success.{is_renderable}
use dat.View.Model.{ViewModel, ViewChange, Outcome, regenerate_view, checkpoint}
use dat.View.Model.Calls.{
  apply, upsert_at, clear_at, set_filter, set_sort, clear_filter, is_filter_on, is_sort, rposition,
  rfind, find_filter_for, current_sort_as_active, keys_of, remove_at,
}
use dat.View.Model.Stacks.{HasStacks, IsValid, checkpoint-HasStacks, replace-HasStacks}
use dat.View.Model.Regenerate.{regenerate_view_total}
use Single.{
  put, put_at, put_at-position, erase_at, erase_at-rposition, rfind-put, without-put, count-put,
  rfind-without, lt-length-rposition,
}
pub use Single.{count, without}

-- The call returns a model with this present stack.
pub record Presents (out : Outcome) (ops : List Transformation) : Type 0 where
  pub model : ViewModel
  pub change : ViewChange
  pub result : out ≡ some (model, change)
  pub present : model.present ≡ ops

regenerate_view-Presents :
    (h : Host) (vm : ViewModel) → HasStacks h vm → Presents (regenerate_view h vm) vm.present
regenerate_view-Presents h vm s =
    let (vm', c, e, k) = regenerate_view_total h vm s.named s.present in
    record { model = vm'; change = c; result = e; present = k.same.present }

module _ (h : Host) (vm : ViewModel) (s : HasStacks h vm) where
  upsert_at-Presents :
      (t : Transformation) (found : Option ℕ)
      → is_renderable h t ≡ true
      → Presents (upsert_at h vm t found) (put_at vm.present t found)
  unfolding apply checkpoint
  upsert_at-Presents t none r = regenerate_view-Presents h _ (
      checkpoint-HasStacks (vm.present ++ t ∷ []) s
        (all-append (is_renderable h) vm.present (t ∷ []) s.present (rw r)))
  upsert_at-Presents t (some i) r = regenerate_view-Presents h _ (
      replace-HasStacks (set vm.present i t) s
        (all-set (is_renderable h) vm.present i t s.present r))

  upsert-Presents :
      (p : Transformation → Bool) (t : Transformation)
      → is_renderable h t ≡ true
      → Presents (upsert_at h vm t (position p vm.present)) (put p vm.present t)
  upsert-Presents p t r =
      rw (← put_at-position p vm.present t) (upsert_at-Presents t (position p vm.present) r)

  clear_at-Presents :
      (found : Option ℕ)
      → ((i : ℕ) → found ≡ some i → i < length vm.present)
      → Presents (clear_at h vm found) (erase_at vm.present found)
  unfolding remove_at checkpoint
  clear_at-Presents none lt = regenerate_view-Presents h vm s
  clear_at-Presents (some i) lt =
      let inside : leb (length vm.present) i ≡ false = ground (arith, lt i refl) in
      rw inside (
        regenerate_view-Presents h _ (
          checkpoint-HasStacks (erase_idx vm.present i) s
            (all-erase_idx (is_renderable h) vm.present i s.present)))

-- On a valid model with at most one filter on a column, `set_filter` with a renderable filter on
-- it returns; the new filter is then the one that `find_filter_for` finds, it is the only one on
-- the column, and the other transformations are what they were, in their order.
pub find_filter_for-set_filter :
    (h : Host) (vm : ViewModel) (column : Text) (op : FilterOp) (value : FilterValue)
    → IsValid h vm
    → is_renderable h (filter column op value) ≡ true
    → count (is_filter_on column) vm.present ≤ 1
    → (vm' : ViewModel) × (c : ViewChange) × (set_filter h vm (filter column op value)
        ≡ some (vm', c))
      × (find_filter_for vm' column ≡ some (filter column op value))
      × (count (is_filter_on column) vm'.present ≡ 1)
      × (without (is_filter_on column) vm'.present ≡ without (is_filter_on column) vm.present)
unfolding set_filter find_filter_for
find_filter_for-set_filter h vm column op value v r one =
    let t : Transformation = filter column op value in
    let p : Transformation → Bool = is_filter_on column in
    let same : p t ≡ true = (text_eq_iff column column).1 refl in
    let u = upsert-Presents h vm v.stacks p t r in
    (
      u.model,
      u.change,
      u.result,
      rw u.present (rfind-put p vm.present t same one),
      rw u.present (count-put p vm.present t same one),
      rw u.present (without-put p vm.present t same),
    )

-- On a valid model with at most one sort, `set_sort` returns; the new keys are then the ones that
-- the header reads back, the sort is the only one, and the other transformations are what they
-- were, in their order.
pub current_sort-set_sort :
    (h : Host) (vm : ViewModel) (keys : List SortKey)
    → IsValid h vm
    → count is_sort vm.present ≤ 1
    → (vm' : ViewModel) × (c : ViewChange) × (set_sort h vm keys ≡ some (vm', c))
      × (current_sort_as_active vm' ≡ keys)
      × (count is_sort vm'.present ≡ 1)
      × (without is_sort vm'.present ≡ without is_sort vm.present)
unfolding set_sort current_sort_as_active
current_sort-set_sort h vm keys v one =
    let u = upsert-Presents h vm v.stacks is_sort (sort keys) (unfold is_renderable in refl) in
    (
      u.model,
      u.change,
      u.result,
      rw u.present (ap keys_of (rfind-put is_sort vm.present (sort keys) refl one)),
      rw u.present (count-put is_sort vm.present (sort keys) refl one),
      rw u.present (without-put is_sort vm.present (sort keys) refl),
    )

-- On a valid model with at most one filter on a column, `clear_filter` returns, and the present
-- stack is the old one without that filter: no filter on the column is found, and nothing else is
-- lost or moved.
pub find_filter_for-clear_filter :
    (h : Host) (vm : ViewModel) (column : Text)
    → IsValid h vm
    → count (is_filter_on column) vm.present ≤ 1
    → (vm' : ViewModel) × (c : ViewChange) × (clear_filter h vm column ≡ some (vm', c))
      × (find_filter_for vm' column ≡ none)
      × (vm'.present ≡ without (is_filter_on column) vm.present)
unfolding clear_filter find_filter_for
find_filter_for-clear_filter h vm column v one =
    let p : Transformation → Bool = is_filter_on column in
    let u =
      clear_at-Presents h vm v.stacks (rposition p vm.present)
        (λ i e. lt-length-rposition p vm.present i e) in
    let gone = erase_at-rposition p vm.present one in
    (
      u.model,
      u.change,
      u.result,
      rw (u.present, gone) (rfind-without p vm.present),
      u.present ∙ gone,
    )
