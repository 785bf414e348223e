-- ===== src/View/Model/Undo.antt =====
-- Undo and redo take each other back.
use dat.Prelude.{
  true, false, List, [], ◌∷◌, ◌++◌, Option, some, if◌then◌else◌, ◌≡◌, refl, sym, ◌∙◌, ap, arith,
  length, take, ◌-◌, ap₂, ltb, Bool-cases, inl, inr, suc,
}
use dat.Prelude.Predicates.{All, all-append}
use mathlib.Core.Path.{subst}
use dat.Engine.Transform.{Transformation}
use dat.Engine.Render.Literal.{Host}
use dat.Engine.Render.Success.{is_renderable}
use dat.View.Model.{
  ViewModel, ViewChange, regenerate_view, can_undo, can_redo, is_nil, history_cap, evict,
  checkpoint,
}
use dat.View.Model.Calls.{some_change, apply, undo, redo, undo_from, redo_from}
use dat.View.Model.Stacks.{Renders, IsValid}
use dat.View.Model.Regenerate.{IsNamed, regenerate_view_total, SameStacks}

-- A call that returned `vm'` and some change, with the stacks of `vm'`.
record Moved (h : Host) (vm vm' : ViewModel) (out : Option (ViewModel × Option ViewChange))
    (present : List Transformation) (past future : List (List Transformation)) : Type 0 where
  change : ViewChange
  result : out ≡ some (vm', some change)
  named : IsNamed vm'
  tab_id : vm'.tab_id ≡ vm.tab_id
  base_table : vm'.base_table ≡ vm.base_table
  at_present : vm'.present ≡ present
  at_past : vm'.past ≡ past
  at_future : vm'.future ≡ future

module _ (h : Host) (vm : ViewModel) (i : IsNamed vm) where
  regenerate-Moved :
      (present : List Transformation) (past future : List (List Transformation))
      → Renders h present
      → (vm' : ViewModel) × Moved h vm vm'
          (some_change
            (regenerate_view h (record vm { past = past; future = future; present = present })))
          present
          past
          future
  regenerate-Moved present past future r =
      let (vm', c, e, k) =
        regenerate_view_total h (record vm { past = past; future = future; present = present })
          (record { name = i.name; nonce_lt = i.nonce_lt }) r in
      (
        vm',
        record {
          change = c;
          result = ap some_change e;
          named = k.named;
          tab_id = k.same.tab_id;
          base_table = k.same.base_table;
          at_present = k.same.present;
          at_past = k.same.past;
          at_future = k.same.future;
        },
      )

  undo-Moved :
      {prev : List Transformation} {rest : List (List Transformation)}
      → vm.past ≡ prev ∷ rest
      → Renders h prev
      → (vm' : ViewModel) × Moved h vm vm' (undo h vm) prev rest (vm.present ∷ vm.future)
  unfolding undo
  undo-Moved {prev} {rest} e r =
      subst
        (λ stack.
          (vm' : ViewModel) × Moved h vm vm' (undo_from h vm stack) prev rest
            (vm.present ∷ vm.future))
        (sym e) (regenerate-Moved prev rest (vm.present ∷ vm.future) r)

  redo-Moved :
      {next : List Transformation} {rest : List (List Transformation)}
      → vm.future ≡ next ∷ rest
      → Renders h next
      → (vm' : ViewModel) × Moved h vm vm' (redo h vm) next (vm.present ∷ vm.past) rest
  unfolding redo
  redo-Moved {next} {rest} e r =
      subst
        (λ stack.
          (vm' : ViewModel) × Moved h vm vm' (redo_from h vm stack) next (vm.present ∷ vm.past)
            rest)
        (sym e) (regenerate-Moved next (vm.present ∷ vm.past) rest r)

-- Eviction never takes the newest snapshot.
evict-cons :
    (s : List Transformation) (past : List (List Transformation))
    → (rest : List (List Transformation)) × (evict (s ∷ past) ≡ s ∷ rest)
unfolding evict
evict-cons s past = elim (Bool-cases (ltb history_cap (suc (length past)))) [
  | inl over ↦
      let cap : suc (length past) - (suc (length past) - history_cap) ≡ suc 199 = ground arith in
      (take 199 past, rw over (rw cap))
  | inr fits ↦ (past, rw fits)
]

-- The two calls return one after the other, and the second one ends with the given model.
pub record ReturnsTo (first : Option (ViewModel × Option ViewChange))
    (second : ViewModel → Option (ViewModel × Option ViewChange)) (vm : ViewModel) : Type 0 where
  pub middle : ViewModel
  pub last : ViewModel
  pub change : ViewChange
  pub change' : ViewChange
  pub first_result : first ≡ some (middle, some change)
  pub second_result : second middle ≡ some (last, some change')
  pub stacks : SameStacks vm last

cons-of-not-nil {ℓ} :
    {A : Type ℓ} (xs : List A)
    → (if is_nil xs then false else true) ≡ true
    → (x : A) × (rest : List A) × (xs ≡ x ∷ rest)
cons-of-not-nil [] h = cc
cons-of-not-nil (x ∷ xs) h = (x, xs, refl)

-- From a valid model with something to undo, `undo` and then `redo` both return, and give back
-- the present stack and both stacks of snapshots.
pub redo-undo :
    (h : Host) (vm : ViewModel)
    → IsValid h vm
    → can_undo vm ≡ true
    → ReturnsTo (undo h vm) (redo h) vm
redo-undo h vm v u =
    let (prev, rest, e) = cons-of-not-nil vm.past u in
    let (vm1, m1) = undo-Moved h vm v.stacks.named e (subst (All (Renders h)) e v.stacks.past).0 in
    let (vm2, m2) = redo-Moved h vm1 m1.named m1.at_future v.stacks.present in
    record {
      middle = vm1;
      last = vm2;
      change = m1.change;
      change' = m2.change;
      first_result = m1.result;
      second_result = m2.result;
      stacks = record {
        tab_id = m2.tab_id ∙ m1.tab_id;
        base_table = m2.base_table ∙ m1.base_table;
        present = m2.at_present;
        past = m2.at_past ∙ ap₂ (◌∷◌) m1.at_present m1.at_past ∙ sym e;
        future = m2.at_future;
      };
    }

-- From a valid model with something to redo, `redo` and then `undo` both return, and give back
-- the present stack and both stacks of snapshots.
pub undo-redo :
    (h : Host) (vm : ViewModel)
    → IsValid h vm
    → can_redo vm ≡ true
    → ReturnsTo (redo h vm) (undo h) vm
undo-redo h vm v u =
    let (next, rest, e) = cons-of-not-nil vm.future u in
    let (vm1, m1) =
      redo-Moved h vm v.stacks.named e (subst (All (Renders h)) e v.stacks.future).0 in
    let (vm2, m2) = undo-Moved h vm1 m1.named m1.at_past v.stacks.present in
    record {
      middle = vm1;
      last = vm2;
      change = m1.change;
      change' = m2.change;
      first_result = m1.result;
      second_result = m2.result;
      stacks = record {
        tab_id = m2.tab_id ∙ m1.tab_id;
        base_table = m2.base_table ∙ m1.base_table;
        present = m2.at_present;
        past = m2.at_past;
        future = m2.at_future ∙ ap₂ (◌∷◌) m1.at_present m1.at_future ∙ sym e;
      };
    }

-- `apply` is one undo step, also where the history is full: `apply` and then `undo` both return,
-- the present stack is the old one, and what is kept for `redo` is the stack with the new
-- transformation.
pub undo-apply :
    (h : Host) (vm : ViewModel) (t : Transformation)
    → IsValid h vm
    → is_renderable h t ≡ true
    → (vm1 vm2 : ViewModel) × (c1 c2 : ViewChange) × (apply h vm t ≡ some (vm1, c1))
      × (undo h vm1 ≡ some (vm2, some c2))
      × (vm1.present ≡ vm.present ++ t ∷ [])
      × (vm2.present ≡ vm.present)
      × (vm2.future ≡ (vm.present ++ t ∷ []) ∷ [])
unfolding apply checkpoint
undo-apply h vm t v r =
    let applied : ViewModel = record (checkpoint vm) { present = vm.present ++ t ∷ [] } in
    let (vm1, c1, e1, k1) =
      regenerate_view_total h applied
        (record { name = v.stacks.named.name; nonce_lt = v.stacks.named.nonce_lt })
        (all-append (is_renderable h) vm.present (t ∷ []) v.stacks.present (rw r)) in
    let (vm2, m2) =
      undo-Moved h vm1 k1.named (k1.same.past ∙ (evict-cons vm.present vm.past).1)
        v.stacks.present in
    (
      vm1,
      vm2,
      c1,
      m2.change,
      e1,
      m2.result,
      k1.same.present,
      m2.at_present,
      m2.at_future ∙ ap₂ (◌∷◌) k1.same.present k1.same.future,
    )
