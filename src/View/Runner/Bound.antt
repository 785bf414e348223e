-- ===== src/View/Runner/Bound.antt =====
-- The engine's views and the grid follow the model.
use dat.Prelude.{
  true, false, ◌&&◌, Text, Option, none, some, if◌then◌else◌, ◌≡◌, ◌≢◌, inl, inr, refl, sym, ◌∙◌,
  ap, Bool-cases, [],
}
use mathlib.Core.Bool.{true≢false}
use mathlib.Core.Option.{some-injective, none-ne-some}
use mathlib.Core.Path.{subst}
use dat.Prelude.Results.{Result, ok, err}
use dat.Engine.Render.Literal.{Host}
use dat.Engine.Render.Filter.{is_ok}
use dat.View.Model.{ViewModel, ViewChange, Outcome, view_name, is_some, is_display_only}
use dat.View.Model.Calls.{some_change}
use dat.View.Model.Action.{Action, act, IsAdmissible}
use dat.View.Model.Regenerate.{
  IsNamed, Regenerated, OnReturn, regenerate_view-OnReturn, view_name-injective,
}
use dat.View.Model.Stacks.{IsValid, KeepsMaybe}
use dat.View.Model.Valid.{act-IsValid}
use dat.View.Runner.{
  ViewEngine, EngineError, RunError, Shown, run_view_change, run_shape, bind_source, after_create,
  finish, run_change, run_maybe, change_on, from_engine, interrupted, failed, violated,
}
use dat.View.Runner.Regenerates.{SameView, Regenerates, act-Regenerates, is_rebind}
use dat.View.Runner.Catalog.{Works, HasOnly, bind_source_lem, unbound-HasOnly, created-HasOnly}

-- What the grid of a model's tab reads: the view, or the table itself.
abbrev pub reads : ViewModel → Option Text → Text
reads vm none = vm.tab_id
reads vm (some view) = view

-- Of the tab's views the engine has the active one alone, with the SQL that the model keeps, and the
-- grid reads it.
pub record IsBound {S : Type 0} (e : ViewEngine S) (g : Shown S) (vm : ViewModel) : Type 0 where
  pub catalog : HasOnly e vm.tab_id g.engine vm.active_view vm.nonce_seq vm.active_view_sql
  pub source : g.source ≡ reads vm vm.active_view

module _ {S : Type 0} (e : ViewEngine S) (w : Works e) (g : Shown S) where
  finish-engine : (p : S × Result RunError (Option Text)) → (finish e g p).engine ≡ p.0
  finish-engine (s, ok none) = refl
  finish-engine (s, ok (some t)) = refl
  finish-engine (s, err (from_engine interrupted)) = refl
  finish-engine (s, err (from_engine (failed x))) = refl
  finish-engine (s, err violated) = refl

  module _ (h : Host) (vm vm0 vm' : ViewModel) (c : ViewChange) (i : IsNamed vm)
      (b : IsBound e g vm) (same : SameView vm vm0) (r : Regenerated h vm0 vm' c) where
    same_tab : vm'.tab_id ≡ vm.tab_id
    same_tab = r.same.tab_id ∙ same.tab_id

    -- A view is bound, and so its SQL is known.
    bound_sql : (v : Text) → vm'.active_view ≡ some v → vm'.active_view_sql ≢ none
    bound_sql v a n =
        let full = λ (p : vm'.present ≡ []). none-ne-some v (sym (r.synced.idle p) ∙ a) in
        none-ne-some _ (sym n ∙ (r.synced.bound full).2)

    kept_sql :
        (v : Text)
        → vm'.active_view ≡ some v
        → vm'.active_view_sql ≡ vm0.active_view_sql
        → vm'.active_view_sql ≡ vm.active_view_sql
    kept_sql v a k = elim same.active_view_sql [
      | inl s ↦ k ∙ s
      | inr n ↦ absurd (bound_sql v a (k ∙ n))
    ]

    -- The view of the number has the name of the number.
    view_named : (v : Text) → vm'.active_view ≡ some v → v ≡ view_name vm.tab_id vm'.nonce_seq
    view_named v a = elim r.named.name [
      | inl u ↦ absurd (none-ne-some v (sym u ∙ a))
      | inr n ↦ some-injective _ _ (sym a ∙ n) ∙ ap (λ t. view_name t vm'.nonce_seq) same_tab
    ]

    same_nonce :
        (v : Text)
        → vm.active_view ≡ some v
        → vm'.active_view ≡ some v
        → vm.nonce_seq ≡ vm'.nonce_seq
    same_nonce v a a' = elim i.name [
      | inl u ↦ absurd (none-ne-some v (sym u ∙ a))
      | inr n ↦ view_name-injective vm.tab_id _ _ (some-injective _ _ (sym n ∙ a) ∙ view_named v a')
    ]

    -- A display-only change: nothing is done, and nothing is to be done.
    kept-catalog :
        (active : Option Text)
        → vm.active_view ≡ active
        → vm'.active_view ≡ active
        → vm'.active_view_sql ≡ vm0.active_view_sql
        → HasOnly e vm.tab_id g.engine vm'.active_view vm'.nonce_seq vm'.active_view_sql
    kept-catalog none a a' k j = b.catalog j ∙ rw (a, a') refl
    kept-catalog (some v) a a' k j =
        rw (a', kept_sql v a' k) (rw (← same_nonce v a a') (b.catalog j ∙ rw a refl))

    reads_same : (active : Option Text) → reads vm active ≡ reads vm' active
    reads_same none = sym same_tab
    reads_same (some v) = refl

    kept-IsBound :
        vm'.active_view ≡ vm0.active_view
        → vm'.active_view_sql ≡ vm0.active_view_sql
        → IsBound e (record { engine = g.engine; source = g.source; banner = false }) vm'
    kept-IsBound a k = record {
      catalog = rw same_tab (kept-catalog vm.active_view refl (a ∙ same.active_view) k);
      source = rw (a ∙ same.active_view) (b.source ∙ reads_same vm.active_view);
    }

    created-source :
        (v : Text) (res : Result EngineError S)
        → is_ok res ≡ true
        → (finish e g (after_create e g.engine v vm.active_view res)).source ≡ v
    created-source v (ok s') o = rw (bind_source_lem e vm.tab_id w s' v vm.active_view) refl
    created-source v (err x) o = absurd (true≢false (sym o))

    created-IsBound :
        (v q : Text) (res : Result EngineError S)
        → vm'.active_view ≡ some v
        → vm'.active_view_sql ≡ some q
        → vm.active_view ≢ some v
        → e.create_or_replace_view g.engine v q ≡ res
        → is_ok res ≡ true
        → IsBound e (finish e g (after_create e g.engine v vm.active_view res)) vm'
    created-IsBound v q res a k fresh eq o = record {
      catalog =
          rw
            (
              finish-engine (after_create e g.engine v vm.active_view res),
              same_tab,
              a,
              k,
              view_named v a,
            )
            (created-HasOnly e vm.tab_id w g.engine vm.active_view vm.nonce_seq vm.active_view_sql
              b.catalog i.name vm'.nonce_seq q res
              (subst (λ x. vm.active_view ≢ some x) (view_named v a) fresh)
              (subst (λ x. e.create_or_replace_view g.engine x q ≡ res) (view_named v a) eq) o);
      source = rw a (created-source v res o);
    }

    unbound-IsBound :
        vm'.active_view ≡ none
        → IsBound e (finish e g (bind_source e g.engine vm.tab_id vm.active_view)) vm'
    unbound-IsBound a = record {
      catalog =
          rw (finish-engine (bind_source e g.engine vm.tab_id vm.active_view), same_tab, a)
            (unbound-HasOnly e vm.tab_id w g.engine vm.active_view vm.nonce_seq vm.active_view_sql
              b.catalog i.name vm.tab_id vm'.nonce_seq vm'.active_view_sql);
      source =
          rw (bind_source_lem e vm.tab_id w g.engine vm.tab_id vm.active_view, a) (sym same_tab);
    }

    shape-IsBound :
        (new sql : Option Text)
        → (is_some new && (if is_some sql then false else true)) ≡ false
        → new ≡ vm'.active_view
        → (is_some sql ≡ true → sql ≡ vm'.active_view_sql)
        → (is_some sql ≡ true → is_some new ≡ true)
        → (is_some sql ≡ true → new ≢ vm.active_view)
        → IsBound e (finish e g (run_shape e g.engine vm.tab_id vm.active_view new sql)) vm'
    shape-IsBound none none d a k creates fresh = unbound-IsBound (sym a)
    shape-IsBound none (some q) d a k creates fresh = absurd (true≢false (sym (creates refl)))
    shape-IsBound (some v) none d a k creates fresh = absurd (true≢false d)
    shape-IsBound (some v) (some q) d a k creates fresh =
        created-IsBound v q (e.create_or_replace_view g.engine v q) (sym a) (sym (k refl))
          (λ x. fresh refl (sym x)) refl (w.creates g.engine v q)

    run_change-IsBound : IsBound e (run_change e g vm.tab_id c) vm'
    unfolding run_view_change
    run_change-IsBound = elim (Bool-cases (is_display_only c)) [
      | inl d ↦ rw d (kept-IsBound (r.change.kept d).0 (r.change.kept d).1)
      | inr d ↦
          rw (d, r.change.replaced d, same.active_view)
            (shape-IsBound c.new_active_view c.sql d r.change.new_view r.change.created
              r.change.creates
              (λ s. subst (λ x. c.new_active_view ≢ x) same.active_view (r.change.fresh s)))
    ]

-- The call returns, the model is valid, and the engine and the grid follow it.
abbrev pub Follows : {S : Type 0} → Host → ViewEngine S → Option (ViewModel × Shown S) → Type 0
Follows h e none = ⊥
Follows h e (some (vm, g)) = IsValid h vm × IsBound e g vm

module _ {S : Type 0} (e : ViewEngine S) (w : Works e) (g : Shown S) (h : Host) (vm : ViewModel)
    (v : IsValid h vm) (b : IsBound e g vm) where
  outcome-Follows :
      (vm0 : ViewModel) (o : Outcome)
      → SameView vm vm0
      → KeepsMaybe h (some_change o)
      → OnReturn h vm0 o
      → Follows h e (run_maybe e g vm.tab_id (some_change o))
  outcome-Follows vm0 none same k r = k
  outcome-Follows vm0 (some (vm', c)) same k r =
      (k, run_change-IsBound e w g h vm vm0 vm' c v.stacks.named b same r)

  same-IsNamed : (vm0 : ViewModel) → SameView vm vm0 → IsNamed vm0
  same-IsNamed vm0 same = record {
    name = rw (same.active_view, same.tab_id, same.nonce_seq) v.stacks.named.name;
    nonce_lt = rw same.nonce_seq v.stacks.named.nonce_lt;
  }

  run-Follows :
      (out : Option (ViewModel × Option ViewChange))
      → Regenerates h vm out
      → KeepsMaybe h out
      → Follows h e (run_maybe e g vm.tab_id out)
  run-Follows out (inl same) k = rw same (v, b)
  run-Follows out (inr (o, (vm0, same, eq), eq')) k = rw eq' (
      outcome-Follows vm0 o same (subst (KeepsMaybe h) eq' k)
        (rw eq (regenerate_view-OnReturn h vm0 (same-IsNamed vm0 same))))

-- From a valid view model whose active view is the only one of its tab in the engine, with its SQL,
-- and what the grid reads, every call with renderable transformations but `rebind`, its change
-- driven through an engine of which no call fails, returns, and leaves a valid model of which the
-- same holds: no view of an earlier step stays behind, and the grid never reads a dropped one.
pub change_on-Follows :
    {S : Type 0} (e : ViewEngine S) (h : Host) (vm : ViewModel) (g : Shown S) (a : Action)
    → Works e
    → IsValid h vm
    → IsBound e g vm
    → IsAdmissible h a
    → is_rebind a ≡ false
    → Follows h e (change_on e h vm g a)
unfolding change_on
change_on-Follows e h vm g a w v b r n =
    run-Follows e w g h vm v b (act h vm a) (act-Regenerates h vm a n) (act-IsValid h vm a v r)
