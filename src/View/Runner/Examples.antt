-- ===== src/View/Runner/Examples.antt =====
-- An engine that keeps its views in a function, and instances.
use dat.Prelude.{
  ℕ, true, false, ◌==◌, [], Text, codes, Option, none, some, if◌then◌else◌, ◌≡◌, refl, sym, ap, ◌∙◌,
  inl, inr, Bool-cases, text_eq, text_eq_iff, arith,
}
use mathlib.Core.Bool.{true≢false}
use dat.Prelude.Results.{Result, ok, err}
use dat.View.Model.{ViewChange, view_name}
use dat.View.Model.Action.{Action}
use dat.View.Model.Regenerate.{view_name-injective}
use dat.View.Model.Examples.{host, filtered, filtered-IsValid}
use dat.View.Runner.{
  ViewEngine, EngineError, Shown, interrupted, from_engine, run_view_change, run_change, change_on,
}
use dat.View.Runner.Catalog.{Works}
use dat.View.Runner.Bound.{IsBound, Follows, change_on-Follows}
use dat.View.Runner.Failed.{run_change-failed}

same_number : (tab : Text) (j k : ℕ) → text_eq (view_name tab j) (view_name tab k) ≡ (j == k)
same_number tab j k = elim (Bool-cases (text_eq (view_name tab j) (view_name tab k))) [
  | inl t ↦
      let e = view_name-injective tab j k ((text_eq_iff (view_name tab j) (view_name tab k)).0 t) in
      t ∙ ground arith
  | inr f ↦ elim (Bool-cases (j == k)) [
    | inl e ↦ absurd (
        true≢false (
          sym
            ((text_eq_iff (view_name tab j) (view_name tab k)).1 (ap (view_name tab) (equal j k e)))
          ∙ f))
    | inr d ↦ f ∙ sym d
  ]
]
  where
    equal : (j k : ℕ) → (j == k) ≡ true → j ≡ k
    equal j k e = ground arith

abbrev Views : Type 0
Views = Text → Option Text

abbrev views_of : Views → Result EngineError Views → Views
views_of s (ok s') = s'
views_of s (err _) = s

abbrev memory : Result EngineError (Unit {0}) → ViewEngine Views
memory opened = record {
  create_or_replace_view = λ s view sql. ok (λ m. if text_eq view m then some sql else s m);
  drop_view = λ s view. ok (λ m. if text_eq view m then none else s m);
  open_source = λ s table. opened;
  view_sql = λ s m. s m;
  same_name = text_eq;
  numbered = same_number;
  created = λ s s' view sql m e. sym (ap (λ r. views_of s r m) e);
  dropped = λ s s' view m e. sym (ap (λ r. views_of s r m) e);
}

memory-Works : Works (memory (ok tt))
memory-Works = record { creates = λ _ _ _. refl; drops = λ _ _. refl; opens = λ _ _. refl }

abbrev filter_sql : Text
filter_sql = codes "SELECT * FROM \"orders\" WHERE (\"qty\" IS NOT NULL)"

abbrev shown : Shown Views
shown = record {
  engine = λ m. if text_eq (view_name (codes "tab-1") 1) m then some filter_sql else none;
  source = codes "v_tab1_1";
  banner = false;
}

shown-IsBound : IsBound (memory (ok tt)) shown filtered
shown-IsBound = record { catalog = λ k. rw (same_number (codes "tab-1") 1 k) refl; source = refl }

change_on-Follows_example :
    Follows host
      (memory (ok tt))
      (change_on (memory (ok tt)) host filtered shown (Action.set_sort []))
change_on-Follows_example =
    change_on-Follows (memory (ok tt)) host filtered shown (Action.set_sort []) memory-Works
      filtered-IsValid shown-IsBound tt refl

abbrev second : ViewChange
second = record {
  new_active_view = some (codes "v_tab1_2");
  previous_active_view = some (codes "v_tab1_1");
  sql = some (codes "SELECT * FROM \"orders\"");
}

abbrev broken : ViewEngine Views
broken = memory (err interrupted)

abbrev with_second : Views
with_second m =
    if text_eq (codes "v_tab1_2") m then some (codes "SELECT * FROM \"orders\"") else shown.engine m

run_change-failed_example :
    ((run_change broken shown (codes "tab-1") second).engine (codes "v_tab1_1")
      ≡ shown.engine (codes "v_tab1_1"))
    × ((run_change broken shown (codes "tab-1") second).source ≡ codes "v_tab1_1")
    × ((run_change broken shown (codes "tab-1") second).banner ≡ false)
unfolding run_view_change text_eq
run_change-failed_example =
    run_change-failed broken shown (codes "tab-1") second with_second (from_engine interrupted)
      (codes "v_tab1_1") refl refl
