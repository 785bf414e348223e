-- ===== src/View/Runner/Failed.antt =====
-- A change that fails.
use dat.Prelude.{Bool, true, false, Text, Option, none, some, ◌≡◌, refl, ◌∙◌, inl, inr, Bool-cases}
use mathlib.Core.Path.{subst}
use dat.Prelude.Results.{Result, ok, err}
use dat.View.Model.{ViewChange, is_display_only}
use dat.View.Runner.{
  ViewEngine, EngineError, RunError, Shown, run_view_change, run_shape, rebound, after_create,
  finish, run_change, from_engine, interrupted, failed, violated,
}

-- Whether the name is the one of the new view.
abbrev pub is_new : {S : Type 0} → ViewEngine S → Option Text → Text → Bool
is_new e none m = false
is_new e (some v) m = e.same_name v m

-- An interrupt shows no banner, any other failure does.
abbrev pub is_bannered : RunError → Bool
is_bannered (from_engine interrupted) = false
is_bannered (from_engine (failed _)) = true
is_bannered violated = true

module _ {S : Type 0} (e : ViewEngine S) (g : Shown S) (m : Text) where
  abbrev Keeps : S × Result RunError (Option Text) → Type 0
  Keeps (s, ok _) = Unit
  Keeps (s, err x) = e.view_sql s m ≡ e.view_sql g.engine m

  rebound-Keeps :
      (s : S) (table : Text) (prev : Option Text) (r : Result EngineError (Unit {0}))
      → e.view_sql s m ≡ e.view_sql g.engine m
      → Keeps (rebound e s table prev r)
  rebound-Keeps s table prev (ok _) k = tt
  rebound-Keeps s table prev (err x) k = k

  after_create-Keeps :
      (view sql : Text) (prev : Option Text) (r : Result EngineError S)
      → e.create_or_replace_view g.engine view sql ≡ r
      → e.same_name view m ≡ false
      → Keeps (after_create e g.engine view prev r)
  after_create-Keeps view sql prev (ok s') q n =
      rebound-Keeps s' view prev (e.open_source s' view)
        (e.created g.engine s' view sql m q ∙ rw n refl)
  after_create-Keeps view sql prev (err x) q n = refl

  run_shape-Keeps :
      (base : Text) (prev new sql : Option Text)
      → is_new e new m ≡ false
      → Keeps (run_shape e g.engine base prev new sql)
  run_shape-Keeps base prev none none n =
      rebound-Keeps g.engine base prev (e.open_source g.engine base) refl
  run_shape-Keeps base prev (some v) (some q) n =
      after_create-Keeps v q prev (e.create_or_replace_view g.engine v q) refl n
  run_shape-Keeps base prev none (some q) n = refl
  run_shape-Keeps base prev (some v) none n = refl

  run_view_change-Keeps :
      (base : Text) (c : ViewChange)
      → is_new e c.new_active_view m ≡ false
      → Keeps (run_view_change e g.engine base c)
  unfolding run_view_change
  run_view_change-Keeps base c n = elim (Bool-cases (is_display_only c)) [
    | inl d ↦ rw d tt
    | inr d ↦ rw d (run_shape-Keeps base c.previous_active_view c.new_active_view c.sql n)
  ]

  by_result :
      (s : S) (x : RunError)
      → e.view_sql s m ≡ e.view_sql g.engine m
      → (e.view_sql (finish e g (s, err x)).engine m ≡ e.view_sql g.engine m)
        × ((finish e g (s, err x)).source ≡ g.source)
        × ((finish e g (s, err x)).banner ≡ is_bannered x)
  by_result s (from_engine interrupted) k = (k, refl, refl)
  by_result s (from_engine (failed _)) k = (k, refl, refl)
  by_result s violated k = (k, refl, refl)

-- Any change, valid or not, that the engine lets fail at any step leaves the grid on what it read and
-- every view of the engine as it was but the one the change was to create: the view replaced is
-- never dropped first. A banner is shown unless the failure is an interrupt.
pub run_change-failed :
    {S : Type 0} (e : ViewEngine S) (g : Shown S) (base : Text) (c : ViewChange) (s : S)
    (x : RunError) (m : Text)
    → run_view_change e g.engine base c ≡ (s, err x)
    → is_new e c.new_active_view m ≡ false
    → (e.view_sql (run_change e g base c).engine m ≡ e.view_sql g.engine m)
      × ((run_change e g base c).source ≡ g.source)
      × ((run_change e g base c).banner ≡ is_bannered x)
run_change-failed e g base c s x m q n =
    rw q (by_result e g m s x (subst (Keeps e g m) q (run_view_change-Keeps e g m base c n)))
