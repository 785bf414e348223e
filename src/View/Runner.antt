-- ===== src/View/Runner.antt =====
-- `start_view_change` and `run_view_change` (crates/dat0-core/src/view/spawn.rs), and `change_on` of
-- crates/dat0-ui/src/components/grid/views.rs. The lanes and the tokens that interrupt a query are
-- left out: an interrupt is an error that a call of the engine gives.
pub mod Regenerates
pub mod Catalog
pub mod Bound
pub mod Failed
mod Examples
use dat.Prelude.{Bool, true, false, Text, Option, none, some, ◌==◌, ℕ, if◌then◌else◌, ◌≡◌}
use dat.Prelude.Results.{Result, ok, err}
use dat.Engine.Render.Literal.{Host}
use dat.View.Model.{ViewModel, ViewChange, is_display_only, view_name}
use dat.View.Model.Action.{Action, act}

pub data EngineError : Type 0 where
  interrupted : EngineError
  failed : Text → EngineError

-- What is used of the engine, on a state of its own, and what it documents of its views: a view that
-- is created or replaced has the SQL given, a dropped one is gone, and the others stay. Names are
-- the same when they differ in case only, so that the names of two numbers are not. A call that
-- fails leaves the state. `open_source` is `GridDataSource::new`, which reads.
pub record ViewEngine (S : Type 0) : Type 0 where
  pub create_or_replace_view : S → Text → Text → Result EngineError S
  pub drop_view : S → Text → Result EngineError S
  pub open_source : S → Text → Result EngineError (Unit {0})
  pub view_sql : S → Text → Option Text
  pub same_name : Text → Text → Bool
  pub numbered : (tab : Text) (j k : ℕ) → same_name (view_name tab j) (view_name tab k) ≡ (j == k)
  pub created :
      (s s' : S) (view sql m : Text)
      → create_or_replace_view s view sql ≡ ok s'
      → view_sql s' m ≡ (if same_name view m then some sql else view_sql s m)
  pub dropped :
      (s s' : S) (view m : Text)
      → drop_view s view ≡ ok s'
      → view_sql s' m ≡ (if same_name view m then none else view_sql s m)

pub data RunError : Type 0 where
  from_engine : EngineError → RunError
  violated : RunError

-- What the grid reads: the state of the engine, the table or view it is bound to, and whether a
-- banner was pushed.
pub record Shown (S : Type 0) : Type 0 where
  pub engine : S
  pub source : Text
  pub banner : Bool

module _ {S : Type 0} (e : ViewEngine S) where
  -- The state that a call leaves.
  abbrev pub or_same : S → Result EngineError S → S
  or_same s (ok s') = s'
  or_same s (err _) = s

  -- Best effort.
  abbrev pub drop_previous : S → Option Text → S
  drop_previous s none = s
  drop_previous s (some prev) = or_same s (e.drop_view s prev)

  abbrev pub rebound :
      S → Text → Option Text → Result EngineError (Unit {0}) → S × Result RunError (Option Text)
  rebound s table prev (ok _) = (drop_previous s prev, ok (some table))
  rebound s table prev (err x) = (s, err (from_engine x))

  -- From `GridDataSource::new` on.
  abbrev pub bind_source : S → Text → Option Text → S × Result RunError (Option Text)
  bind_source s table prev = rebound s table prev (e.open_source s table)

  abbrev pub after_create :
      S → Text → Option Text → Result EngineError S → S × Result RunError (Option Text)
  after_create s view prev (ok s') = bind_source s' view prev
  after_create s view prev (err x) = (s, err (from_engine x))

  -- The `match` on the new view and the SQL.
  abbrev pub run_shape :
      S → Text → Option Text → Option Text → Option Text → S × Result RunError (Option Text)
  run_shape s base prev (some view) (some sql) =
      after_create s view prev (e.create_or_replace_view s view sql)
  run_shape s base prev none none = bind_source s base prev
  run_shape s base prev _ _ = (s, err violated)

  unfoldable pub run_view_change : S → Text → ViewChange → S × Result RunError (Option Text)
  run_view_change s base c =
      if is_display_only c
      then (s, ok none)
      else run_shape s base c.previous_active_view c.new_active_view c.sql

  -- A banner for every failure but an interrupt; the grid changes its source for a new one only.
  abbrev pub finish : Shown S → S × Result RunError (Option Text) → Shown S
  finish g (s, ok none) = record { engine = s; source = g.source; banner = false }
  finish g (s, ok (some source)) = record { engine = s; source = source; banner = false }
  finish g (s, err (from_engine interrupted)) = record {
    engine = s;
    source = g.source;
    banner = false;
  }
  finish g (s, err (from_engine (failed _))) = record {
    engine = s;
    source = g.source;
    banner = true;
  }
  finish g (s, err violated) = record { engine = s; source = g.source; banner = true }

  abbrev pub run_change : Shown S → Text → ViewChange → Shown S
  run_change g base c = finish g (run_view_change g.engine base c)

  abbrev pub run_maybe :
      Shown S → Text → Option (ViewModel × Option ViewChange) → Option (ViewModel × Shown S)
  run_maybe g base none = none
  run_maybe g base (some (vm, none)) = some (vm, g)
  run_maybe g base (some (vm, some c)) = some (vm, run_change g base c)

  -- One call on the model, and its change driven through the engine.
  unfoldable pub change_on : Host → ViewModel → Shown S → Action → Option (ViewModel × Shown S)
  unfolding run_view_change
  change_on h vm g a = run_maybe g vm.tab_id (act h vm a)
