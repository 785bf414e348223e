-- ===== src/View/Runner/Catalog.antt =====
-- What a change that is driven through the engine makes of the views of a tab.
use dat.Prelude.{
  ℕ, true, ◌&&◌, ◌==◌, Text, Option, none, some, if◌then◌else◌, ◌≡◌, ◌≢◌, ◌⊎◌, inl, inr, refl, sym,
  ◌∙◌, ap, arith, Bool-cases,
}
use mathlib.Core.Bool.{true≢false}
use dat.Prelude.Results.{Result, ok, err}
use dat.Engine.Render.Filter.{is_ok}
use dat.View.Model.{view_name, is_some}
use dat.View.Runner.{
  ViewEngine, EngineError, drop_previous, bind_source, rebound, or_same, after_create,
}

-- No call of the engine fails.
pub record Works {S : Type 0} (e : ViewEngine S) : Type 0 where
  pub creates : (s : S) (view sql : Text) → is_ok (e.create_or_replace_view s view sql) ≡ true
  pub drops : (s : S) (view : Text) → is_ok (e.drop_view s view) ≡ true
  pub opens : (s : S) (table : Text) → is_ok (e.open_source s table) ≡ true

same_number : (n n' k : ℕ) → (n == k) ≡ true → (n' == k) ≡ true → n ≡ n'
same_number n n' k p q = ground arith

module _ {S : Type 0} (e : ViewEngine S) (tab : Text) where
  -- Of the tab's views the engine has number `n` alone, with the SQL, or none at all.
  abbrev pub HasOnly : S → Option Text → ℕ → Option Text → Type 0
  HasOnly s active n sql =
      (k : ℕ) → e.view_sql s (view_name tab k) ≡ (if is_some active && n == k then sql else none)

  abbrev pub Numbered : Option Text → ℕ → Type 0
  Numbered active n = (active ≡ none) ⊎ (active ≡ some (view_name tab n))

  module _ (w : Works e) where
    -- A lookup after the best-effort drop.
    abbrev forget : Option Text → Text → Option Text → Option Text
    forget none m o = o
    forget (some p) m o = if e.same_name p m then none else o

    dropped_lem :
        (s : S) (p m : Text) (r : Result EngineError S)
        → e.drop_view s p ≡ r
        → is_ok r ≡ true
        → e.view_sql (or_same e s r) m ≡ forget (some p) m (e.view_sql s m)
    dropped_lem s p m (ok s') q o = e.dropped s s' p m q
    dropped_lem s p m (err x) q o = absurd (true≢false (sym o))

    drop_previous_lem :
        (s : S) (prev : Option Text) (m : Text)
        → e.view_sql (drop_previous e s prev) m ≡ forget prev m (e.view_sql s m)
    drop_previous_lem s none m = refl
    drop_previous_lem s (some p) m = dropped_lem s p m (e.drop_view s p) refl (w.drops s p)

    rebound_lem :
        (s : S) (table : Text) (prev : Option Text) (r : Result EngineError (Unit {0}))
        → is_ok r ≡ true
        → rebound e s table prev r ≡ (drop_previous e s prev, ok (some table))
    rebound_lem s table prev (ok _) o = refl
    rebound_lem s table prev (err x) o = absurd (true≢false (sym o))

    pub bind_source_lem :
        (s : S) (table : Text) (prev : Option Text)
        → bind_source e s table prev ≡ (drop_previous e s prev, ok (some table))
    bind_source_lem s table prev =
        rebound_lem s table prev (e.open_source s table) (w.opens s table)

    module _ (s : S) (active : Option Text) (n : ℕ) (sql : Option Text) where
      -- Without the view of the tab, none of its views is left.
      forgotten :
          HasOnly s active n sql
          → Numbered active n
          → (k : ℕ) → forget active (view_name tab k) (e.view_sql s (view_name tab k)) ≡ none
      forgotten has (inl u) k = rw u (has k ∙ rw u refl)
      forgotten has (inr b) k = elim (Bool-cases (n == k)) [
        | inl same ↦ rw (b, e.numbered tab n k, same) refl
        | inr other ↦ rw (b, e.numbered tab n k, other) (has k ∙ rw (b, other) refl)
      ]

      -- Another view of the tab outlives the drop.
      remembered :
          (n' k : ℕ) (o : Option Text)
          → Numbered active n
          → active ≢ some (view_name tab n')
          → (n' == k) ≡ true
          → forget active (view_name tab k) o ≡ o
      remembered n' k o (inl u) fresh same = rw u refl
      remembered n' k o (inr b) fresh same =
          rw (b, e.numbered tab n k)
            (elim (Bool-cases (n == k)) [
              | inl old ↦
                  absurd
                    (fresh (b ∙ ap (λ i. some (view_name tab i)) (same_number n n' k old same)))
              | inr old ↦ rw old refl
            ])

      pub unbound-HasOnly :
          HasOnly s active n sql
          → Numbered active n
          → (table : Text) (n' : ℕ) (sql' : Option Text)
          → HasOnly (bind_source e s table active).0 none n' sql'
      unbound-HasOnly has num table n' sql' k =
          rw (bind_source_lem s table active)
            (drop_previous_lem s active (view_name tab k) ∙ forgotten has num k)

      pub created-HasOnly :
          HasOnly s active n sql
          → Numbered active n
          → (n' : ℕ) (body : Text) (r : Result EngineError S) → active ≢ some (view_name tab n')
          → e.create_or_replace_view s (view_name tab n') body ≡ r
          → is_ok r ≡ true
          → HasOnly
              (after_create e s (view_name tab n') active r).0
              (some (view_name tab n'))
              n'
              (some body)
      created-HasOnly has num n' body (err x) fresh q o k = absurd (true≢false (sym o))
      created-HasOnly has num n' body (ok s') fresh q o k =
          rw (bind_source_lem s' (view_name tab n') active) (
            drop_previous_lem s' active (view_name tab k)
            ∙ ap (forget active (view_name tab k))
                (e.created s s' (view_name tab n') body (view_name tab k) q)
            ∙ (elim (Bool-cases (n' == k)) [
              | inl new ↦ rw (e.numbered tab n' k, new) (remembered n' k (some body) num fresh new)
              | inr old ↦ rw (e.numbered tab n' k, old) (forgotten has num k)
            ]))
