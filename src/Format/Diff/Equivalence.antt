-- ===== src/Format/Diff/Equivalence.antt =====
-- An empty diff, said of the packages as maps from names.
use dat.Prelude.{
  Bool, true, List, [], ◌∷◌, Option, some, find, ◌≡◌, refl, sym, ◌∙◌, arith, text_eq_iff,
  Bool-cases, inl, inr,
}
use dat.Prelude.Predicates.{All}
use mathlib.Core.Path.{subst}
use mathlib.Core.Option.{some-injective}
use dat.Format.Model.{
  ColumnFingerprint, Derivation, RecipeTable, Recipe, PackageQuery, Queries, PackageChart, Charts,
  spec_eq,
}
use dat.Format.Diff.{is_empty, compute}
use dat.Format.Diff.Maps.{
  HasUniqueNames, SameMap, maps_agree, SameMap-maps_agree, maps_agree-SameMap,
}
use dat.Format.Diff.Empty.{
  column_name, table_name, query_name, chart_name, column_ok, query_ok, chart_ok, table_ok,
  compute-empty,
}

-- A package, as far as the diff reads it.
pub record Package : Type 0 where
  pub recipe : Recipe
  pub queries : Queries
  pub charts : Charts

abbrev pub SameColumn : ColumnFingerprint → ColumnFingerprint → Type 0
SameColumn ca cb = cb.type ≡ ca.type

abbrev pub SameQuery : PackageQuery → PackageQuery → Type 0
SameQuery qa qb = qb.sql ≡ qa.sql

abbrev pub SameChart : PackageChart → PackageChart → Type 0
SameChart ca cb = spec_eq cb.spec ca.spec ≡ true

-- No two tables, no two columns of a table, no two queries and no two charts have the same name.
pub record HasNames (p : Package) : Type 0 where
  pub tables : HasUniqueNames table_name p.recipe.tables
  pub columns : All (λ t. HasUniqueNames column_name t.schema) p.recipe.tables
  pub queries : HasUniqueNames query_name p.queries.queries
  pub charts : HasUniqueNames chart_name p.charts.charts

All-find {ℓ κ} :
    {A : Type ℓ} (P : A → Type κ) (q : A → Bool) (l : List A) (x : A)
    → All P l
    → find q l ≡ some x
    → P x
All-find P q [] x h e = ground arith
All-find P q (y ∷ l) x h e = elim (Bool-cases (q y)) [
  | inl t ↦ subst P (some-injective y x (sym (rw t refl) ∙ e)) h.0
  | inr f ↦ All-find P q l x h.1 (sym (rw f refl) ∙ e)
]

module _ (same_derivation : Option Derivation → Option Derivation → Bool) where
  abbrev pub SameTable : RecipeTable → RecipeTable → Type 0
  SameTable ta tb =
      (same_derivation ta.derivation tb.derivation ≡ true)
      × SameMap column_name SameColumn ta.schema tb.schema
      × (ta.row_count ≡ tb.row_count)

  -- The same names of tables, queries and charts, and the same first item of each.
  pub record SamePackage (a b : Package) : Type 0 where
    pub tables : SameMap table_name SameTable a.recipe.tables b.recipe.tables
    pub queries : SameMap query_name SameQuery a.queries.queries b.queries.queries
    pub charts : SameMap chart_name SameChart a.charts.charts b.charts.charts

  abbrev pub diff_is_empty : Package → Package → Bool
  diff_is_empty a b =
      is_empty (compute same_derivation a.recipe a.queries a.charts b.recipe b.queries b.charts)

  SameTable-table_ok :
      (ta tb : RecipeTable) → table_ok same_derivation ta tb ≡ true → SameTable ta tb
  SameTable-table_ok ta tb h =
      let columns : maps_agree column_name column_ok ta.schema tb.schema ≡ true = ground arith in
      (
        ground arith,
        SameMap-maps_agree column_name column_ok SameColumn
            (λ x y e. (text_eq_iff y.type x.type).0 e) ta.schema tb.schema columns,
        ground arith,
      )

  table_ok-SameTable :
      (ta tb : RecipeTable)
      → HasUniqueNames column_name ta.schema
      → SameTable ta tb
      → table_ok same_derivation ta tb ≡ true
  table_ok-SameTable ta tb u h =
      let columns : maps_agree column_name column_ok ta.schema tb.schema ≡ true =
        maps_agree-SameMap column_name column_ok SameColumn ta.schema tb.schema u
          (λ x y e k. (text_eq_iff y.type x.type).1 k) h.1 in
      let derivations : same_derivation ta.derivation tb.derivation ≡ true = h.0 in
      let counts : ta.row_count ≡ tb.row_count = h.2 in ground arith

  -- Where the diff of two packages is empty, they agree on the first item of each name.
  pub SamePackage-compute : (a b : Package) → diff_is_empty a b ≡ true → SamePackage a b
  SamePackage-compute a b h =
      let every =
        sym (compute-empty same_derivation a.recipe a.queries a.charts b.recipe b.queries b.charts)
        ∙ h in
      let tables : maps_agree table_name (table_ok same_derivation) a.recipe.tables b.recipe.tables
          ≡ true =
        ground arith in
      let queries : maps_agree query_name query_ok a.queries.queries b.queries.queries ≡ true =
        ground arith in
      let charts : maps_agree chart_name chart_ok a.charts.charts b.charts.charts ≡ true =
        ground arith in
      record {
        tables =
            SameMap-maps_agree table_name (table_ok same_derivation) SameTable SameTable-table_ok _
              _ tables;
        queries =
            SameMap-maps_agree query_name query_ok SameQuery
              (λ x y e. (text_eq_iff y.sql x.sql).0 e) _ _ queries;
        charts = SameMap-maps_agree chart_name chart_ok SameChart (λ x y e. e) _ _ charts;
      }

  -- Where two packages have the same names of tables, queries and charts, with equal derivations, row
  -- counts and columns with their types under one table name, the same SQL under one query name and
  -- equal specifications under one chart name, and the first has no two items of one kind and name,
  -- the diff is empty, whatever the order of the items.
  pub compute-SamePackage :
      (a b : Package) → HasNames a → SamePackage a b → diff_is_empty a b ≡ true
  compute-SamePackage a b u h =
      let tables : maps_agree table_name (table_ok same_derivation) a.recipe.tables b.recipe.tables
          ≡ true =
        maps_agree-SameMap table_name (table_ok same_derivation) SameTable _ _ u.tables
          (λ x y e k.
            table_ok-SameTable x y
              (All-find (λ t. HasUniqueNames column_name t.schema) _ _ x u.columns e) k)
          h.tables in
      let queries : maps_agree query_name query_ok a.queries.queries b.queries.queries ≡ true =
        maps_agree-SameMap query_name query_ok SameQuery _ _ u.queries
          (λ x y e k. (text_eq_iff y.sql x.sql).1 k) h.queries in
      let charts : maps_agree chart_name chart_ok a.charts.charts b.charts.charts ≡ true =
        maps_agree-SameMap chart_name chart_ok SameChart _ _ u.charts (λ x y e k. k) h.charts in
      compute-empty same_derivation a.recipe a.queries a.charts b.recipe b.queries b.charts
      ∙ rw (tables, queries, charts) refl
