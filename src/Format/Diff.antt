-- ===== src/Format/Diff.antt =====
-- The package diff (crates/dat0-format/src/diff.rs). The equality of derivations, which the compiler
-- derives and which compares floats, is a parameter.
pub mod Maps
pub mod Empty
pub mod Equivalence
pub mod Symmetric
pub mod Items
mod Examples
use dat.Prelude.{
  ℕ, Bool, true, false, List, [], ◌∷◌, ◌++◌, Text, codes, Option, some, none, ◌==◌, ◌&&◌,
  if◌then◌else◌, any, find, text_eq,
}
use dat.Format.Model.{
  ColumnFingerprint, Derivation, RecipeTable, Recipe, PackageQuery, Queries, ChartType, ChartSpec,
  PackageChart, Charts, spec_eq,
}

pub data ColumnChange : Type 0 where
  added : Text → ColumnChange
  removed : Text → ColumnChange
  retyped : Text → Text → ColumnChange

pub record SchemaDelta : Type 0 where
  pub table : Text
  pub column : Text
  pub change : ColumnChange

pub data LineageChange : Type 0 where
  table_added : LineageChange
  table_removed : LineageChange
  derivation_changed : Option Derivation → Option Derivation → LineageChange

pub record LineageDelta : Type 0 where
  pub table : Text
  pub change : LineageChange

pub data QueryChange : Type 0 where
  query_added : QueryChange
  query_removed : QueryChange
  sql_changed : Text → Text → QueryChange

pub record QueryDelta : Type 0 where
  pub name : Text
  pub change : QueryChange

pub data ChartChange : Type 0 where
  chart_added : ChartChange
  chart_removed : ChartChange
  spec_changed : Text → Text → ChartChange

pub record ChartDelta : Type 0 where
  pub name : Text
  pub change : ChartChange

abbrev pub type_name : ChartType → Text
type_name ChartType.bar = codes "bar"
type_name ChartType.line = codes "line"
type_name ChartType.area = codes "area"
type_name ChartType.scatter = codes "scatter"
type_name ChartType.histogram = codes "histogram"
type_name ChartType.box_plot = codes "boxplot"
type_name ChartType.heatmap = codes "heatmap"

abbrev pub axis_text : Text → Option Text → Text
axis_text label none = []
axis_text label (some v) = label ++ v

unfoldable pub chart_summary : ChartSpec → Text
chart_summary spec =
    type_name spec.chart_type ++ axis_text (codes " x=") spec.x ++ axis_text (codes " y=") spec.y

pub record PackageDiff : Type 0 where
  pub schema : List SchemaDelta
  pub lineage : List LineageDelta
  pub queries : List QueryDelta
  pub charts : List ChartDelta
  pub row_count_deltas : List (Text × ℕ × ℕ)

abbrev pub is_nil {ℓ} : {A : Type ℓ} → List A → Bool
is_nil [] = true
is_nil (_ ∷ _) = false

unfoldable pub is_empty : PackageDiff → Bool
is_empty d =
    is_nil d.schema
    && is_nil d.lineage
    && is_nil d.queries
    && is_nil d.row_count_deltas
    && is_nil d.charts

abbrev pub empty_diff : PackageDiff
empty_diff = record { schema = []; lineage = []; queries = []; charts = []; row_count_deltas = [] }

-- The pushes.
abbrev pub push_schema : PackageDiff → SchemaDelta → PackageDiff
push_schema d x = record d { schema = d.schema ++ x ∷ [] }

abbrev pub push_lineage : PackageDiff → LineageDelta → PackageDiff
push_lineage d x = record d { lineage = d.lineage ++ x ∷ [] }

abbrev pub push_query : PackageDiff → QueryDelta → PackageDiff
push_query d x = record d { queries = d.queries ++ x ∷ [] }

abbrev pub push_chart : PackageDiff → ChartDelta → PackageDiff
push_chart d x = record d { charts = d.charts ++ x ∷ [] }

abbrev pub push_count : PackageDiff → Text × ℕ × ℕ → PackageDiff
push_count d x = record d { row_count_deltas = d.row_count_deltas ++ x ∷ [] }

-- `for x in items { .. }` with the diff as its state.
abbrev pub each {ℓ} :
    {A : Type ℓ} → (A → PackageDiff → PackageDiff) → List A → PackageDiff → PackageDiff
each body [] out = out
each body (x ∷ l) out = each body l (body x out)

abbrev pub find_table : Recipe → Text → Option RecipeTable
find_table r name = find (λ t. text_eq t.name name) r.tables

-- The rounds over the columns of the first table and of the second.
unfoldable pub column_round :
    Text → ColumnFingerprint → Option ColumnFingerprint → PackageDiff → PackageDiff
column_round table ca none out =
    push_schema out (record { table = table; column = ca.name; change = removed ca.type })
column_round table ca (some cb) out =
    if text_eq cb.type ca.type
    then out
    else push_schema out
        (record { table = table; column = ca.name; change = retyped ca.type cb.type })

unfoldable pub added_column_round :
    Text → List ColumnFingerprint → ColumnFingerprint → PackageDiff → PackageDiff
added_column_round table schema cb out =
    if any (λ c. text_eq c.name cb.name) schema
    then out
    else push_schema out (record { table = table; column = cb.name; change = added cb.type })

unfoldable pub query_round : PackageQuery → Option PackageQuery → PackageDiff → PackageDiff
query_round qa none out = push_query out (record { name = qa.name; change = query_removed })
query_round qa (some qb) out =
    if text_eq qb.sql qa.sql
    then out
    else push_query out (record { name = qa.name; change = sql_changed qa.sql qb.sql })

unfoldable pub added_query_round : List PackageQuery → PackageQuery → PackageDiff → PackageDiff
added_query_round queries qb out =
    if any (λ q. text_eq q.name qb.name) queries
    then out
    else push_query out (record { name = qb.name; change = query_added })

unfoldable pub diff_queries : Queries → Queries → PackageDiff → PackageDiff
unfolding query_round added_query_round
diff_queries a b out =
    each (added_query_round a.queries) b.queries
      (each (λ qa. query_round qa (find (λ q. text_eq q.name qa.name) b.queries)) a.queries out)

unfoldable pub chart_round : PackageChart → Option PackageChart → PackageDiff → PackageDiff
unfolding chart_summary
chart_round ca none out = push_chart out (record { name = ca.name; change = chart_removed })
chart_round ca (some cb) out =
    if spec_eq cb.spec ca.spec
    then out
    else push_chart out (record {
      name = ca.name;
      change = spec_changed (chart_summary ca.spec) (chart_summary cb.spec);
    })

unfoldable pub added_chart_round : List PackageChart → PackageChart → PackageDiff → PackageDiff
added_chart_round charts cb out =
    if any (λ c. text_eq c.name cb.name) charts
    then out
    else push_chart out (record { name = cb.name; change = chart_added })

unfoldable pub diff_charts : Charts → Charts → PackageDiff → PackageDiff
unfolding chart_round added_chart_round
diff_charts a b out =
    each (added_chart_round a.charts) b.charts
      (each (λ ca. chart_round ca (find (λ c. text_eq c.name ca.name) b.charts)) a.charts out)

module _ (same_derivation : Option Derivation → Option Derivation → Bool) where
  abbrev pub diff_derivation : RecipeTable → RecipeTable → PackageDiff → PackageDiff
  diff_derivation ta tb out =
      if same_derivation ta.derivation tb.derivation
      then out
      else push_lineage out
          (record { table = tb.name; change = derivation_changed ta.derivation tb.derivation })

  abbrev pub diff_row_count : RecipeTable → RecipeTable → PackageDiff → PackageDiff
  diff_row_count ta tb out =
      if ta.row_count == tb.row_count
      then out
      else push_count out (tb.name, ta.row_count, tb.row_count)

  abbrev pub diff_columns : RecipeTable → RecipeTable → PackageDiff → PackageDiff
  diff_columns ta tb out = each (added_column_round tb.name ta.schema) tb.schema (
      each (λ ca. column_round tb.name ca (find (λ c. text_eq c.name ca.name) tb.schema)) ta.schema
        out)

  unfoldable pub diff_matched_table : RecipeTable → RecipeTable → PackageDiff → PackageDiff
  diff_matched_table ta tb out =
      diff_row_count ta tb (diff_columns ta tb (diff_derivation ta tb out))

  unfoldable pub table_round : RecipeTable → Option RecipeTable → PackageDiff → PackageDiff
  unfolding diff_matched_table
  table_round ta none out = push_lineage out (record { table = ta.name; change = table_removed })
  table_round ta (some tb) out = diff_matched_table ta tb out

  -- `if find_table(a, name).is_none() { .. }`
  unfoldable pub added_table_round : RecipeTable → Option RecipeTable → PackageDiff → PackageDiff
  added_table_round tb none out =
      push_lineage out (record { table = tb.name; change = table_added })
  added_table_round tb (some _) out = out

  unfoldable pub diff_tables : Recipe → Recipe → PackageDiff → PackageDiff
  unfolding table_round added_table_round
  diff_tables a b out =
      each (λ tb. added_table_round tb (find_table a tb.name)) b.tables
        (each (λ ta. table_round ta (find_table b ta.name)) a.tables out)

  unfoldable pub compute : Recipe → Queries → Charts → Recipe → Queries → Charts → PackageDiff
  unfolding diff_tables diff_queries diff_charts
  compute a_recipe a_queries a_charts b_recipe b_queries b_charts =
      diff_charts a_charts b_charts
        (diff_queries a_queries b_queries (diff_tables a_recipe b_recipe empty_diff))
