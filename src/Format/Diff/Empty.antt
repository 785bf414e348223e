-- ===== src/Format/Diff/Empty.antt =====
-- When each step of the diff adds nothing.
use dat.Prelude.{
  ℕ, Bool, true, false, List, [], ◌∷◌, ◌++◌, Text, Option, some, none, ◌==◌, ◌&&◌, if◌then◌else◌,
  all, ◌≡◌, refl, sym, ap, ◌∙◌, arith, text_eq,
}
use dat.Format.Model.{
  ColumnFingerprint, Derivation, RecipeTable, Recipe, PackageQuery, Queries, PackageChart, Charts,
  spec_eq,
}
use dat.Format.Diff.{
  PackageDiff, SchemaDelta, LineageDelta, QueryDelta, ChartDelta, is_nil, is_empty, push_schema,
  push_lineage, push_query, push_chart, push_count, each, column_round, added_column_round,
  query_round, added_query_round, diff_queries, chart_round, added_chart_round, diff_charts,
  diff_derivation, diff_columns, diff_matched_table, table_round, added_table_round, diff_tables,
  find_table, compute, empty_diff,
}
use dat.Format.Diff.Maps.{matches, is_present, has_name, lookup, maps_agree, has_name-lookup}

is_nil-push {ℓ} : {A : Type ℓ} (l : List A) (x : A) → is_nil (l ++ x ∷ []) ≡ false
is_nil-push [] x = refl
is_nil-push (y ∷ l) x = refl

each-empty {ℓ} :
    {A : Type ℓ} (body : A → PackageDiff → PackageDiff) (test : A → Bool)
    → ((x : A) (out : PackageDiff) → is_empty (body x out) ≡ (is_empty out && test x))
    → (l : List A) (out : PackageDiff) → is_empty (each body l out) ≡ (is_empty out && all test l)
each-empty body test h [] out = ground arith
each-empty body test h (x ∷ l) out = ground (arith, each-empty body test h l (body x out), h x out)

-- An item of a list of pushes: a push makes the diff non-empty.
push_schema-empty : (d : PackageDiff) (x : SchemaDelta) → is_empty (push_schema d x) ≡ false
unfolding is_empty
push_schema-empty d x = ground (arith, is_nil-push d.schema x)

push_lineage-empty : (d : PackageDiff) (x : LineageDelta) → is_empty (push_lineage d x) ≡ false
unfolding is_empty
push_lineage-empty d x = ground (arith, is_nil-push d.lineage x)

push_query-empty : (d : PackageDiff) (x : QueryDelta) → is_empty (push_query d x) ≡ false
unfolding is_empty
push_query-empty d x = ground (arith, is_nil-push d.queries x)

push_chart-empty : (d : PackageDiff) (x : ChartDelta) → is_empty (push_chart d x) ≡ false
unfolding is_empty
push_chart-empty d x = ground (arith, is_nil-push d.charts x)

push_count-empty : (d : PackageDiff) (x : Text × ℕ × ℕ) → is_empty (push_count d x) ≡ false
unfolding is_empty
push_count-empty d x = ground (arith, is_nil-push d.row_count_deltas x)

-- A round that pushes unless a test holds.
unless :
    (b : Bool) (out pushed : PackageDiff)
    → is_empty pushed ≡ false
    → is_empty (if b then out else pushed) ≡ (is_empty out && b)
unless true out pushed h = ground arith
unless false out pushed h = ground arith

-- A round that always pushes.
nothing :
    (out pushed : PackageDiff) → is_empty pushed ≡ false → is_empty pushed ≡ (is_empty out && false)
nothing out pushed h = ground arith

and_assoc4 : (a b c d : Bool) → (((a && b) && c) && d) ≡ (a && (b && c && d))
and_assoc4 a b c d = ground arith

empty_diff-is_empty : is_empty empty_diff ≡ true
unfolding is_empty
empty_diff-is_empty = refl

-- The two loops over items with names: the items of the first list, then those of the second.
module _ {ℓ} {A : Type ℓ} (name : A → Text) (ok : A → A → Bool)
    (body : A → Option A → PackageDiff → PackageDiff) (extra : A → PackageDiff → PackageDiff) where
  pub loops-empty :
      (a b : List A)
      → ((x : A) (y : Option A) (out : PackageDiff)
          → is_empty (body x y out) ≡ (is_empty out && matches ok x y))
      → ((y : A) (out : PackageDiff)
          → is_empty (extra y out) ≡ (is_empty out && has_name name a (name y)))
      → (out : PackageDiff)
      → is_empty (each extra b (each (λ x. body x (lookup name b (name x))) a out)) ≡ (
          is_empty out
          && (all (λ x. matches ok x (lookup name b (name x))) a
              && all (λ y. has_name name a (name y)) b))
  loops-empty a b h k out =
      each-empty extra (λ y. has_name name a (name y)) k b
        (each (λ x. body x (lookup name b (name x))) a out)
      ∙ ground (
        arith,
        each-empty (λ x. body x (lookup name b (name x)))
            (λ x. matches ok x (lookup name b (name x)))
            (λ x out'. h x (lookup name b (name x)) out') a out,
      )

abbrev pub column_name : ColumnFingerprint → Text
column_name c = c.name

abbrev pub table_name : RecipeTable → Text
table_name t = t.name

abbrev pub query_name : PackageQuery → Text
query_name q = q.name

abbrev pub chart_name : PackageChart → Text
chart_name c = c.name

abbrev pub column_ok : ColumnFingerprint → ColumnFingerprint → Bool
column_ok ca cb = text_eq cb.type ca.type

abbrev pub query_ok : PackageQuery → PackageQuery → Bool
query_ok qa qb = text_eq qb.sql qa.sql

abbrev pub chart_ok : PackageChart → PackageChart → Bool
chart_ok ca cb = spec_eq cb.spec ca.spec

column_round-empty :
    (table : Text) (ca : ColumnFingerprint) (o : Option ColumnFingerprint) (out : PackageDiff)
    → is_empty (column_round table ca o out) ≡ (is_empty out && matches column_ok ca o)
unfolding column_round
column_round-empty table ca none out = nothing out _ (push_schema-empty out _)
column_round-empty table ca (some cb) out =
    unless (text_eq cb.type ca.type) out _ (push_schema-empty out _)

query_round-empty :
    (qa : PackageQuery) (o : Option PackageQuery) (out : PackageDiff)
    → is_empty (query_round qa o out) ≡ (is_empty out && matches query_ok qa o)
unfolding query_round
query_round-empty qa none out = nothing out _ (push_query-empty out _)
query_round-empty qa (some qb) out = unless (text_eq qb.sql qa.sql) out _ (push_query-empty out _)

chart_round-empty :
    (ca : PackageChart) (o : Option PackageChart) (out : PackageDiff)
    → is_empty (chart_round ca o out) ≡ (is_empty out && matches chart_ok ca o)
unfolding chart_round
chart_round-empty ca none out = nothing out _ (push_chart-empty out _)
chart_round-empty ca (some cb) out = unless (spec_eq cb.spec ca.spec) out _ (push_chart-empty out _)

diff_queries-empty :
    (a b : Queries) (out : PackageDiff)
    → is_empty (diff_queries a b out)
      ≡ (is_empty out && maps_agree query_name query_ok a.queries b.queries)
unfolding diff_queries
diff_queries-empty a b out =
    loops-empty query_name query_ok query_round (added_query_round a.queries) a.queries b.queries
      query_round-empty
      (λ qb out'.
        unfold added_query_round in
        unless (has_name query_name a.queries qb.name) out' _ (push_query-empty out' _))
      out

diff_charts-empty :
    (a b : Charts) (out : PackageDiff)
    → is_empty (diff_charts a b out)
      ≡ (is_empty out && maps_agree chart_name chart_ok a.charts b.charts)
unfolding diff_charts
diff_charts-empty a b out =
    loops-empty chart_name chart_ok chart_round (added_chart_round a.charts) a.charts b.charts
      chart_round-empty
      (λ cb out'.
        unfold added_chart_round in
        unless (has_name chart_name a.charts cb.name) out' _ (push_chart-empty out' _))
      out

module _ (same_derivation : Option Derivation → Option Derivation → Bool) where
  abbrev pub table_ok : RecipeTable → RecipeTable → Bool
  table_ok ta tb =
      same_derivation ta.derivation tb.derivation
      && maps_agree column_name column_ok ta.schema tb.schema
      && ta.row_count == tb.row_count

  diff_columns-empty :
      (ta tb : RecipeTable) (out : PackageDiff)
      → is_empty (diff_columns same_derivation ta tb out)
        ≡ (is_empty out && maps_agree column_name column_ok ta.schema tb.schema)
  diff_columns-empty ta tb out =
      loops-empty column_name column_ok (column_round tb.name)
        (added_column_round tb.name ta.schema) ta.schema tb.schema (column_round-empty tb.name)
        (λ cb out'.
          unfold added_column_round in
          unless (has_name column_name ta.schema cb.name) out' _ (push_schema-empty out' _))
        out

  diff_matched_table-empty :
      (ta tb : RecipeTable) (out : PackageDiff)
      → is_empty (diff_matched_table same_derivation ta tb out) ≡ (is_empty out && table_ok ta tb)
  unfolding diff_matched_table
  diff_matched_table-empty ta tb out =
      unless (ta.row_count == tb.row_count) _ _ (push_count-empty _ _)
      ∙ ap (λ t. t && ta.row_count == tb.row_count)
          (diff_columns-empty ta tb (diff_derivation same_derivation ta tb out)
            ∙ ap (λ t. t && maps_agree column_name column_ok ta.schema tb.schema)
                (unless (same_derivation ta.derivation tb.derivation) out _
                  (push_lineage-empty out _)))
      ∙ and_assoc4 (is_empty out) _ _ _

  table_round-empty :
      (ta : RecipeTable) (o : Option RecipeTable) (out : PackageDiff)
      → is_empty (table_round same_derivation ta o out) ≡ (is_empty out && matches table_ok ta o)
  unfolding table_round
  table_round-empty ta none out = nothing out _ (push_lineage-empty out _)
  table_round-empty ta (some tb) out = diff_matched_table-empty ta tb out

  added_table_round-empty :
      (tb : RecipeTable) (o : Option RecipeTable) (out : PackageDiff)
      → is_empty (added_table_round same_derivation tb o out) ≡ (is_empty out && is_present o)
  unfolding added_table_round
  added_table_round-empty tb none out = nothing out _ (push_lineage-empty out _)
  added_table_round-empty tb (some ta) out = ground arith

  diff_tables-empty :
      (a b : Recipe) (out : PackageDiff)
      → is_empty (diff_tables same_derivation a b out)
        ≡ (is_empty out && maps_agree table_name table_ok a.tables b.tables)
  unfolding diff_tables
  diff_tables-empty a b out =
      loops-empty table_name table_ok (table_round same_derivation)
        (λ tb. added_table_round same_derivation tb (find_table a tb.name)) a.tables b.tables
        table_round-empty
        (λ tb out'.
          added_table_round-empty tb (find_table a tb.name) out'
          ∙ ap (λ t. is_empty out' && t) (sym (has_name-lookup table_name a.tables tb.name)))
        out

  pub compute-empty :
      (a : Recipe) (qa : Queries) (ca : Charts) (b : Recipe) (qb : Queries) (cb : Charts)
      → is_empty (compute same_derivation a qa ca b qb cb) ≡ (
          maps_agree table_name table_ok a.tables b.tables
          && maps_agree query_name query_ok qa.queries qb.queries
          && maps_agree chart_name chart_ok ca.charts cb.charts)
  unfolding compute
  compute-empty a qa ca b qb cb =
      diff_charts-empty ca cb (diff_queries qa qb (diff_tables same_derivation a b empty_diff))
      ∙ ap (λ t. t && maps_agree chart_name chart_ok ca.charts cb.charts)
          (diff_queries-empty qa qb (diff_tables same_derivation a b empty_diff)
            ∙ ap (λ t. t && maps_agree query_name query_ok qa.queries qb.queries)
                (diff_tables-empty a b empty_diff))
      ∙ and_assoc4 (is_empty empty_diff) _ _ _
      ∙ ap
          (λ t.
            t
            && (maps_agree table_name table_ok a.tables b.tables
                && maps_agree query_name query_ok qa.queries qb.queries
                && maps_agree chart_name chart_ok ca.charts cb.charts))
          empty_diff-is_empty
