-- ===== src/Format/Diff/Examples.antt =====
-- Tests and instances for the package diff.
use dat.Prelude.{
  Bool, true, false, List, [], ◌∷◌, Text, codes, Option, some, none, ◌&&◌, ◌≡◌, refl, text_eq,
}
use dat.Format.Model.{base_table, derived_table, ColumnFingerprint, Derivation, RecipeTable}
use dat.Format.Diff.{
  is_empty, compute, diff_tables, diff_queries, diff_charts, table_round, added_table_round,
  diff_matched_table, column_round, added_column_round, query_round, added_query_round,
}
use dat.Format.Diff.Equivalence.{
  Package, HasNames, diff_is_empty, SamePackage-compute, compute-SamePackage,
}
use dat.Format.Diff.Symmetric.{text_eq_comm}
use dat.Format.Diff.Items.{SameContents, SameContents-compute}

abbrev texts_eq : List Text → List Text → Bool
texts_eq [] [] = true
texts_eq (s ∷ l) (t ∷ r) = text_eq s t && texts_eq l r
texts_eq _ _ = false

-- The equality of derivations that have no transformations.
abbrev same_sql : Option Derivation → Option Derivation → Bool
same_sql none none = true
same_sql (some (Derivation.sql s ps)) (some (Derivation.sql t qs)) = text_eq s t && texts_eq ps qs
same_sql _ _ = false

abbrev column : Text → Text → ColumnFingerprint
column n t = record { name = n; type = t }

abbrev sales : List ColumnFingerprint → RecipeTable
sales columns = record {
  id = codes "t_sales";
  name = codes "sales";
  kind = base_table;
  schema = columns;
  row_count = 3;
  data_path = codes "data/sales.parquet";
  source_ref = some (codes "src_sales");
  derivation = none;
}

abbrev totals : RecipeTable
totals = record {
  id = codes "t_totals";
  name = codes "totals";
  kind = derived_table;
  schema = column (codes "n") (codes "BIGINT") ∷ [];
  row_count = 1;
  data_path = codes "data/totals.parquet";
  source_ref = none;
  derivation = some (Derivation.sql (codes "SELECT count(*) AS n FROM sales") (codes "sales" ∷ []));
}

abbrev id_column : ColumnFingerprint
id_column = column (codes "id") (codes "BIGINT")

abbrev name_column : ColumnFingerprint
name_column = column (codes "name") (codes "VARCHAR")

abbrev of_tables : List RecipeTable → Package
of_tables tables = record {
  recipe = record { tables = tables };
  queries = record { queries = record { name = codes "all"; sql = codes "FROM sales" } ∷ [] };
  charts = record { charts = [] };
}

abbrev one_order : Package
one_order = of_tables (sales (id_column ∷ name_column ∷ []) ∷ totals ∷ [])

abbrev other_order : Package
other_order = of_tables (totals ∷ sales (name_column ∷ id_column ∷ []) ∷ [])

same_whatever_the_order : diff_is_empty same_sql one_order other_order ≡ true
unfolding is_empty compute diff_tables diff_queries diff_charts text_eq table_round
    added_table_round diff_matched_table column_round added_column_round query_round
    added_query_round
same_whatever_the_order = refl

one_order-HasNames : HasNames one_order
unfolding text_eq
one_order-HasNames = record {
  tables = (refl, (refl, tt));
  columns = ((refl, (refl, tt)), ((refl, tt), tt));
  queries = (refl, tt);
  charts = tt;
}

other_order-HasNames : HasNames other_order
unfolding text_eq
other_order-HasNames = record {
  tables = (refl, (refl, tt));
  columns = ((refl, tt), ((refl, (refl, tt)), tt));
  queries = (refl, tt);
  charts = tt;
}

texts_eq_comm : (l r : List Text) → texts_eq l r ≡ texts_eq r l
texts_eq_comm [] [] = refl
texts_eq_comm [] (t ∷ r) = refl
texts_eq_comm (s ∷ l) [] = refl
texts_eq_comm (s ∷ l) (t ∷ r) = rw (text_eq_comm s t, texts_eq_comm l r) refl

SameContents-compute_example : SameContents same_sql one_order other_order
SameContents-compute_example =
    SameContents-compute same_sql one_order other_order other_order-HasNames same_whatever_the_order

compute-SamePackage_example : diff_is_empty same_sql one_order other_order ≡ true
compute-SamePackage_example =
    compute-SamePackage same_sql one_order other_order one_order-HasNames
      (SamePackage-compute same_sql one_order other_order same_whatever_the_order)

same_sql-symmetric : (x y : Option Derivation) → same_sql x y ≡ same_sql y x
same_sql-symmetric none none = refl
same_sql-symmetric none (some (Derivation.sql t qs)) = refl
same_sql-symmetric none (some (Derivation.transform p ops)) = refl
same_sql-symmetric (some (Derivation.sql s ps)) none = refl
same_sql-symmetric (some (Derivation.sql s ps)) (some (Derivation.sql t qs)) =
    rw (text_eq_comm s t, texts_eq_comm ps qs) refl
same_sql-symmetric (some (Derivation.sql s ps)) (some (Derivation.transform p ops)) = refl
same_sql-symmetric (some (Derivation.transform p ops)) none = refl
same_sql-symmetric (some (Derivation.transform p ops)) (some (Derivation.sql t qs)) = refl
same_sql-symmetric (some (Derivation.transform p ops)) (some (Derivation.transform q ops')) = refl
