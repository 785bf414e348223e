-- ===== src/Engine/Render/Compile.antt =====
-- `compile_view_sql` and `render_export_select`.
use dat.Prelude.{
  Bool, true, false, List, [], ◌∷◌, ◌++◌, Text, codes, Option, none, some, concat, join, map, ◌&&◌,
  if◌then◌else◌, ℤ, text_eq,
}
use dat.Prelude.Decimal.{decimal_ℤ}
use dat.Prelude.Results.{Result, ok, err, ◌>>=◌}
use dat.Engine.Transform.{
  row_id, rowid_col, SortKey, Transformation, filter, sort, edit, row_delete, reorder, rename,
  delete_column, ProjectionColumn,
}
use dat.Engine.Render.Literal.{Host, quote_ident}
use dat.Engine.Render.Filter.{RenderError, empty_edit, empty_row_delete, render_filter, render_sort}
use dat.Engine.Render.Overlay.{EditOverlay, upsert_all, render_replace}

-- The four variables of the loop.
pub record Clauses : Type 0 where
  pub where_clauses : List Text
  pub sort : Option (List SortKey)
  pub edits : EditOverlay
  pub delete_ids : List ℤ

abbrev pub no_clauses : Clauses
no_clauses = record { where_clauses = []; sort = none; edits = []; delete_ids = [] }

-- One round of the loop.
unfoldable pub add_clause : Host → Clauses → Transformation → Result RenderError Clauses
add_clause h s (filter column op value) = do
  sql ← render_filter h column op value
  ok (record s { where_clauses = s.where_clauses ++ sql ∷ [] })
add_clause h s (sort keys) = ok (record s { sort = some keys })
add_clause h s (edit []) = err empty_edit
add_clause h s (edit (c ∷ cells)) = ok (record s { edits = upsert_all h s.edits (c ∷ cells) })
add_clause h s (row_delete []) = err empty_row_delete
add_clause h s (row_delete (r ∷ rows)) =
    ok (record s { delete_ids = s.delete_ids ++ map row_id (r ∷ rows) })
add_clause h s (reorder _) = ok s
add_clause h s (rename _ _) = ok s
add_clause h s (delete_column _) = ok s

unfoldable pub add_clauses : Host → Clauses → List Transformation → Result RenderError Clauses
add_clauses h s [] = ok s
add_clauses h s (op ∷ ops) = do s' ← add_clause h s op; add_clauses h s' ops

abbrev is_nil {ℓ} : {A : Type ℓ} → List A → Bool
is_nil [] = true
is_nil (_ ∷ _) = false

unfoldable pub where_sql : List Text → Text
where_sql [] = []
where_sql (w ∷ ws) = codes " WHERE " ++ join (codes " AND ") (w ∷ ws)

unfoldable pub order_sql : Option (List SortKey) → Text
order_sql none = []
order_sql (some []) = []
order_sql (some (k ∷ ks)) = codes " ORDER BY " ++ render_sort (k ∷ ks)

unfoldable pub replace_sql : EditOverlay → Text
replace_sql [] = []
replace_sql (e ∷ es) = concat (codes " REPLACE (" ∷ render_replace (e ∷ es) ∷ codes ")" ∷ [])

unfoldable pub delete_sql : List ℤ → Text
delete_sql [] = []
delete_sql (i ∷ ids) = concat (
    codes " WHERE "
    ∷ rowid_col
    ∷ codes " NOT IN ("
    ∷ join (codes ", ") (map decimal_ℤ (i ∷ ids))
    ∷ codes ")"
    ∷ [])

unfoldable pub assemble : Text → Clauses → Text
unfolding where_sql order_sql replace_sql delete_sql
assemble base s =
    if is_nil s.edits && is_nil s.delete_ids
    then concat (codes "SELECT * FROM " ∷ base ∷ where_sql s.where_clauses ∷ order_sql s.sort ∷ [])
    else concat (
        codes "SELECT * FROM ("
        ∷ concat (
            codes "SELECT *"
            ∷ replace_sql s.edits
            ∷ codes " FROM "
            ∷ base
            ∷ delete_sql s.delete_ids
            ∷ [])
        ∷ codes ")"
        ∷ where_sql s.where_clauses
        ∷ order_sql s.sort
        ∷ [])

unfoldable pub compile_view_sql : Host → Text → List Transformation → Result RenderError Text
compile_view_sql h base ops = do s ← add_clauses h no_clauses ops; ok (assemble base s)

unfoldable pub export_item : ProjectionColumn → Text
export_item c =
    if text_eq c.display c.source
    then quote_ident c.source
    else concat (quote_ident c.source ∷ codes " AS " ∷ quote_ident c.display ∷ [])

unfoldable pub render_export_select : Text → List ProjectionColumn → Text
unfolding export_item
render_export_select inner_sql cols = concat (
    codes "SELECT "
    ∷ join (codes ", ") (map export_item cols)
    ∷ codes " FROM ("
    ∷ inner_sql
    ∷ codes ")"
    ∷ [])
