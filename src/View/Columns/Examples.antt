-- ===== src/View/Columns/Examples.antt =====
-- Tests and instances for the column fold.
use dat.Prelude.{List, [], ◌∷◌, Text, codes, ◌≡◌, refl, text_eq, not, any, ◌&&◌, some}
use dat.Engine.Transform.{Transformation, rename, delete_column, reorder}
use dat.View.Columns.{
  has_source, has_text, fold_columns, fold_ops, fold_step, rename_column, reorder_columns, pick,
  keep_rest, without, projected, reorder_payload, source_for_screen_col,
}
use dat.View.Columns.Fold.{deletes, has_source-fold_columns}

abbrev base : List Text
base = codes "id" ∷ codes "name" ∷ codes "age" ∷ []

-- The reorder leaves `id` out, and `age` is deleted.
abbrev ops : List Transformation
ops =
    rename (codes "name") (codes "Name")
    ∷ reorder (codes "age" ∷ codes "name" ∷ [])
    ∷ delete_column (codes "age" ∷ [])
    ∷ []

folded :
    fold_columns base ops
    ≡ record { source = codes "name"; display = codes "Name" } ∷ projected (codes "id") ∷ []
unfolding fold_columns fold_ops fold_step rename_column reorder_columns pick keep_rest without
    text_eq
folded = refl

moved_column :
    reorder_payload (projected (codes "a") ∷ projected (codes "b") ∷ projected (codes "c") ∷ []) 0 2
    ≡ codes "b" ∷ codes "c" ∷ codes "a" ∷ []
unfolding reorder_payload
moved_column = refl

second_screen_column : source_for_screen_col (fold_columns base ops) 1 ≡ some (codes "id")
unfolding source_for_screen_col
second_screen_column = rw folded refl

has_source-fold_columns_example :
    has_source (fold_columns base ops) (codes "id")
    ≡ (has_text base (codes "id") && not (any (deletes (codes "id")) ops))
has_source-fold_columns_example = has_source-fold_columns base ops (codes "id")
