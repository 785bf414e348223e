-- ===== src/View/Columns.antt =====
-- The visible columns of a tab (crates/dat0-core/src/view/column_view.rs). A `HashSet` of names is a
-- list here: it is only extended and asked for members.
pub mod Fold
mod Examples
use dat.Prelude.{
  ℕ, ltb, length, insert_idx, erase_idx, get_elem?, Bool, true, false, List, [], ◌∷◌, ◌++◌, Text,
  Option, some, none, ◌&&◌, if◌then◌else◌, any, find, map, text_eq, not,
}
use dat.Engine.Transform.{ProjectionColumn, Transformation, rename, delete_column, reorder}

-- `next.iter().any(|n| n.source == source)` and `columns.contains(&source)`
abbrev pub has_source : List ProjectionColumn → Text → Bool
has_source cols x = any (λ c. text_eq c.source x) cols

abbrev pub has_text : List Text → Text → Bool
has_text columns x = any (λ c. text_eq c x) columns

-- `if let Some(c) = cols.iter_mut().find(..) { c.display = to.clone(); }`
unfoldable pub rename_column : Text → Text → List ProjectionColumn → List ProjectionColumn
rename_column column to [] = []
rename_column column to (c ∷ cols) =
    let rest = rename_column column to cols in
    if text_eq c.source column then record c { display = to } ∷ cols else c ∷ rest

abbrev pub push_found : List ProjectionColumn → Option ProjectionColumn → List ProjectionColumn
push_found next none = next
push_found next (some c) = next ++ c ∷ []

-- The loop over the names of the new order.
unfoldable pub pick :
    List ProjectionColumn → List ProjectionColumn → List Text → List ProjectionColumn
pick cols next [] = next
pick cols next (src ∷ columns) =
    pick cols (push_found next (find (λ c. text_eq c.source src) cols)) columns

abbrev pub keep_one : List Text → List ProjectionColumn → ProjectionColumn → List ProjectionColumn
keep_one columns next c =
    if not (has_text columns c.source) && not (has_source next c.source)
    then next ++ c ∷ []
    else next

-- The loop over the columns that the new order leaves out.
unfoldable pub keep_rest :
    List Text → List ProjectionColumn → List ProjectionColumn → List ProjectionColumn
keep_rest columns next [] = next
keep_rest columns next (c ∷ cols) = keep_rest columns (keep_one columns next c) cols

unfoldable pub reorder_columns : List Text → List ProjectionColumn → List ProjectionColumn
unfolding pick keep_rest
reorder_columns columns cols = keep_rest columns (pick cols [] columns) cols

-- The loop over the transformations, with the columns and the deleted names.
unfoldable pub fold_step :
    List ProjectionColumn × List Text → Transformation → List ProjectionColumn × List Text
unfolding rename_column reorder_columns
fold_step (cols, deleted) (rename column to) = (rename_column column to cols, deleted)
fold_step (cols, deleted) (delete_column columns) = (cols, deleted ++ columns)
fold_step (cols, deleted) (reorder columns) = (reorder_columns columns cols, deleted)
fold_step (cols, deleted) t = (cols, deleted)

unfoldable pub fold_ops :
    List ProjectionColumn × List Text → List Transformation → List ProjectionColumn × List Text
unfolding fold_step
fold_ops s [] = s
fold_ops s (op ∷ ops) = fold_ops (fold_step s op) ops

unfoldable pub without : List Text → List ProjectionColumn → List ProjectionColumn
without deleted [] = []
without deleted (c ∷ cols) =
    let rest = without deleted cols in if has_text deleted c.source then rest else c ∷ rest

abbrev pub projected : Text → ProjectionColumn
projected s = record { source = s; display = s }

unfoldable pub fold_columns : List Text → List Transformation → List ProjectionColumn
unfolding fold_ops without
fold_columns base ops =
    let (cols, deleted) = fold_ops (map projected base, []) ops in without deleted cols

abbrev pub sources : List ProjectionColumn → List Text
sources folded = map (λ c. c.source) folded

-- `insert(to, remove(from))`
abbrev pub move_source : List Text → ℕ → Option Text → List Text
move_source rest to none = rest
move_source rest to (some moved) = insert_idx rest to moved

unfoldable pub reorder_payload : List ProjectionColumn → ℕ → ℕ → List Text
reorder_payload folded from to =
    if ltb from (length (sources folded)) && ltb to (length (sources folded))
    then move_source (erase_idx (sources folded) from) to (get_elem? (sources folded) from)
    else sources folded

abbrev pub source_of : Option ProjectionColumn → Option Text
source_of none = none
source_of (some c) = some c.source

unfoldable pub source_for_screen_col : List ProjectionColumn → ℕ → Option Text
source_for_screen_col folded screen_ix = source_of (get_elem? folded screen_ix)
