-- ===== src/Engine/Transform.antt =====
-- Transformations of a table view (crates/dat0-engine/src/transform.rs).
-- An `i64` is an integer here, and an `f64` is its 64-bit pattern, a number.
pub mod Replay
pub mod Dates
pub mod Boundary
mod Examples
use dat.Prelude.{ℕ, ◌+◌, Bool, List, [], ◌∷◌, ◌++◌, Text, codes, ℤ, ltb, ◌||◌, if◌then◌else◌}

-- `Surrogate { id }` is the only constructor.
pub data RowKey : Type 0 where
  surrogate : ℤ → RowKey

abbrev pub row_id : RowKey → ℤ
row_id (surrogate id) = id

pub data Scalar : Type 0 where
  null : Scalar
  bool : Bool → Scalar
  int : ℤ → Scalar
  float : ℕ → Scalar
  str date timestamp : Text → Scalar

pub data FilterOp : Type 0 where
  eq neq lt lte gt gte between contains not_contains starts_with ends_with : FilterOp
  in_list regex is_empty is_not_empty is_true is_false : FilterOp

pub data FilterValue : Type 0 where
  scalar : Scalar → FilterValue
  range : (lo hi : Scalar) (inclusive : Bool) → FilterValue
  list : List Scalar → FilterValue
  none : FilterValue

pub data SortDirection : Type 0 where
  asc desc : SortDirection

pub record SortKey : Type 0 where
  pub column : Text
  pub direction : SortDirection

pub record CellEdit : Type 0 where
  pub row : RowKey
  pub column : Text
  pub value : Scalar

pub data Transformation : Type 0 where
  filter : (column : Text) (op : FilterOp) (value : FilterValue) → Transformation
  sort : List SortKey → Transformation
  edit : List CellEdit → Transformation
  row_delete : List RowKey → Transformation
  reorder : List Text → Transformation
  rename : (column to : Text) → Transformation
  delete_column : List Text → Transformation

abbrev pub rowid_col : Text
rowid_col = codes "__dat0_rowid"

pub record ReplaySplit : Type 0 where
  pub replayable : List Transformation
  pub dropped_edits : ℕ
  pub dropped_deletes : ℕ

abbrev pub has_dropped : ReplaySplit → Bool
has_dropped s = ltb 0 s.dropped_edits || ltb 0 s.dropped_deletes

-- One round of the loop of `split_replayable`.
abbrev split_step : ReplaySplit → Transformation → ReplaySplit
split_step s (edit _) = record s { dropped_edits = s.dropped_edits + 1 }
split_step s (row_delete _) = record s { dropped_deletes = s.dropped_deletes + 1 }
split_step s op = record s { replayable = s.replayable ++ op ∷ [] }

abbrev split_loop : ReplaySplit → List Transformation → ReplaySplit
split_loop s [] = s
split_loop s (op ∷ ops) = split_loop (split_step s op) ops

unfoldable pub split_replayable : List Transformation → ReplaySplit
split_replayable ops =
    split_loop (record { replayable = []; dropped_edits = 0; dropped_deletes = 0 }) ops

pub record ProjectionColumn : Type 0 where
  pub source : Text
  pub display : Text
