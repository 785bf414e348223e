-- ===== src/Grid/DataSource.antt =====
-- The rows behind the grid (crates/dat0-core/src/grid/data_source.rs): pages of 1024 rows, fetched on
-- demand and cached. An Arrow batch is its rows, a row its cells, in the order of the schema; the
-- crate `lru`, the engine and the cell's renderer are parameters.
pub mod Columns
pub mod Pages
mod Examples
use dat.Prelude.{
  ℕ, ◌+◌, ◌-◌, ◌*◌, ◌/◌, Bool, true, false, List, [], ◌∷◌, ◌++◌, Text, codes, Option, some, none,
  ◌&&◌, not, leb, ltb, if◌then◌else◌, length, get_elem?, position, any, text_eq, concat, ℤ, ◌≡◌,
  ◌⊎◌,
}
use dat.Prelude.Results.{Result, ok, err}
use dat.Engine.Transform.{rowid_col}
use dat.Engine.Render.Literal.{double}

-- What the crate `lru` documents of its cache: `put` stores under the key, and can evict any other
-- entry; `get` gives what is stored, and changes only which entry is evicted next.
pub record LruCache (V : Type 0) : Type 1 where
  pub Cache : Type 0
  pub new : Cache
  pub get : Cache → ℕ → Option V × Cache
  pub put : Cache → ℕ → V → Cache
  pub get-new : (k : ℕ) → (get new k).0 ≡ none
  pub get-put : (c : Cache) (k : ℕ) (v : V) → (get (put c k v) k).0 ≡ some v
  pub get-put_other :
      (c : Cache) (k j : ℕ) (v w : V)
      → (get (put c k v) j).0 ≡ some w
      → ((k ≡ j) × (v ≡ w)) ⊎ ((get c j).0 ≡ some w)
  pub get-get : (c : Cache) (k j : ℕ) → (get (get c k).1 j).0 ≡ (get c j).0

-- `PAGE_ROWS`
abbrev pub page_rows : ℕ
page_rows = 1024

abbrev pub page_start : ℕ → ℕ
page_start row = (row / page_rows) * page_rows

-- `SELECT * FROM "<safe name>"`
unfoldable pub select_all_sql : Text → Text
select_all_sql table_name =
    concat (codes "SELECT * FROM \"" ∷ double b'"' table_name ∷ codes "\"" ∷ [])

-- `execute_page` over `sql`, with an offset and a limit: the batches of the page, or an error.
abbrev pub ExecutePage : Type 0 → Type 0 → Type 0
ExecutePage E Batch = Text → ℕ → ℕ → Result E (List Batch)

pub record GridDataSource (C : Type 0) : Type 0 where
  pub table_name : Text
  pub schema : List Text
  pub row_count : ℕ
  pub cache : C

-- A field that is not the surrogate key.
abbrev pub is_visible : Text → Bool
is_visible name = not (text_eq name rowid_col)

unfoldable pub visible_names : List Text → List Text
visible_names [] = []
visible_names (f ∷ fields) =
    let rest = visible_names fields in if is_visible f then f ∷ rest else rest

-- `enumerate().filter(..).map(|(ix, _)| ix)`, counting from `ix`.
unfoldable pub visible_indices : ℕ → List Text → List ℕ
visible_indices ix [] = []
visible_indices ix (f ∷ fields) =
    let rest = visible_indices (ix + 1) fields in if is_visible f then ix ∷ rest else rest

module _ {C : Type 0} (ds : GridDataSource C) where
  unfoldable pub visible_column_names : List Text
  unfolding visible_names
  visible_column_names = visible_names ds.schema

  unfoldable pub schema_index_for_visible : ℕ → Option ℕ
  unfolding visible_indices
  schema_index_for_visible visible_ix = get_elem? (visible_indices 0 ds.schema) visible_ix

  unfoldable pub schema_index_for_source : Text → Option ℕ
  schema_index_for_source source =
      if text_eq source rowid_col then none else position (λ f. text_eq f source) ds.schema

  unfoldable pub visible_column_count : ℕ
  unfolding visible_names
  visible_column_count = length (visible_names ds.schema)

  abbrev pub field_at : Option ℕ → Option Text
  field_at none = none
  field_at (some schema_ix) = get_elem? ds.schema schema_ix

  unfoldable pub column_name : ℕ → Option Text
  unfolding schema_index_for_visible
  column_name ix = field_at (schema_index_for_visible ix)

  unfoldable pub has_row_ids : Bool
  has_row_ids = any (λ f. text_eq f rowid_col) ds.schema

module _ {Cell : Type 0} where
  abbrev pub in_row : Option (List Cell) → ℕ → Option Cell
  in_row none ix = none
  in_row (some row) ix = get_elem? row ix

  -- `None` where the page is not cached, or ends before the row.
  abbrev pub in_page : Option (List (List Cell)) → ℕ → ℕ → Option Cell
  in_page none offset ix = none
  in_page (some batch) offset ix = in_row (get_elem? batch offset) ix

  module _ (lru : LruCache (List (List Cell))) where
    abbrev pub Source : Type 0
    Source = GridDataSource lru.Cache

    abbrev pub cell_at : Source → ℕ → ℕ → Option Cell × Source
    cell_at ds screen_row schema_ix =
        let (batch, cache) = lru.get ds.cache (page_start screen_row) in
        (in_page batch (screen_row - page_start screen_row) schema_ix, record ds { cache = cache })

    abbrev pub cell_at_index : Source → ℕ → Option ℕ → Option Cell × Source
    cell_at_index ds screen_row none = (none, ds)
    cell_at_index ds screen_row (some schema_ix) = cell_at ds screen_row schema_ix

    -- The cell that `cell_render` and `cell_display` show.
    unfoldable pub visible_cell : Source → ℕ → ℕ → Option Cell × Source
    visible_cell ds screen_row visible_col =
        cell_at_index ds screen_row (schema_index_for_visible ds visible_col)

    -- The cell that `cell_scalar_for_source` and `cell_display_for_source` read.
    unfoldable pub source_cell : Source → ℕ → Text → Option Cell × Source
    source_cell ds screen_row source =
        cell_at_index ds screen_row (schema_index_for_source ds source)

    abbrev pub int64_of : (Cell → Option ℤ) → Option Cell × Source → Option ℤ × Source
    int64_of int64 (none, ds) = (none, ds)
    int64_of int64 (some c, ds) = (int64 c, ds)

    -- `int64` is the value of a cell of an `Int64Array` that is not null.
    unfoldable pub row_key : (Cell → Option ℤ) → Source → ℕ → Option ℤ × Source
    row_key int64 ds screen_row =
        int64_of int64 (cell_at_index ds screen_row (position (λ f. text_eq f rowid_col) ds.schema))

    module _ {E : Type 0} (empty_result : E) (execute_page : ExecutePage E (List (List Cell))) where
      -- `batches.into_iter().next()`, put into the cache.
      abbrev pub first_batch :
          Source → ℕ → Result E (List (List (List Cell))) → Result E (List (List Cell)) × Source
      first_batch ds key (err e) = (err e, ds)
      first_batch ds key (ok []) = (err empty_result, ds)
      first_batch ds key (ok (batch ∷ _)) =
          (ok batch, record ds { cache = lru.put ds.cache key batch })

      abbrev pub fetch : Source → ℕ → Result E (List (List Cell)) × Source
      fetch ds key =
          if leb ds.row_count key
          then (ok [], record ds { cache = lru.put ds.cache key [] })
          else first_batch ds key (execute_page (select_all_sql ds.table_name) key page_rows)

      abbrev pub serve :
          Source → ℕ → Option (List (List Cell)) × lru.Cache → Result E (List (List Cell)) × Source
      serve ds key (some batch, cache) = (ok batch, record ds { cache = cache })
      serve ds key (none, cache) = fetch (record ds { cache = cache }) key

      unfoldable pub page_for : Source → ℕ → Result E (List (List Cell)) × Source
      page_for ds row = serve ds (page_start row) (lru.get ds.cache (page_start row))
