-- ===== src/Grid/DataSource/Examples.antt =====
-- Tests and instances for the data source: a cache of 64 pages, and a table of two rows.
use dat.Prelude.{
  ℕ, zero, suc, true, List, [], ◌∷◌, Text, codes, Option, some, none, ◌==◌, if◌then◌else◌, take,
  drop, ltb, length, ◌++◌, append-nil, take-append-drop, ◌≡◌, ◌⊎◌, refl, arith, sym, ◌∙◌,
  Bool-cases, inl, inr, text_eq,
}
use mathlib.Core.Option.{some-injective}
use dat.Prelude.Results.{ok}
use dat.Engine.Transform.{rowid_col}
use dat.Grid.DataSource.{
  LruCache, GridDataSource, ExecutePage, in_page, cell_at, page_for, column_name,
  schema_index_for_visible, visible_cell, visible_indices,
}
use dat.Grid.DataSource.Columns.{HasUniqueFields}
use dat.Grid.DataSource.Pages.{page, Serves, first_part, IsValid, page_for_lem}

abbrev Batch : Type 0
Batch = List (List Text)

abbrev Entries : Type 0
Entries = List (ℕ × Batch)

abbrev look_up : Entries → ℕ → Option Batch
look_up [] k = none
look_up ((j, v) ∷ l) k = if j == k then some v else look_up l k

look_up-take :
    (n : ℕ) (l : Entries) (k : ℕ) (w : Batch) → look_up (take n l) k ≡ some w → look_up l k ≡ some w
look_up-take zero l k w e = ground arith
look_up-take (suc n) [] k w e = e
look_up-take (suc n) ((j, v) ∷ l) k w e = elim (Bool-cases (j == k)) [
  | inl t ↦ rw t (sym (rw t refl) ∙ e)
  | inr f ↦ rw f (look_up-take n l k w (sym (rw f refl) ∙ e))
]

abbrev store : Entries → ℕ → Batch → Entries
store l k v = (k, v) ∷ take 63 l

look_up-store :
    (l : Entries) (k j : ℕ) (v w : Batch)
    → look_up (store l k v) j ≡ some w
    → ((k ≡ j) × (v ≡ w)) ⊎ (look_up l j ≡ some w)
look_up-store l k j v w e = elim (Bool-cases (k == j)) [
  | inl t ↦ inl (ground arith, some-injective v w (sym (rw t refl) ∙ e))
  | inr f ↦ inr (look_up-take 63 l j w (sym (rw f refl) ∙ e))
]

look_up-same : (l : Entries) (k : ℕ) (v : Batch) → look_up (store l k v) k ≡ some v
look_up-same l k v = let same : (k == k) ≡ true = ground arith in rw same refl

-- The newest 64 pages stored.
abbrev newest : LruCache Batch
newest = record {
  Cache = Entries;
  new = [];
  get = λ c k. (look_up c k, c);
  put = store;
  get-new = λ k. refl;
  get-put = look_up-same;
  get-put_other = look_up-store;
  get-get = λ c k j. refl;
}

abbrev people : Batch
people = (codes "0" ∷ codes "Ann" ∷ []) ∷ (codes "1" ∷ codes "Bo" ∷ []) ∷ []

abbrev execute_page : ExecutePage Text Batch
execute_page sql offset limit = ok (take limit (drop offset people) ∷ [])

abbrev source : GridDataSource Entries
source = record {
  table_name = codes "people";
  schema = rowid_col ∷ codes "name" ∷ [];
  row_count = 2;
  cache = [];
}

source-Serves : Serves people newest (codes "empty") execute_page (codes "people")
source-Serves start lt = (take 1024 (drop start people), [], refl, append-nil _)

source-IsValid : IsValid people newest (codes "empty") execute_page (codes "people") source
source-IsValid = record { on_table = refl; counted = refl; cached = λ start batch e. ground arith }

page_for_lem_example :
    let out = page_for newest (codes "empty") execute_page source 0 in
    let batch = first_part people newest (codes "empty") execute_page (codes "people") 0 in
    (out.0 ≡ ok batch)
    × ((rest : Batch) × (batch ++ rest ≡ page people 0))
    × IsValid people newest (codes "empty") execute_page (codes "people") out.1
    × ((cell_at newest out.1 1 1).0
        ≡ (if ltb 1 (length batch) then in_page (some people) 1 1 else none))
page_for_lem_example =
    page_for_lem people newest (codes "empty") execute_page (codes "people") source 0 1 1
      source-Serves source-IsValid refl

-- An engine that cuts the page behind its first row: the second row has no cells then.
abbrev cut_page : ExecutePage Text Batch
cut_page sql offset limit =
    ok (take 1 (take limit (drop offset people)) ∷ drop 1 (take limit (drop offset people)) ∷ [])

cut_page-Serves : Serves people newest (codes "empty") cut_page (codes "people")
cut_page-Serves start lt = (
  take 1 (take 1024 (drop start people)),
  drop 1 (take 1024 (drop start people)) ∷ [],
  refl,
  take-append-drop 1 (take 1024 (drop start people)),
)

behind_the_cut :
    (visible_cell newest (page_for newest (codes "empty") cut_page source 0).1 1 0).0 ≡ none
unfolding visible_cell page_for schema_index_for_visible visible_indices text_eq
behind_the_cut = refl

shown_cell :
    (visible_cell newest (page_for newest (codes "empty") execute_page source 0).1 1 0).0
    ≡ some (codes "Bo")
unfolding visible_cell page_for schema_index_for_visible visible_indices text_eq
shown_cell = refl

first_column : column_name source 0 ≡ some (codes "name")
unfolding column_name schema_index_for_visible visible_indices text_eq
first_column = refl

source-HasUniqueFields : HasUniqueFields source.schema
unfolding text_eq
source-HasUniqueFields = (refl, (refl, tt))
