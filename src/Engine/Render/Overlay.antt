-- ===== src/Engine/Render/Overlay.antt =====
-- `EditOverlay`: cell edits grouped by column, in first-seen order, the last write winning.
use dat.Prelude.{
  List, [], ◌∷◌, Text, codes, Option, none, some, concat, join, map, ◌≡◌, refl, arith, ℤ, eq_ℤ,
  eq_ℤ_iff, text_eq, text_eq_iff, if◌then◌else◌, ◌&&◌,
}
use dat.Prelude.Decimal.{decimal_ℤ}
use dat.Engine.Transform.{CellEdit, row_id, rowid_col}
use dat.Engine.Render.Literal.{Host, quote_ident, render_scalar}

-- `Vec<(String, Vec<(i64, String)>)>`
abbrev pub EditOverlay : Type 0
EditOverlay = List (Text × List (ℤ × Text))

-- The write into the column's entry.
unfoldable pub upsert_id : ℤ → Text → List (ℤ × Text) → List (ℤ × Text)
upsert_id id literal [] = (id, literal) ∷ []
upsert_id id literal ((existing, old) ∷ rest) =
    if eq_ℤ existing id
    then (existing, literal) ∷ rest
    else (existing, old) ∷ upsert_id id literal rest

unfoldable pub upsert_column : Text → ℤ → Text → EditOverlay → EditOverlay
unfolding upsert_id
upsert_column column id literal [] = (column, upsert_id id literal []) ∷ []
upsert_column column id literal ((c, cells) ∷ rest) =
    if text_eq c column
    then (c, upsert_id id literal cells) ∷ rest
    else (c, cells) ∷ upsert_column column id literal rest

unfoldable pub upsert : Host → EditOverlay → CellEdit → EditOverlay
upsert h overlay cell =
    upsert_column cell.column (row_id cell.row) (render_scalar h cell.value) overlay

-- `for cell in cells { edits.upsert(cell) }`
unfoldable pub upsert_all : Host → EditOverlay → List CellEdit → EditOverlay
upsert_all h overlay [] = overlay
upsert_all h overlay (cell ∷ cells) = upsert_all h (upsert h overlay cell) cells

unfoldable pub render_when : ℤ × Text → Text
render_when (id, literal) =
    concat (codes "WHEN " ∷ rowid_col ∷ codes " = " ∷ decimal_ℤ id ∷ codes " THEN " ∷ literal ∷ [])

unfoldable pub render_case : Text × List (ℤ × Text) → Text
unfolding render_when
render_case (column, cells) = concat (
    codes "CASE "
    ∷ join (codes " ") (map render_when cells)
    ∷ codes " ELSE "
    ∷ quote_ident column
    ∷ codes " END AS "
    ∷ quote_ident column
    ∷ [])

unfoldable pub render_replace : EditOverlay → Text
unfolding render_case
render_replace overlay = join (codes ", ") (map render_case overlay)

-- What the overlay holds for a cell: the CASE of SQL takes the first WHEN that fits.
abbrev find_id : ℤ → List (ℤ × Text) → Option Text
find_id id [] = none
find_id id ((i, literal) ∷ rest) = if eq_ℤ i id then some literal else find_id id rest

unfoldable pub cell_value : EditOverlay → Text → ℤ → Option Text
cell_value [] column id = none
cell_value ((c, cells) ∷ rest) column id =
    if text_eq c column then find_id id cells else cell_value rest column id

-- The value that the edits leave in a cell, read off the edits in order.
abbrev written : Host → CellEdit → Text → ℤ → Option Text → Option Text
written h cell column id before =
    if text_eq cell.column column && eq_ℤ (row_id cell.row) id
    then some (render_scalar h cell.value)
    else before

unfoldable pub last_write : Host → List CellEdit → Text → ℤ → Option Text → Option Text
last_write h [] column id before = before
last_write h (cell ∷ cells) column id before =
    last_write h cells column id (written h cell column id before)

find_id-upsert_id :
    (i : ℤ) (literal : Text) (cells : List (ℤ × Text)) (j : ℤ)
    → find_id j (upsert_id i literal cells) ≡ (if eq_ℤ i j then some literal else find_id j cells)
unfolding upsert_id
find_id-upsert_id i literal [] j = refl
find_id-upsert_id i literal ((k, old) ∷ rest) j =
    ground (arith, eq_ℤ_iff k i, eq_ℤ_iff k j, eq_ℤ_iff i j, find_id-upsert_id i literal rest j)

cell_value-upsert_column :
    (c : Text) (i : ℤ) (literal : Text) (overlay : EditOverlay) (d : Text) (j : ℤ)
    → cell_value (upsert_column c i literal overlay) d j
      ≡ (if text_eq c d && eq_ℤ i j then some literal else cell_value overlay d j)
unfolding upsert_column cell_value
cell_value-upsert_column c i literal [] d j = ground arith
cell_value-upsert_column c i literal ((e, cells) ∷ rest) d j = ground (
  arith,
  text_eq_iff e c,
  text_eq_iff e d,
  text_eq_iff c d,
  find_id-upsert_id i literal cells j,
  cell_value-upsert_column c i literal rest d j,
)

-- After a sequence of edits the overlay holds, for every column and row, the value of the last
-- edit of that cell, and what it held before for a cell that no edit names.
pub cell_value-upsert_all :
    (h : Host) (overlay : EditOverlay) (cells : List CellEdit) (column : Text) (id : ℤ)
    → cell_value (upsert_all h overlay cells) column id
      ≡ last_write h cells column id (cell_value overlay column id)
unfolding upsert_all last_write upsert
cell_value-upsert_all h overlay [] column id = refl
cell_value-upsert_all h overlay (cell ∷ cells) column id =
    rw (cell_value-upsert_all h (upsert h overlay cell) cells column id) (
      rw (
        cell_value-upsert_column cell.column (row_id cell.row) (render_scalar h cell.value) overlay
          column id))
