-- ===== src/Grid/Clipboard.antt =====
-- The clipboard codec (crates/dat0-core/src/grid/clipboard.rs): tab-separated text, in bytes.
pub mod RoundTrip
mod Examples
use dat.Prelude.{
  ℕ, Bool, true, false, List, [], ◌∷◌, ◌++◌, Text, codes, Option, none, some, ◌==◌, ◌||◌, ◌&&◌,
  if◌then◌else◌, any, map, join,
}
use dat.Prelude.Scan.{scan}
use dat.Engine.Render.Literal.{double}

abbrev pub is_special : ℕ → Bool
is_special c = c == b'\t' || c == b'\n' || c == b'\r' || c == b'"'

unfoldable pub quote_cell : Text → Text
quote_cell cell = if any is_special cell then b'"' ∷ (double b'"' cell ++ b'"' ∷ []) else cell

unfoldable pub serialize_row : List Text → Text
serialize_row row = join (b'\t' ∷ []) (map quote_cell row)

unfoldable pub tsv_serialize : List (List Text) → Text
tsv_serialize grid = join (b'\r' ∷ b'\n' ∷ []) (map serialize_row grid)

pub record TsvParser : Type 0 where
  pub rows : List (List Text)
  pub row : List Text
  pub cell : Text
  pub in_quotes : Bool
  pub at_field_start : Bool

-- `chars.peek() == Some(&c)`
abbrev pub peeks : Option ℕ → ℕ → Bool
peeks none c = false
peeks (some d) c = d == c

abbrev end_cell : TsvParser → TsvParser
end_cell s = record s { row = s.row ++ s.cell ∷ []; cell = []; at_field_start = true }

abbrev end_row : TsvParser → TsvParser
end_row s = record s {
  rows = s.rows ++ (s.row ++ s.cell ∷ []) ∷ [];
  row = [];
  cell = [];
  at_field_start = true;
}

-- A round inside a quoted field.
unfoldable pub quoted_round : TsvParser → ℕ → Option ℕ → TsvParser × Bool
quoted_round s c next =
    if c == b'"'
    then (if peeks next b'"'
        then (record s { cell = s.cell ++ b'"' ∷ [] }, true)
        else (record s { in_quotes = false }, false))
    else (record s { cell = s.cell ++ c ∷ [] }, false)

-- A round outside.
unfoldable pub plain_round : TsvParser → ℕ → Option ℕ → TsvParser × Bool
plain_round s c next =
    if c == b'"' && s.at_field_start
    then (record s { in_quotes = true; at_field_start = false }, false)
    else if c == b'\t'
    then (end_cell s, false)
    else if c == b'\r'
    then (end_row s, peeks next b'\n')
    else if c == b'\n'
    then (end_row s, false)
    else (record s { cell = s.cell ++ c ∷ []; at_field_start = false }, false)

unfoldable pub tsv_round : TsvParser → ℕ → Option ℕ → TsvParser × Bool
unfolding quoted_round plain_round
tsv_round s c next = if s.in_quotes then quoted_round s c next else plain_round s c next

abbrev pub start : TsvParser
start = record { rows = []; row = []; cell = []; in_quotes = false; at_field_start = true }

-- The trailing cell and row.
abbrev pub flush : TsvParser → List (List Text)
flush s = s.rows ++ (s.row ++ s.cell ∷ []) ∷ []

unfoldable pub tsv_parse : Text → List (List Text)
unfolding scan
tsv_parse tsv = flush (scan tsv_round false start tsv)
