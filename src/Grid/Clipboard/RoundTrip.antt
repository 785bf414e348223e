-- ===== src/Grid/Clipboard/RoundTrip.antt =====
-- Parsing what was serialized gives back the grid.
use dat.Prelude.{
  ℕ, Bool, true, false, List, [], ◌∷◌, ◌++◌, Text, some, ◌==◌, if◌then◌else◌, any, map, join, ◌≡◌,
  ◌≢◌, refl, sym, ◌∙◌, ap, arith, head?, append-nil, append_assoc, Bool-cases, inl, inr, ==_iff,
}
use dat.Prelude.Scan.{scan}
use dat.Engine.Render.Literal.{double}
use dat.Grid.Clipboard.{
  TsvParser, is_special, quote_cell, serialize_row, tsv_serialize, tsv_parse, tsv_round, flush,
}

abbrev is_nil : Text → Bool
is_nil [] = true
is_nil (_ ∷ _) = false

if_same : (b : Bool) → (if b then false else false) ≡ false
if_same b = ground arith

if_eta : (b : Bool) → (if b then true else false) ≡ b
if_eta b = ground arith

special-ne-nil : (x : Text) → any is_special x ≡ true → is_nil x ≡ false
special-ne-nil [] h = cc
special-ne-nil (c ∷ x) h = refl

-- The two ends of a row that are in use.
pub data Ending : Type 0 where
  crlf lf : Ending

abbrev pub bytes : Ending → Text
bytes crlf = b'\r' ∷ b'\n' ∷ []
bytes lf = b'\n' ∷ []

abbrev init : Text → List Text → List Text
init x [] = []
init x (y ∷ ys) = x ∷ init y ys

abbrev last : Text → List Text → Text
last x [] = x
last x (y ∷ ys) = last y ys

init-last : (x : Text) (xs : List Text) → init x xs ++ last x xs ∷ [] ≡ x ∷ xs
init-last x [] = refl
init-last x (y ∷ ys) = ap (x ∷◌) (init-last y ys)

abbrev run : TsvParser → Text → TsvParser
run = scan tsv_round false

abbrev outside : List (List Text) → List Text → Text → Bool → TsvParser
outside rows row cell at_start = record {
  rows = rows;
  row = row;
  cell = cell;
  in_quotes = false;
  at_field_start = at_start;
}

abbrev inside : List (List Text) → List Text → Text → TsvParser
inside rows row cell = record {
  rows = rows;
  row = row;
  cell = cell;
  in_quotes = true;
  at_field_start = false;
}

module _ (rows : List (List Text)) (row : List Text) where
  run-plain-byte :
      (cell : Text) (b : Bool) (c : ℕ) (rest : Text)
      → is_special c ≡ false
      → run (outside rows row cell b) (c ∷ rest)
        ≡ run (outside rows row (cell ++ c ∷ []) false) rest
  unfolding scan tsv_round
  run-plain-byte cell b c rest h = ground arith

  run-plain :
      (x cell : Text) (b : Bool) (rest : Text)
      → any is_special x ≡ false
      → run (outside rows row cell b) (x ++ rest)
        ≡ run (outside rows row (cell ++ x) (if is_nil x then b else false)) rest
  run-plain [] cell b rest h = rw append-nil
  run-plain (c ∷ x) cell b rest h =
      run-plain-byte cell b c (x ++ rest) (ground arith)
      ∙ run-plain x (cell ++ c ∷ []) false rest (ground arith)
      ∙ simp (append_assoc, if_same)

  run-inside-byte :
      (cell : Text) (c : ℕ) (rest : Text)
      → (c == b'"') ≡ false
      → run (inside rows row cell) (c ∷ rest) ≡ run (inside rows row (cell ++ c ∷ [])) rest
  unfolding scan tsv_round
  run-inside-byte cell c rest h = ground arith

  run-inside-pair :
      (cell rest : Text)
      → run (inside rows row cell) (b'"' ∷ b'"' ∷ rest)
        ≡ run (inside rows row (cell ++ b'"' ∷ [])) rest
  unfolding scan tsv_round
  run-inside-pair cell rest = refl

  run-inside-end :
      (cell rest : Text)
      → head? rest ≢ some b'"'
      → run (inside rows row cell) (b'"' ∷ rest) ≡ run (outside rows row cell false) rest
  unfolding scan tsv_round
  run-inside-end cell [] h = refl
  run-inside-end cell (d ∷ rest) h = ground arith

  run-open-quote :
      (rest : Text) → run (outside rows row [] true) (b'"' ∷ rest) ≡ run (inside rows row []) rest
  unfolding scan tsv_round
  run-open-quote rest = refl

  run-quoted :
      (x cell rest : Text)
      → head? rest ≢ some b'"'
      → run (inside rows row cell) (double b'"' x ++ b'"' ∷ rest)
        ≡ run (outside rows row (cell ++ x) false) rest
  unfolding double
  run-quoted [] cell rest h = rw append-nil (run-inside-end cell rest h)
  run-quoted (c ∷ x) cell rest h = elim (Bool-cases (c == b'"')) [
    | inl same ↦
        let e : c ≡ b'"' = (==_iff c b'"').0 same in
        rw same (
          run-inside-pair cell (double b'"' x ++ b'"' ∷ rest)
          ∙ run-quoted x (cell ++ b'"' ∷ []) rest h
          ∙ rw (append_assoc, e))
    | inr other ↦ rw other (
        run-inside-byte cell c (double b'"' x ++ b'"' ∷ rest) other
        ∙ run-quoted x (cell ++ c ∷ []) rest h
        ∙ rw append_assoc)
  ]

  -- A serialized cell is read as the cell.
  run-quote_cell :
      (x rest : Text)
      → head? rest ≢ some b'"'
      → run (outside rows row [] true) (quote_cell x ++ rest)
        ≡ run (outside rows row x (is_nil x)) rest
  unfolding quote_cell
  run-quote_cell x rest h = elim (Bool-cases (any is_special x)) [
    | inl special ↦ rw special (
        rw append_assoc (
          run-open-quote (double b'"' x ++ b'"' ∷ rest)
          ∙ run-quoted x [] rest h
          ∙ rw (special-ne-nil x special)))
    | inr plain ↦ rw plain (run-plain x [] true rest plain ∙ rw (if_eta (is_nil x)))
  ]

module _ (rows : List (List Text)) where
  run-tab :
      (row : List Text) (cell : Text) (b : Bool) (rest : Text)
      → run (outside rows row cell b) (b'\t' ∷ rest)
        ≡ run (outside rows (row ++ cell ∷ []) [] true) rest
  unfolding scan tsv_round
  run-tab row cell b rest = ground arith

  run-ending :
      (e : Ending) (row : List Text) (cell : Text) (b : Bool) (rest : Text)
      → run (outside rows row cell b) (bytes e ++ rest)
        ≡ run (outside (rows ++ (row ++ cell ∷ []) ∷ []) [] [] true) rest
  unfolding scan tsv_round
  run-ending crlf row cell b rest = ground arith
  run-ending lf row cell b rest = ground arith

  -- A serialized row is read up to its last cell.
  run-row :
      (x : Text) (xs row : List Text) (rest : Text)
      → head? rest ≢ some b'"'
      → run (outside rows row [] true) (join (b'\t' ∷ []) (map quote_cell (x ∷ xs)) ++ rest)
        ≡ run (outside rows (row ++ init x xs) (last x xs) (is_nil (last x xs))) rest
  run-row x [] row rest h = rw append-nil (run-quote_cell rows row x rest h)
  run-row x (y ∷ ys) row rest h =
      ap (run (outside rows row [] true))
        (append_assoc (quote_cell x) (b'\t' ∷ join (b'\t' ∷ []) (map quote_cell (y ∷ ys))) rest)
      ∙ run-quote_cell rows row x (b'\t' ∷ (join (b'\t' ∷ []) (map quote_cell (y ∷ ys)) ++ rest))
          (λ e. cc)
      ∙ run-tab row x (is_nil x) (join (b'\t' ∷ []) (map quote_cell (y ∷ ys)) ++ rest)
      ∙ run-row y ys (row ++ x ∷ []) rest h
      ∙ rw append_assoc

-- Every row has a cell.
abbrev pub IsFull : List (List Text) → Type 0
IsFull [] = Unit
IsFull ([] ∷ rows) = ⊥
IsFull ((x ∷ xs) ∷ rows) = IsFull rows

-- The serialized rows joined by an ending; `tsv_serialize` is the one with `crlf`.
abbrev pub serialize_with : Ending → List (List Text) → Text
serialize_with e grid = join (bytes e) (map serialize_row grid)

head-bytes : (e : Ending) (rest : Text) → head? (bytes e ++ rest) ≢ some b'"'
head-bytes crlf rest h = cc
head-bytes lf rest h = cc

flush-run :
    (e : Ending) (row : List Text) (grid rows : List (List Text))
    → IsFull (row ∷ grid)
    → flush (run (outside rows [] [] true) (serialize_with e (row ∷ grid))) ≡ rows ++ row ∷ grid
unfolding serialize_row scan
flush-run e [] grid rows h = absurd h
flush-run e (x ∷ xs) [] rows h =
    ap (λ t. flush (run (outside rows [] [] true) t))
      (sym (append-nil (join (b'\t' ∷ []) (map quote_cell (x ∷ xs)))))
    ∙ ap flush (run-row rows x xs [] [] (λ e. cc))
    ∙ rw init-last
flush-run e (x ∷ xs) (row ∷ grid) rows h =
    ap flush (run-row rows x xs [] (bytes e ++ serialize_with e (row ∷ grid)) (head-bytes e _))
    ∙ ap flush (
        run-ending rows e (init x xs) (last x xs) (is_nil (last x xs))
          (serialize_with e (row ∷ grid)))
    ∙ flush-run e row grid (rows ++ (init x xs ++ last x xs ∷ []) ∷ []) h
    ∙ rw (init-last, append_assoc)

-- A grid of at least one row, in which every row has at least one cell, is parsed back from its
-- serialization, whatever bytes the cells hold: quotes, tabs and line ends too. So it is where the
-- rows end by a bare line feed in place of the carriage return and line feed of `tsv_serialize`.
pub tsv_parse-tsv_serialize :
    (grid : List (List Text))
    → grid ≢ []
    → IsFull grid
    → (tsv_parse (tsv_serialize grid) ≡ grid) × (tsv_parse (serialize_with lf grid) ≡ grid)
unfolding tsv_parse tsv_serialize
tsv_parse-tsv_serialize [] n h = absurd (n refl)
tsv_parse-tsv_serialize (row ∷ grid) n h =
    (flush-run crlf row grid [] h, flush-run lf row grid [] h)
