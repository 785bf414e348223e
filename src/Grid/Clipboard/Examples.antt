-- ===== src/Grid/Clipboard/Examples.antt =====
-- Tests and instances for the clipboard codec.
use dat.Prelude.{List, [], ◌∷◌, Text, codes, ◌≡◌, refl}
use dat.Engine.Render.Literal.{double}
use dat.Grid.Clipboard.{quote_cell, serialize_row, tsv_serialize, tsv_parse, tsv_round}
use dat.Grid.Clipboard.RoundTrip.{lf, serialize_with, tsv_parse-tsv_serialize}

abbrev grid : List (List Text)
grid = (codes "a\tb" ∷ [] ∷ []) ∷ (codes "say \"x\"\r\n" ∷ []) ∷ ([] ∷ codes "z" ∷ []) ∷ []

tsv_parse-tsv_serialize_example :
    (tsv_parse (tsv_serialize grid) ≡ grid) × (tsv_parse (serialize_with lf grid) ≡ grid)
tsv_parse-tsv_serialize_example = tsv_parse-tsv_serialize grid (λ e. cc) tt

serialized :
    tsv_serialize ((codes "a" ∷ codes "b\"c" ∷ []) ∷ (codes "d" ∷ []) ∷ [])
    ≡ codes "a\t\"b\"\"c\"\r\nd"
unfolding tsv_serialize serialize_row quote_cell double
serialized = refl

-- Not even an empty text gives an empty grid.
parse_empty : tsv_parse [] ≡ ([] ∷ []) ∷ []
unfolding tsv_parse
parse_empty = refl

parse_mixed :
    tsv_parse (codes "a\tb\r\"c\"\n")
    ≡ (codes "a" ∷ codes "b" ∷ []) ∷ (codes "c" ∷ []) ∷ ([] ∷ []) ∷ []
unfolding tsv_parse tsv_round
parse_mixed = refl
