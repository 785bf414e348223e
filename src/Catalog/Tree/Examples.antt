-- ===== src/Catalog/Tree/Examples.antt =====
-- Runs of the catalog's groups and its filter, on ASCII texts.
use dat.Prelude.{
  Bool, true, ◌&&◌, ◌==◌, leb, ◌+◌, Text, codes, text_eq, List, [], ◌∷◌, map, none, some, ◌≡◌, refl,
  if◌then◌else◌,
}
use dat.Prelude.Sorting.{count_by}
use dat.Engine.Tables.{TableInfo, TableOrigin, file, derived, attached, sql}
use dat.Catalog.Tree.{
  build_tree, filter_tree, filter_by, keep, group_tables, group_table, matches_all,
}
use dat.Catalog.Tree.Shown.{Row, shown, place}
use dat.Catalog.Tree.Filtered.{row_matches, filter_tree-build_tree}

abbrev lower : Text → Text
lower s = map (λ c. if leb b'A' c && leb c b'Z' then c + 32 else c) s

abbrev with_word : Text → List Text → List Text
with_word [] ws = ws
with_word (c ∷ w) ws = (c ∷ w) ∷ ws

abbrev words_from : Text → Text × List Text
words_from [] = ([], [])
words_from (c ∷ s) =
    let (w, ws) = words_from s in if c == 32 then ([], with_word w ws) else (c ∷ w, ws)

abbrev words : Text → List Text
words s = let (w, ws) = words_from s in with_word w ws

abbrev listed : Text → TableOrigin → TableInfo
listed name origin = record { name = name; schema = codes "main"; origin = origin }

abbrev tables : List TableInfo
tables =
    listed (codes "md_orders") (attached (codes "Db") (codes "md:"))
    ∷ listed (codes "sales") (file (codes "/s.csv"))
    ∷ listed (codes "md_events") (attached (codes "Db") (codes "md:"))
    ∷ listed (codes "daily orders") (derived (sql []))
    ∷ []

-- The leaf of a file, and a connection with its tables sorted.
built :
    shown (build_tree tables)
    ≡ (none, codes "daily orders")
      ∷ (none, codes "sales")
      ∷ (some (codes "Db"), codes "md_events")
      ∷ (some (codes "Db"), codes "md_orders")
      ∷ []
unfolding build_tree group_tables group_table text_eq
built = refl

-- A child that matches stays without the others, and an alias that matches keeps all of its tables.
by_child :
    shown (filter_tree lower words (build_tree tables) (codes "ORD"))
    ≡ (none, codes "daily orders") ∷ (some (codes "Db"), codes "md_orders") ∷ []
unfolding build_tree group_tables group_table text_eq filter_tree filter_by keep
by_child = refl

by_alias :
    shown (filter_tree lower words (build_tree tables) (codes "db"))
    ≡ (some (codes "Db"), codes "md_events") ∷ (some (codes "Db"), codes "md_orders") ∷ []
unfolding build_tree group_tables group_table text_eq filter_tree filter_by keep
by_alias = refl

-- All the tokens are to be in the name.
by_tokens :
    shown (filter_tree lower words (build_tree tables) (codes " ord  dai"))
    ≡ (none, codes "daily orders") ∷ []
unfolding build_tree group_tables group_table text_eq filter_tree filter_by keep
by_tokens = refl

abbrev any_row : Row → Bool
any_row r = true

filter_tree-build_tree_example :
    count_by any_row (shown (filter_tree lower words (build_tree tables) (codes "ord")))
    ≡ count_by
        (λ r.
          any_row r && row_matches (matches_all lower words (map lower (words (codes "ord")))) r)
        (map place tables)
filter_tree-build_tree_example = filter_tree-build_tree lower words tables (codes "ord") any_row
