-- ===== src/Inspector/Lineage/Examples.antt =====
-- Runs of the lineage graph.
use dat.Prelude.{
  ℕ, Text, codes, text_eq, List, [], ◌∷◌, map, Option, none, some, ◌≡◌, refl, if◌then◌else◌,
}
use dat.Engine.Tables.{TableInfo, TableOrigin, file, derived, sql, transform}
use dat.Inspector.Lineage.{
  table, LineageGraph, LineageChain, has, walk, walk_loop, visit_edges, same_key, closure,
  build_graph, add_tables, add_charts, add_edge, table_edges, sql_edges, deepest_first,
  nearest_first,
}
use dat.Inspector.Lineage.Chain.{Found, keys}
use dat.Inspector.Lineage.Closure.{Shows, closure-Shows}
use dat.Inspector.Lineage.Turned.{Finds, build_graph-turned}

abbrev listed : Text → TableOrigin → TableInfo
listed name origin = record { name = name; schema = codes "main"; origin = origin }

abbrev tables : List TableInfo
tables =
    listed (codes "t") (file (codes "/data/t.csv"))
    ∷ listed (codes "a") (derived (transform (codes "t") []))
    ∷ listed (codes "b") (derived (transform (codes "t") []))
    ∷ listed (codes "c") (derived (transform (codes "b") []))
    ∷ listed (codes "d") (derived (sql []))
    ∷ []

abbrev sql_parents : Text → List Text
sql_parents name = if text_eq name (codes "d") then codes "a" ∷ codes "c" ∷ [] else []

abbrev graph : LineageGraph
graph = build_graph tables sql_parents []

abbrev shown : Text → ℕ → Text × ℕ
shown label depth = (label, depth)

abbrev labels : Option LineageChain → Option (List (Text × ℕ))
labels none = none
labels (some c) = some (map (λ s. (s.label, s.depth)) c.descendants)

-- The edges from `t` to `a` and from `a` to `d` make a chain of two, but the walk, which takes the
-- node found last first, comes to `d` by `b` and `c`.
depth_not_distance :
    labels (closure graph (codes "t"))
    ≡ some ((codes "a", 1) ∷ (codes "b", 1) ∷ (codes "c", 2) ∷ (codes "d", 3) ∷ [])
unfolding closure walk walk_loop visit_edges same_key text_eq build_graph add_tables add_charts
    add_edge table_edges sql_edges
depth_not_distance = refl

abbrev ancestor_labels : Option LineageChain → Option (List (Text × Option Text))
ancestor_labels none = none
ancestor_labels (some c) = some (map (λ s. (s.label, s.open_name)) c.ancestors)

ancestors_of_a :
    ancestor_labels (closure graph (codes "a"))
    ≡ some ((codes "t.csv", none) ∷ (codes "t", some (codes "t")) ∷ [])
unfolding closure walk walk_loop visit_edges same_key text_eq build_graph add_tables add_charts
    add_edge table_edges sql_edges
ancestors_of_a = refl

closure-Shows_example :
    (chain : LineageChain) × (closure graph (codes "t") ≡ some chain)
    × Shows graph.kind graph.parents (table (codes "t")) deepest_first chain.ancestors
    × Shows graph.kind graph.children (table (codes "t")) nearest_first chain.descendants
closure-Shows_example = closure-Shows graph (codes "t")

build_graph-turned_example :
    (down : List Found) × (up : List Found) × Finds graph graph.children (table (codes "t")) down
    × Finds graph graph.parents (table (codes "d")) up
    × (has (table (codes "d")) (keys down) ≡ has (table (codes "t")) (keys up))
unfolding same_key text_eq
build_graph-turned_example =
    build_graph-turned tables sql_parents [] (table (codes "t")) (table (codes "d")) refl
