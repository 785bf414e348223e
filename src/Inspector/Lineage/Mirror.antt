-- ===== src/Inspector/Lineage/Mirror.antt =====
-- The parents and the children of a graph that `build` makes are the same edges, seen from their two
-- ends.
use dat.Prelude.{Bool, true, false, Text, List, [], ◌∷◌, sym, inl, inr, if◌then◌else◌, length}
use mathlib.Core.Path.{subst}
use dat.Engine.Tables.{TableInfo, TableOrigin, file, derived, attached, sql, transform}
use dat.Inspector.Lineage.{
  NodeKey, table, EdgeKind, LineageGraph, ChartNode, edges_of, push_edge, is_known, add_edge,
  sql_edges, table_edges, add_tables, add_charts, build_graph, empty_graph, file_node, chart_node,
  with_kind, file_kind, chart_kind, or_insert_kind, table_kind, sql_ref, file_import,
  transform_edge, chart_edge,
}
use dat.Prelude.Predicates.{In}
use dat.Inspector.Lineage.Pushed.{Split, push_edge-last, push_edge-left, push_edge-Split}

-- Each edge stands at both of its ends, or at neither.
abbrev pub Mirrored : LineageGraph → Type 0
Mirrored g =
    (a b : NodeKey) (e : EdgeKind)
    → (In (b, e) (edges_of g.children a) → In (a, e) (edges_of g.parents b))
      × (In (a, e) (edges_of g.parents b) → In (b, e) (edges_of g.children a))

add_edge-Mirrored :
    (g : LineageGraph) (src dst : NodeKey) (edge : EdgeKind)
    → Mirrored g
    → Mirrored (add_edge g src dst edge)
unfolding add_edge
add_edge-Mirrored g src dst edge k a b e = (
  λ i. down (push_edge-Split src a (dst, edge) (b, e) g.children i),
  λ i. up (push_edge-Split dst b (src, edge) (a, e) g.parents i),
)
  where
    down :
        Split src a (dst, edge) (b, e) g.children
        → In (a, e) (edges_of (push_edge dst (src, edge) g.parents) b)
    down (inl i) = push_edge-left dst b (src, edge) (a, e) g.parents ((k a b e).0 i)
    down (inr (p, q)) =
        let m = push_edge dst (src, edge) g.parents in
        subst (λ z. In (a, z.1) (edges_of m z.0)) (sym q)
          (subst (λ t. In (t, edge) (edges_of m dst)) (sym p)
            (push_edge-last dst (src, edge) g.parents))

    up :
        Split dst b (src, edge) (a, e) g.parents
        → In (b, e) (edges_of (push_edge src (dst, edge) g.children) a)
    up (inl i) = push_edge-left src a (dst, edge) (b, e) g.children ((k a b e).1 i)
    up (inr (p, q)) =
        let m = push_edge src (dst, edge) g.children in
        subst (λ z. In (b, z.1) (edges_of m z.0)) (sym q)
          (subst (λ t. In (t, edge) (edges_of m src)) (sym p)
            (push_edge-last src (dst, edge) g.children))

-- A guarded edge.
guarded-Mirrored :
    (b : Bool) (g h : LineageGraph) → Mirrored g → Mirrored h → Mirrored (if b then g else h)
guarded-Mirrored true g h k l = k
guarded-Mirrored false g h k l = l

sql_edges-Mirrored :
    (tables : List TableInfo) (node : NodeKey) (ps : List Text) (g : LineageGraph)
    → Mirrored g
    → Mirrored (sql_edges tables node ps g)
unfolding sql_edges
sql_edges-Mirrored tables node [] g k = k
sql_edges-Mirrored tables node (p ∷ ps) g k =
    sql_edges-Mirrored tables node ps _
      (guarded-Mirrored (is_known tables p) _ g (add_edge-Mirrored g (table p) node sql_ref k) k)

table_edges-Mirrored :
    (tables : List TableInfo) (sql_parents : Text → List Text) (node : NodeKey) (name : Text)
    (origin : TableOrigin) (g : LineageGraph)
    → Mirrored g
    → Mirrored (table_edges tables sql_parents node name origin g)
unfolding table_edges
table_edges-Mirrored tables sql_parents node name (file path) g k =
    add_edge-Mirrored (with_kind g (file_node path) file_kind) (file_node path) node file_import k
table_edges-Mirrored tables sql_parents node name (derived (transform parent ops)) g k =
    guarded-Mirrored (is_known tables parent) _ g
      (add_edge-Mirrored g (table parent) node (transform_edge (length ops)) k) k
table_edges-Mirrored tables sql_parents node name (derived (sql _)) g k =
    sql_edges-Mirrored tables node (sql_parents name) g k
table_edges-Mirrored tables sql_parents node name (attached _ _) g k = k

add_tables-Mirrored :
    (tables : List TableInfo) (sql_parents : Text → List Text) (ts : List TableInfo)
    (g : LineageGraph)
    → Mirrored g
    → Mirrored (add_tables tables sql_parents ts g)
unfolding add_tables
add_tables-Mirrored tables sql_parents [] g k = k
add_tables-Mirrored tables sql_parents (t ∷ ts) g k = add_tables-Mirrored tables sql_parents ts _ (
    table_edges-Mirrored tables sql_parents (table t.name) t.name t.origin
      (record g { kind = or_insert_kind (table t.name) table_kind g.kind }) k)

add_charts-Mirrored :
    (tables : List TableInfo) (cs : List ChartNode) (g : LineageGraph)
    → Mirrored g
    → Mirrored (add_charts tables cs g)
unfolding add_charts
add_charts-Mirrored tables [] g k = k
add_charts-Mirrored tables (c ∷ cs) g k = add_charts-Mirrored tables cs _ (
    guarded-Mirrored (is_known tables c.source_table) _ g
      (add_edge-Mirrored (with_kind g (chart_node c.name) chart_kind) (table c.source_table)
        (chart_node c.name) chart_edge k)
      k)

pub build_graph-Mirrored :
    (tables : List TableInfo) (sql_parents : Text → List Text) (charts : List ChartNode)
    → Mirrored (build_graph tables sql_parents charts)
unfolding build_graph
build_graph-Mirrored tables sql_parents charts = add_charts-Mirrored tables charts _ (
    add_tables-Mirrored tables sql_parents tables empty_graph
      (λ a. λ b. λ e. (λ i. absurd i, λ i. absurd i)))
