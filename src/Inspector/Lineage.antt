-- ===== src/Inspector/Lineage.antt =====
-- The lineage graph of the inspector (crates/dat0-core/src/inspector/lineage.rs). A `HashMap` is the
-- list of its entries, a `HashSet` the list of its elements.
pub mod Keys
pub mod Chain
pub mod Visit
pub mod Walk
pub mod Closure
pub mod Pushed
pub mod Mirror
pub mod Turned
mod Examples
use dat.Prelude.{
  ℕ, zero, suc, ◌+◌, ◌==◌, ◌||◌, Bool, true, false, Text, text_eq, if◌then◌else◌, Option, none,
  some, List, [], ◌∷◌, ◌++◌, any, length, map, ltb,
}
use dat.Prelude.Sorting.{text_leb, sort_by}
use dat.Engine.Tables.{
  TableInfo, TableOrigin, DerivedOrigin, file, derived, attached, sql, transform,
}

pub data NodeKey : Type 0 where
  table file_node external chart_node : Text → NodeKey

pub data NodeKind : Type 0 where
  table_kind file_kind external_kind chart_kind : NodeKind

pub data EdgeKind : Type 0 where
  file_import sql_ref chart_edge : EdgeKind
  transform_edge : ℕ → EdgeKind

pub record ChartNode : Type 0 where
  pub name : Text
  pub source_table : Text

pub record ChainStep : Type 0 where
  pub label : Text
  pub kind : NodeKind
  pub edge : EdgeKind
  pub depth : ℕ
  pub open_name : Option Text

pub record LineageChain : Type 0 where
  pub ancestors : List ChainStep
  pub descendants : List ChainStep

abbrev pub Edge : Type 0
Edge = NodeKey × EdgeKind

abbrev pub Adjacency : Type 0
Adjacency = List (NodeKey × List Edge)

pub record LineageGraph : Type 0 where
  pub parents : Adjacency
  pub children : Adjacency
  pub kind : List (NodeKey × NodeKind)

unfoldable pub same_key : NodeKey → NodeKey → Bool
same_key (table a) (table b) = text_eq a b
same_key (file_node a) (file_node b) = text_eq a b
same_key (external a) (external b) = text_eq a b
same_key (chart_node a) (chart_node b) = text_eq a b
same_key _ _ = false

-- `map.entry(key).or_default().push(edge)`
abbrev pub push_edge : NodeKey → Edge → Adjacency → Adjacency
push_edge key e [] = (key, e ∷ []) ∷ []
push_edge key e ((k, l) ∷ m) =
    let rest = push_edge key e m in if same_key key k then (k, l ++ e ∷ []) ∷ m else (k, l) ∷ rest

-- `map.get(key).into_iter().flatten()`
abbrev pub edges_of : Adjacency → NodeKey → List Edge
edges_of [] key = []
edges_of ((k, l) ∷ m) key = if same_key key k then l else edges_of m key

-- `map.insert(key, kind)`
abbrev pub insert_kind : NodeKey → NodeKind → List (NodeKey × NodeKind) → List (NodeKey × NodeKind)
insert_kind key v [] = (key, v) ∷ []
insert_kind key v ((k, u) ∷ m) =
    let rest = insert_kind key v m in if same_key key k then (k, v) ∷ m else (k, u) ∷ rest

-- `map.get(key).copied()`
abbrev pub kind_of_key : List (NodeKey × NodeKind) → NodeKey → Option NodeKind
kind_of_key [] key = none
kind_of_key ((k, u) ∷ m) key = if same_key key k then some u else kind_of_key m key

-- `map.entry(key).or_insert(kind)`
abbrev pub or_insert_kind :
    NodeKey → NodeKind → List (NodeKey × NodeKind) → List (NodeKey × NodeKind)
or_insert_kind key v m = inserted (kind_of_key m key)
  where
    inserted : Option NodeKind → List (NodeKey × NodeKind)
    inserted none = insert_kind key v m
    inserted (some _) = m

unfoldable pub add_edge : LineageGraph → NodeKey → NodeKey → EdgeKind → LineageGraph
add_edge g src dst edge = record g {
  children = push_edge src (dst, edge) g.children;
  parents = push_edge dst (src, edge) g.parents;
}

abbrev pub with_kind : LineageGraph → NodeKey → NodeKind → LineageGraph
with_kind g key v = record g { kind = insert_kind key v g.kind }

abbrev pub is_known : List TableInfo → Text → Bool
is_known tables name = any (λ t. text_eq name t.name) tables

-- The edges of one `Sql` table, from the parents that the engine found for it.
unfoldable pub sql_edges : List TableInfo → NodeKey → List Text → LineageGraph → LineageGraph
unfolding add_edge
sql_edges tables node [] g = g
sql_edges tables node (p ∷ ps) g =
    sql_edges tables node ps (if is_known tables p then add_edge g (table p) node sql_ref else g)

-- `sql_parents` gives the empty list for a table that it does not hold.
unfoldable pub table_edges :
    List TableInfo → (Text → List Text) → NodeKey → Text → TableOrigin → LineageGraph → LineageGraph
unfolding add_edge sql_edges
table_edges tables sql_parents node name (file path) g =
    add_edge (with_kind g (file_node path) file_kind) (file_node path) node file_import
table_edges tables sql_parents node name (derived (transform parent ops)) g =
    if is_known tables parent
    then add_edge g (table parent) node (transform_edge (length ops))
    else g
table_edges tables sql_parents node name (derived (sql _)) g =
    sql_edges tables node (sql_parents name) g
table_edges tables sql_parents node name (attached _ _) g = with_kind g node external_kind

unfoldable pub add_tables :
    List TableInfo → (Text → List Text) → List TableInfo → LineageGraph → LineageGraph
unfolding table_edges
add_tables tables sql_parents [] g = g
add_tables tables sql_parents (t ∷ ts) g = add_tables tables sql_parents ts (
    table_edges tables sql_parents (table t.name) t.name t.origin
      (record g { kind = or_insert_kind (table t.name) table_kind g.kind }))

unfoldable pub add_charts : List TableInfo → List ChartNode → LineageGraph → LineageGraph
unfolding add_edge
add_charts tables [] g = g
add_charts tables (c ∷ cs) g = add_charts tables cs (
    if is_known tables c.source_table
    then (add_edge (with_kind g (chart_node c.name) chart_kind) (table c.source_table)
        (chart_node c.name) chart_edge)
    else g)

abbrev pub empty_graph : LineageGraph
empty_graph = record { parents = []; children = []; kind = [] }

unfoldable pub build_graph : List TableInfo → (Text → List Text) → List ChartNode → LineageGraph
unfolding add_tables add_charts
build_graph tables sql_parents charts =
    add_charts tables charts (add_tables tables sql_parents tables empty_graph)

abbrev pub is_separator : ℕ → Bool
is_separator c = c == b'/' || c == b'\\'

-- `p.rsplit(['/', '\\']).next()`
abbrev pub base_name : Text → Text
base_name [] = []
base_name (c ∷ p) =
    let rest = base_name p in
    if is_separator c then rest else if any is_separator p then rest else c ∷ rest

abbrev pub label_for : NodeKey → Text
label_for (table n) = n
label_for (external n) = n
label_for (chart_node n) = n
label_for (file_node p) = base_name p

abbrev pub open_name_for : NodeKey → Option Text
open_name_for (table n) = some n
open_name_for (external n) = some n
open_name_for (chart_node n) = some n
open_name_for (file_node _) = none

abbrev pub kind_or_table : Option NodeKind → NodeKind
kind_or_table none = table_kind
kind_or_table (some k) = k

abbrev pub has : NodeKey → List NodeKey → Bool
has key l = any (same_key key) l

pub record WalkState : Type 0 where
  pub out : List ChainStep
  pub visited : List NodeKey
  -- The end of the `Vec` first.
  pub frontier : List (NodeKey × ℕ)

abbrev pub chain_step : List (NodeKey × NodeKind) → NodeKey → EdgeKind → ℕ → ChainStep
chain_step kinds next edge depth = record {
  label = label_for next;
  kind = kind_or_table (kind_of_key kinds next);
  edge = edge;
  depth = depth;
  open_name = open_name_for next;
}

abbrev pub reach_next : List (NodeKey × NodeKind) → ℕ → NodeKey → EdgeKind → WalkState → WalkState
reach_next kinds depth next edge s = record {
  out = s.out ++ chain_step kinds next edge (depth + 1) ∷ [];
  visited = s.visited ++ next ∷ [];
  frontier = (next, depth + 1) ∷ s.frontier;
}

unfoldable pub visit_edges : List (NodeKey × NodeKind) → ℕ → List Edge → WalkState → WalkState
visit_edges kinds depth [] s = s
visit_edges kinds depth ((next, edge) ∷ l) s =
    visit_edges kinds depth l (if has next s.visited then s else reach_next kinds depth next edge s)

abbrev pub walk_round :
    (WalkState → Option (List ChainStep))
    → List (NodeKey × NodeKind)
    → Adjacency
    → List ChainStep
    → List NodeKey
    → List (NodeKey × ℕ)
    → Option (List ChainStep)
unfolding visit_edges
walk_round more kinds adj out visited [] = some out
walk_round more kinds adj out visited ((node, depth) ∷ rest) = more (
    visit_edges kinds depth (edges_of adj node)
      (record { out = out; visited = visited; frontier = rest }))

-- `while let Some((node, depth)) = frontier.pop()`, on fuel.
unfoldable pub walk_loop :
    ℕ → List (NodeKey × NodeKind) → Adjacency → WalkState → Option (List ChainStep)
unfolding visit_edges
walk_loop zero kinds adj s = none
walk_loop (suc fuel) kinds adj s =
    walk_round (walk_loop fuel kinds adj) kinds adj s.out s.visited s.frontier

abbrev pub targets : Adjacency → List NodeKey
targets [] = []
targets ((_, l) ∷ m) = map (λ e. e.0) l ++ targets m

unfoldable pub walk : List (NodeKey × NodeKind) → NodeKey → Adjacency → Option (List ChainStep)
unfolding walk_loop
walk kinds start adj =
    walk_loop (suc (suc (length (targets adj)))) kinds adj
      (record { out = []; visited = start ∷ []; frontier = (start, 0) ∷ [] })

-- `b.depth.cmp(&a.depth).then(a.label.cmp(&b.label))`
abbrev pub deepest_first : ChainStep → ChainStep → Bool
deepest_first a b = if a.depth == b.depth then text_leb a.label b.label else ltb b.depth a.depth

-- `a.depth.cmp(&b.depth).then(a.label.cmp(&b.label))`
abbrev pub nearest_first : ChainStep → ChainStep → Bool
nearest_first a b = if a.depth == b.depth then text_leb a.label b.label else ltb a.depth b.depth

abbrev pub chain_of : Option (List ChainStep) → Option (List ChainStep) → Option LineageChain
chain_of (some up) (some down) =
    some (record { ancestors = sort_by deepest_first up; descendants = sort_by nearest_first down })
chain_of _ _ = none

unfoldable pub closure : LineageGraph → Text → Option LineageChain
unfolding walk
closure g target =
    chain_of (walk g.kind (table target) g.parents) (walk g.kind (table target) g.children)
