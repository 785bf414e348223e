-- ===== src/Inspector/Lineage/Chain.antt =====
-- Chains of edges in the lineage graph, and the nodes that a walk finds on them.
use dat.Prelude.{ℕ, List, [], ◌∷◌, ◌++◌, map, ◌≡◌, ◌+◌, if◌then◌else◌}
use dat.Inspector.Lineage.{
  NodeKey, NodeKind, EdgeKind, Edge, Adjacency, edges_of, has, ChainStep, chain_step,
}
use dat.Prelude.Predicates.{In}

-- A chain of so many edges from one node to another.
pub data Chain (adj : Adjacency) (start : NodeKey) : NodeKey → ℕ → Type 0 where
  here : Chain adj start start 0
  along :
      {n m : NodeKey} {d : ℕ} (e : EdgeKind)
      → Chain adj start n d
      → In (m, e) (edges_of adj n)
      → Chain adj start m (d + 1)

-- A node, the edge by which it was found, and the depth.
pub record Found : Type 0 where
  pub key : NodeKey
  pub edge : EdgeKind
  pub depth : ℕ

abbrev pub keys : List Found → List NodeKey
keys l = map (λ f. f.key) l

abbrev pub step_of : List (NodeKey × NodeKind) → Found → ChainStep
step_of kinds f = chain_step kinds f.key f.edge f.depth

-- A chain of as many edges as the depth leads to the node, by the edge.
abbrev pub IsFound : Adjacency → NodeKey → Found → Type 0
IsFound adj start f =
    (n : NodeKey) × (d : ℕ) × (f.depth ≡ d + 1)
    × Chain adj start n d
    × In (f.key, f.edge) (edges_of adj n)

-- What a round finds at the end of edges: the nodes that were not visited.
abbrev pub fresh : ℕ → List Edge → List NodeKey → List Found
fresh depth [] visited = []
fresh depth ((next, edge) ∷ l) visited =
    let skipped = fresh depth l visited in
    let more = fresh depth l (visited ++ next ∷ []) in
    if has next visited
    then skipped
    else record { key = next; edge = edge; depth = depth + 1 } ∷ more
