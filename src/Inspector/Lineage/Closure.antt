-- ===== src/Inspector/Lineage/Closure.antt =====
-- The chain that the inspector shows.
use dat.Prelude.{ℕ, Bool, true, false, Text, List, ◌∷◌, map, some, ◌≡◌, ap₂, arith}
use dat.Prelude.Predicates.{All}
use dat.Prelude.Sorting.{
  count_by, count-sort_by, is_sorted, sort_by-is_sorted, sort_by, text_leb-total,
}
use dat.Inspector.Lineage.{
  NodeKey, table, NodeKind, Adjacency, LineageGraph, LineageChain, ChainStep, has, chain_of,
  closure, deepest_first, nearest_first,
}
use dat.Inspector.Lineage.Keys.{distinct}
use dat.Inspector.Lineage.Chain.{Chain, Found, keys, step_of, IsFound}
use dat.Inspector.Lineage.Walk.{walk-Walked}

-- The steps of the nodes other than the start that a chain of edges leads to, each node once, at a
-- depth of one such chain, sorted.
abbrev pub Shows :
    List (NodeKey × NodeKind)
    → Adjacency
    → NodeKey
    → (ChainStep → ChainStep → Bool)
    → List ChainStep
    → Type 0
Shows kinds adj start le steps =
    (found : List Found) × ((p : ChainStep → Bool)
      → count_by p steps ≡ count_by p (map (step_of kinds) found))
    × (is_sorted le steps ≡ true)
    × (distinct (start ∷ keys found) ≡ true)
    × All (IsFound adj start) found
    × ((n : NodeKey) (d : ℕ) → Chain adj start n d → has n (start ∷ keys found) ≡ true)

deepest_first-total : (a b : ChainStep) → deepest_first a b ≡ false → deepest_first b a ≡ true
deepest_first-total a b h = ground (arith, h, text_leb-total a.label b.label)

nearest_first-total : (a b : ChainStep) → nearest_first a b ≡ false → nearest_first b a ≡ true
nearest_first-total a b h = ground (arith, h, text_leb-total a.label b.label)

-- For every graph and every target, the closure returns. Its ancestors are the nodes that the
-- parents' edges lead to in some steps, each node once and without the target, at the depth of one
-- of the chains to it, the deepest first and by label at the same depth; its descendants are those
-- that the children's edges lead to, the nearest first.
pub closure-Shows :
    (g : LineageGraph) (target : Text)
    → (chain : LineageChain) × (closure g target ≡ some chain)
      × Shows g.kind g.parents (table target) deepest_first chain.ancestors
      × Shows g.kind g.children (table target) nearest_first chain.descendants
unfolding closure
closure-Shows g target =
    let (up, e, d, f, c) = walk-Walked g.parents (table target) g.kind in
    let (down, e', d', f', c') = walk-Walked g.children (table target) g.kind in
    let ups = map (step_of g.kind) up in
    let downs = map (step_of g.kind) down in
    (
      record { ancestors = sort_by deepest_first ups; descendants = sort_by nearest_first downs },
      ap₂ chain_of e e',
      (
        up,
        λ p. count-sort_by deepest_first p ups,
        sort_by-is_sorted deepest_first deepest_first-total ups,
        d,
        f,
        c,
      ),
      (
        down,
        λ p. count-sort_by nearest_first p downs,
        sort_by-is_sorted nearest_first nearest_first-total downs,
        d',
        f',
        c',
      ),
    )
