-- ===== src/Inspector/Lineage/Turned.antt =====
-- Ancestors and descendants: the walks the two ways through a graph that `build` makes.
use dat.Prelude.{
  ℕ, ◌+◌, Bool, true, false, Text, List, [], ◌∷◌, map, ◌≡◌, refl, sym, ◌∙◌, ap, inl, inr, arith,
  if◌then◌else◌, Bool-cases, some,
}
use mathlib.Core.Path.{subst}
use mathlib.Core.Bool.{true≢false}
use dat.Engine.Tables.{TableInfo}
use dat.Inspector.Lineage.{
  NodeKey, EdgeKind, Adjacency, ChartNode, LineageGraph, edges_of, same_key, has, build_graph, walk,
}
use dat.Inspector.Lineage.Keys.{distinct, same_key-swap, same_key→eq}
use dat.Prelude.Predicates.{All, In}
use dat.Inspector.Lineage.Chain.{Chain, here, along, Found, keys, step_of, IsFound}
use dat.Inspector.Lineage.Walk.{walk-Walked}
use dat.Inspector.Lineage.Mirror.{build_graph-Mirrored}

Bool-same : (a b : Bool) → (a ≡ true → b ≡ true) → (b ≡ true → a ≡ true) → a ≡ b
Bool-same true b h k = sym (h refl)
Bool-same false true h k = k refl
Bool-same false false h k = refl

-- A chain can be lengthened at its start.
Chain-longer :
    (adj : Adjacency) (a b c : NodeKey) (e : EdgeKind) (d : ℕ)
    → In (b, e) (edges_of adj a)
    → Chain adj b c d
    → Chain adj a c (d + 1)
Chain-longer adj a b _ e _ i here = along e here i
Chain-longer adj a b _ e _ i (along {n} {m} {d} f c j) = along f (Chain-longer adj a b n e d i c) j

-- Where the edges of one are those of the other, turned round, so are the chains.
Chain-turned :
    (adj rev : Adjacency)
    → ((a b : NodeKey) (e : EdgeKind) → In (b, e) (edges_of adj a) → In (a, e) (edges_of rev b))
    → (a b : NodeKey) (d : ℕ) → Chain adj a b d
    → Chain rev b a d
Chain-turned adj rev k a _ _ here = here
Chain-turned adj rev k a _ _ (along {n} {m} {d} e c i) =
    Chain-longer rev m n a e d (k n m e i) (Chain-turned adj rev k a n d c)

found-Chain :
    (adj : Adjacency) (start n : NodeKey) (fs : List Found)
    → All (IsFound adj start) fs
    → has n (keys fs) ≡ true
    → (d : ℕ) × Chain adj start n d
found-Chain adj start n [] k h = absurd (true≢false (sym h))
found-Chain adj start n (f ∷ fs) ((m, d, q, c, i), k) h = elim (Bool-cases (same_key n f.key)) [
  | inl e ↦ (
    d + 1,
    subst (λ t. Chain adj start t (d + 1)) (sym (same_key→eq n f.key e)) (along f.edge c i),
  )
  | inr g ↦ found-Chain adj start n fs k (ground (arith, h, g))
]

-- Of two different nodes, what one walk finds the walk the other way round finds from its end.
walk-turned :
    (adj rev : Adjacency) (x y : NodeKey) (down up : List Found)
    → ((a b : NodeKey) (e : EdgeKind) → In (b, e) (edges_of adj a) → In (a, e) (edges_of rev b))
    → same_key x y ≡ false
    → All (IsFound adj x) down
    → ((n : NodeKey) (d : ℕ) → Chain rev y n d → has n (y ∷ keys up) ≡ true)
    → has y (keys down) ≡ true
    → has x (keys up) ≡ true
walk-turned adj rev x y down up k n f c h =
    let (d, ch) = found-Chain adj x y down f h in
    let r = c x d (Chain-turned adj rev k x y d ch) in
    sym (ap (λ t. if t then true else has x (keys up)) n) ∙ r

-- The found nodes behind the steps of a walk: all that a chain of edges leads to from the start, each
-- once and without the start, and no others.
abbrev pub Finds : LineageGraph → Adjacency → NodeKey → List Found → Type 0
Finds g adj start found =
    (walk g.kind start adj ≡ some (map (step_of g.kind) found))
    × (distinct (start ∷ keys found) ≡ true)
    × All (IsFound adj start) found
    × ((n : NodeKey) (d : ℕ) → Chain adj start n d → has n (start ∷ keys found) ≡ true)

-- For two different nodes of a graph that `build` makes, the walk along the children from the first
-- and the walk along the parents from the second both return, with the steps of exactly the nodes
-- that a chain of such edges leads to, each node once; and the second node is one of the first's
-- descendants exactly when the first is one of the second's ancestors.
pub build_graph-turned :
    (tables : List TableInfo) (sql_parents : Text → List Text) (charts : List ChartNode)
    (x y : NodeKey)
    → same_key x y ≡ false
    → let g = build_graph tables sql_parents charts in
      (down : List Found) × (up : List Found) × Finds g g.children x down
      × Finds g g.parents y up
      × (has y (keys down) ≡ has x (keys up))
build_graph-turned tables sql_parents charts x y n =
    let g = build_graph tables sql_parents charts in
    let k = build_graph-Mirrored tables sql_parents charts in
    let (down, e, u, f, c) = walk-Walked g.children x g.kind in
    let (up, e', u', f', c') = walk-Walked g.parents y g.kind in
    let n' = same_key-swap x y n in
    (
      down,
      up,
      (e, u, f, c),
      (e', u', f', c'),
      Bool-same (has y (keys down)) (has x (keys up))
          (walk-turned g.children g.parents x y down up (λ a. λ b. λ i. (k a b i).0) n f c')
          (walk-turned g.parents g.children y x up down (λ a. λ b. λ i. (k b a i).1) n' f' c),
    )
