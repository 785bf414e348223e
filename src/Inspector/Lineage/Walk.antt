-- ===== src/Inspector/Lineage/Walk.antt =====
-- What the walk finds: the nodes that a chain of edges leads to, each once.
use dat.Prelude.{
  ℕ, zero, suc, ◌+◌, ◌≤◌, ◌<◌, true, false, List, [], ◌∷◌, ◌++◌, map, map-append, length, ◌≡◌, refl,
  sym, ◌∙◌, ap, inl, inr, arith, if◌then◌else◌, Bool-cases, ◌⊎◌, Option, some,
}
use mathlib.Core.Path.{subst}
use mathlib.Core.Bool.{true≢false}
use dat.Inspector.Lineage.{
  NodeKey, NodeKind, EdgeKind, Edge, Adjacency, edges_of, has, ChainStep, WalkState, walk,
  walk_loop, same_key, targets,
}
use dat.Inspector.Lineage.Keys.{has-append, has-targets, distinct, same_key_refl, same_key→eq}
use dat.Prelude.Predicates.{All, In}
use dat.Inspector.Lineage.Chain.{Chain, here, along, Found, keys, step_of, IsFound, fresh}
use dat.Inspector.Lineage.Visit.{
  push_all, after_round, visit_edges-fresh, fresh-distinct, dsts, fresh-targets, IsFresh, fresh-All,
  unvisited, fresh-unvisited, length-push_all,
}

All-both : {A : Type 0} (P : A → Type 0) (xs ys : List A) → All P xs → All P ys → All P (xs ++ ys)
All-both P [] ys h k = k
All-both P (x ∷ xs) ys (p, h) k = (p, All-both P xs ys h k)

In-dsts : (m : NodeKey) (e : EdgeKind) (l : List Edge) → In (m, e) l → has m (dsts l) ≡ true
In-dsts m e [] k = absurd k
In-dsts m e ((n, f) ∷ l) (inl q) =
    let s : same_key m n ≡ true =
      subst (λ t. same_key m t ≡ true) (ap (λ z. z.0) q) (same_key_refl m) in
    ap (λ t. if t then true else has m (dsts l)) s
In-dsts m e ((n, f) ∷ l) (inr k) = ground (arith, In-dsts m e l k)

abbrev nodes : List (NodeKey × ℕ) → List NodeKey
nodes l = map (λ x. x.0) l

push_all-has :
    (n : NodeKey) (fs : List Found) (l : List (NodeKey × ℕ))
    → has n (nodes l) ≡ true
    → has n (nodes (push_all fs l)) ≡ true
push_all-has n [] l h = h
push_all-has n (f ∷ fs) l h = push_all-has n fs ((f.key, f.depth) ∷ l) (ground (arith, h))

push_all-keys :
    (n : NodeKey) (fs : List Found) (l : List (NodeKey × ℕ))
    → has n (keys fs) ≡ true
    → has n (nodes (push_all fs l)) ≡ true
push_all-keys n [] l h = absurd (true≢false (sym h))
push_all-keys n (f ∷ fs) l h = elim (Bool-cases (same_key n f.key)) [
  | inl e ↦
      push_all-has n fs ((f.key, f.depth) ∷ l) (ap (λ t. if t then true else has n (nodes l)) e)
  | inr d ↦ push_all-keys n fs ((f.key, f.depth) ∷ l) (ground (arith, h, d))
]

module _ (adj : Adjacency) (start : NodeKey) where
  abbrev OnFrontier : NodeKey × ℕ → Type 0
  OnFrontier x = Chain adj start x.0 x.1

  -- Every visited node is still on the frontier, or all it has an edge to is visited.
  abbrev Closed : List NodeKey → List (NodeKey × ℕ) → Type 0
  Closed v l =
      (n : NodeKey)
      → has n v ≡ true
      → (has n (nodes l) ≡ true)
        ⊎ ((m : NodeKey) → has m (dsts (edges_of adj n)) ≡ true → has m v ≡ true)

  fresh-IsFound :
      (node : NodeKey) (d : ℕ)
      → Chain adj start node d
      → (fs : List Found) → All (IsFresh d (edges_of adj node)) fs
      → All (IsFound adj start) fs
  fresh-IsFound node d c [] k = tt
  fresh-IsFound node d c (f ∷ fs) ((q, i), k) = ((node, d, q, c, i), fresh-IsFound node d c fs k)

  fresh-OnFrontier :
      (fs : List Found) (l : List (NodeKey × ℕ))
      → All (IsFound adj start) fs
      → All OnFrontier l
      → All OnFrontier (push_all fs l)
  fresh-OnFrontier [] l k h = h
  fresh-OnFrontier (f ∷ fs) l ((n, d, q, c, i), k) h =
      fresh-OnFrontier fs ((f.key, f.depth) ∷ l) k
        (subst (λ t. Chain adj start f.key t) (sym q) (along f.edge c i), h)

  round-Closed :
      (node : NodeKey) (d : ℕ) (v : List NodeKey) (l : List (NodeKey × ℕ))
      → Closed v ((node, d) ∷ l)
      → Closed
          (v ++ keys (fresh d (edges_of adj node) v))
          (push_all (fresh d (edges_of adj node) v) l)
  round-Closed node d v l c n h = elim (Bool-cases (has n v)) [
    | inl e ↦ old (c n e)
    | inr f ↦ inl (
        push_all-keys n fs l (
          sym (ap (λ t. if t then true else has n (keys fs)) f)
          ∙ sym (has-append n v (keys fs))
          ∙ h))
  ]
    where
      fs : List Found
      fs = fresh d (edges_of adj node) v

      larger : (m : NodeKey) → has m v ≡ true → has m (v ++ keys fs) ≡ true
      larger m k = has-append m v (keys fs) ∙ ap (λ t. if t then true else has m (keys fs)) k

      on_frontier :
          has n (nodes ((node, d) ∷ l)) ≡ true
          → (same_key n node ≡ true) ⊎ (same_key n node ≡ false)
          → (has n (nodes (push_all fs l)) ≡ true)
            ⊎ ((m : NodeKey) → has m (dsts (edges_of adj n)) ≡ true → has m (v ++ keys fs) ≡ true)
      on_frontier k (inl e) = inr (λ m. λ i.
          fresh-targets d (edges_of adj node) v m
            (subst (λ t. has m (dsts (edges_of adj t)) ≡ true) (same_key→eq n node e) i))
      on_frontier k (inr f) = inl (push_all-has n fs l (ground (arith, k, f)))

      old :
          (has n (nodes ((node, d) ∷ l)) ≡ true)
            ⊎ ((m : NodeKey) → has m (dsts (edges_of adj n)) ≡ true → has m v ≡ true)
          → (has n (nodes (push_all fs l)) ≡ true)
            ⊎ ((m : NodeKey) → has m (dsts (edges_of adj n)) ≡ true → has m (v ++ keys fs) ≡ true)
      old (inl k) = on_frontier k (Bool-cases (same_key n node))
      old (inr g) = inr (λ m. λ i. larger m (g m i))

  Chain-visited :
      (v : List NodeKey)
      → has start v ≡ true
      → Closed v []
      → (n : NodeKey) (d : ℕ) → Chain adj start n d
      → has n v ≡ true
  Chain-visited v h c _ _ here = h
  Chain-visited v h c _ _ (along {n} {m} {d} e ch i) = targets_in (c n (Chain-visited v h c n d ch))
    where
      targets_in :
          (false ≡ true) ⊎ ((m : NodeKey) → has m (dsts (edges_of adj n)) ≡ true → has m v ≡ true)
          → has m v ≡ true
      targets_in (inl a) = absurd (true≢false (sym a))
      targets_in (inr g) = g m (In-dsts m e (edges_of adj n) i)

  -- What holds of the walk before each round.
  abbrev WalkOk : List (NodeKey × NodeKind) → WalkState → Type 0
  WalkOk kinds s =
      (found : List Found) × (s.out ≡ map (step_of kinds) found)
      × (s.visited ≡ start ∷ keys found)
      × (distinct s.visited ≡ true)
      × All (IsFound adj start) found
      × All OnFrontier s.frontier
      × Closed s.visited s.frontier

  abbrev pub Walked : List (NodeKey × NodeKind) → Option (List ChainStep) → Type 0
  Walked kinds o =
      (found : List Found) × (o ≡ some (map (step_of kinds) found))
      × (distinct (start ∷ keys found) ≡ true)
      × All (IsFound adj start) found
      × ((n : NodeKey) (d : ℕ) → Chain adj start n d → has n (start ∷ keys found) ≡ true)

  round-WalkOk :
      (kinds : List (NodeKey × NodeKind)) (node : NodeKey) (d : ℕ) (out : List ChainStep)
      (v : List NodeKey) (l : List (NodeKey × ℕ))
      → WalkOk kinds (record { out = out; visited = v; frontier = (node, d) ∷ l })
      → WalkOk kinds (
          after_round kinds
            (fresh d (edges_of adj node) v)
            (record { out = out; visited = v; frontier = l }))
  round-WalkOk kinds node d out v l (found, o, q, dist, ok, (c, front), closed) =
      let fs = fresh d (edges_of adj node) v in
      let fs_ok = fresh-IsFound node d c fs (fresh-All d (edges_of adj node) v) in
      (
        found ++ fs,
        ap (λ t. t ++ map (step_of kinds) fs) o ∙ sym (map-append (step_of kinds) found fs),
        ap (λ t. t ++ keys fs) q ∙ ap (λ t. start ∷ t) (sym (map-append (λ f. f.key) found fs)),
        fresh-distinct d (edges_of adj node) v dist,
        All-both (IsFound adj start) found fs ok fs_ok,
        fresh-OnFrontier fs l fs_ok front,
        round-Closed node d v l closed,
      )

  walk_loop-Walked :
      (kinds : List (NodeKey × NodeKind)) (fuel : ℕ) (out : List ChainStep) (v : List NodeKey)
      (l : List (NodeKey × ℕ))
      → WalkOk kinds (record { out = out; visited = v; frontier = l })
      → length l + unvisited (targets adj) v < fuel
      → Walked kinds (walk_loop fuel kinds adj (record { out = out; visited = v; frontier = l }))
  unfolding walk_loop
  walk_loop-Walked kinds zero out v l k h = absurd (omega arith)
  walk_loop-Walked kinds (suc fuel) out v [] (found, o, q, dist, ok, front, closed) h = (
    found,
    ap some o,
    subst (λ t. distinct t ≡ true) q dist,
    ok,
    λ n. λ d. λ c.
        subst (λ t. has n t ≡ true) q
          (Chain-visited v
            (subst (λ t. has start t ≡ true) (sym q)
              (ap (λ t. if t then true else has start (keys found)) (same_key_refl start)))
            closed n d c),
  )
  walk_loop-Walked kinds (suc fuel) out v ((node, d) ∷ l) k h =
      let fs = fresh d (edges_of adj node) v in
      let less =
        fresh-unvisited (targets adj) d (edges_of adj node) v (λ n. has-targets adj node n) in
      let len = length-push_all fs l in
      subst (λ t. Walked kinds (walk_loop fuel kinds adj t))
        (sym (
          visit_edges-fresh kinds d (edges_of adj node)
            (record { out = out; visited = v; frontier = l })))
        (walk_loop-Walked kinds fuel _ _ _ (round-WalkOk kinds node d out v l k) (omega arith))

  unvisited-length : (us v : List NodeKey) → unvisited us v ≤ length us
  unvisited-length [] v = ground arith
  unvisited-length (u ∷ us) v = ground (arith, unvisited-length us v)

  pub walk-Walked : (kinds : List (NodeKey × NodeKind)) → Walked kinds (walk kinds start adj)
  unfolding walk
  walk-Walked kinds =
      walk_loop-Walked kinds (suc (suc (length (targets adj)))) [] (start ∷ []) ((start, 0) ∷ [])
        ([], refl, refl, refl, tt, (here, tt), λ n. λ h. inl h)
        (let le = unvisited-length (targets adj) (start ∷ []) in omega arith)
