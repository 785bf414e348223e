-- ===== src/Inspector/Lineage/Visit.antt =====
-- A round of the walk.
use dat.Prelude.{
  ℕ, ◌+◌, ◌≤◌, true, false, List, [], ◌∷◌, ◌++◌, map, length, ◌≡◌, refl, sym, ◌∙◌, ap, ap₂, inl,
  inr, arith, if◌then◌else◌, Bool-cases, ◌⊎◌, append_assoc, append-nil,
}
use mathlib.Core.Path.{subst}
use mathlib.Core.Bool.{true≢false}
use dat.Inspector.Lineage.{
  NodeKey, NodeKind, Edge, has, WalkState, visit_edges, reach_next, same_key,
}
use dat.Inspector.Lineage.Keys.{has-append, distinct, distinct-append, same_key_refl, same_key→eq}
use dat.Prelude.Predicates.{All, In}
use dat.Inspector.Lineage.Chain.{Found, keys, step_of, fresh}

-- The found nodes on top of the frontier, the last one first.
abbrev pub push_all : List Found → List (NodeKey × ℕ) → List (NodeKey × ℕ)
push_all [] l = l
push_all (f ∷ fs) l = push_all fs ((f.key, f.depth) ∷ l)

abbrev pub after_round : List (NodeKey × NodeKind) → List Found → WalkState → WalkState
after_round kinds fs s = record {
  out = s.out ++ map (step_of kinds) fs;
  visited = s.visited ++ keys fs;
  frontier = push_all fs s.frontier;
}

after_round-nil : (kinds : List (NodeKey × NodeKind)) (s : WalkState) → s ≡ after_round kinds [] s
after_round-nil kinds s =
    ap₂ (λ o v. record { out = o; visited = v; frontier = s.frontier }) (sym (append-nil s.out))
      (sym (append-nil s.visited))

after_round-reach :
    (kinds : List (NodeKey × NodeKind)) (f : Found) (fs : List Found) (s : WalkState)
    → after_round kinds fs (record {
      out = s.out ++ step_of kinds f ∷ [];
      visited = s.visited ++ f.key ∷ [];
      frontier = (f.key, f.depth) ∷ s.frontier;
    })
      ≡ after_round kinds (f ∷ fs) s
after_round-reach kinds f fs s =
    ap₂
      (λ o v. record {
        out = o;
        visited = v;
        frontier = push_all fs ((f.key, f.depth) ∷ s.frontier);
      })
      (append_assoc s.out (step_of kinds f ∷ []) (map (step_of kinds) fs))
      (append_assoc s.visited (f.key ∷ []) (keys fs))

pub visit_edges-fresh :
    (kinds : List (NodeKey × NodeKind)) (depth : ℕ) (l : List Edge) (s : WalkState)
    → visit_edges kinds depth l s ≡ after_round kinds (fresh depth l s.visited) s
unfolding visit_edges
visit_edges-fresh kinds depth [] s = after_round-nil kinds s
visit_edges-fresh kinds depth ((next, edge) ∷ l) s = elim (Bool-cases (has next s.visited)) [
  | inl e ↦ rw e (visit_edges-fresh kinds depth l s)
  | inr f ↦ rw f (
      visit_edges-fresh kinds depth l (reach_next kinds depth next edge s)
      ∙ after_round-reach kinds (record { key = next; edge = edge; depth = depth + 1 })
          (fresh depth l (s.visited ++ next ∷ [])) s)
]

abbrev snoc_keys : List NodeKey → NodeKey → List Found → List NodeKey
snoc_keys v n fs = (v ++ n ∷ []) ++ keys fs

pub fresh-distinct :
    (depth : ℕ) (l : List Edge) (v : List NodeKey)
    → distinct v ≡ true
    → distinct (v ++ keys (fresh depth l v)) ≡ true
fresh-distinct depth [] v d = subst (λ t. distinct t ≡ true) (sym (append-nil v)) d
fresh-distinct depth ((next, edge) ∷ l) v d = elim (Bool-cases (has next v)) [
  | inl e ↦ rw e (fresh-distinct depth l v d)
  | inr f ↦
      let fs = fresh depth l (v ++ next ∷ []) in
      let step = fresh-distinct depth l (v ++ next ∷ []) (distinct-append v next d f) in
      rw f (subst (λ t. distinct t ≡ true) (append_assoc v (next ∷ []) (keys fs)) step)
]

abbrev pub dsts : List Edge → List NodeKey
dsts l = map (λ e. e.0) l

has-left : (n : NodeKey) (xs ys : List NodeKey) → has n xs ≡ true → has n (xs ++ ys) ≡ true
has-left n xs ys h = has-append n xs ys ∙ ap (λ t. if t then true else has n ys) h

has-last : (n : NodeKey) (v : List NodeKey) → has n (v ++ n ∷ []) ≡ true
has-last n v = ground (arith, has-append n v (n ∷ []), same_key_refl n)

pub fresh-targets :
    (depth : ℕ) (l : List Edge) (v : List NodeKey) (n : NodeKey)
    → has n (dsts l) ≡ true
    → has n (v ++ keys (fresh depth l v)) ≡ true
fresh-targets depth [] v n h = absurd (true≢false (sym h))
fresh-targets depth ((next, edge) ∷ l) v n h = elim (Bool-cases (has next v)) [
  | inl e ↦ rw e (found_already e (Bool-cases (same_key n next)) (fresh-targets depth l v n))
  | inr f ↦
      let fs = fresh depth l (v ++ next ∷ []) in
      rw f (
        subst (λ t. has n t ≡ true) (append_assoc v (next ∷ []) (keys fs))
          (found_now fs (Bool-cases (same_key n next)) (fresh-targets depth l (v ++ next ∷ []) n)))
]
  where
    tail_has : same_key n next ≡ false → has n (dsts l) ≡ true
    tail_has b = ground arith

    found_already :
        has next v ≡ true
        → (same_key n next ≡ true) ⊎ (same_key n next ≡ false)
        → (has n (dsts l) ≡ true → has n (v ++ keys (fresh depth l v)) ≡ true)
        → has n (v ++ keys (fresh depth l v)) ≡ true
    found_already e (inl a) k =
        has-left n v _ (subst (λ t. has t v ≡ true) (sym (same_key→eq n next a)) e)
    found_already e (inr b) k = k (tail_has b)

    found_now :
        (fs : List Found)
        → (same_key n next ≡ true) ⊎ (same_key n next ≡ false)
        → (has n (dsts l) ≡ true → has n ((v ++ next ∷ []) ++ keys fs) ≡ true)
        → has n ((v ++ next ∷ []) ++ keys fs) ≡ true
    found_now fs (inl a) k =
        has-left n (v ++ next ∷ []) (keys fs) (
          subst (λ t. has t (v ++ next ∷ []) ≡ true) (sym (same_key→eq n next a)) (has-last next v))
    found_now fs (inr b) k = k (tail_has b)

-- What a round finds was found by one of its edges.
abbrev pub IsFresh : ℕ → List Edge → Found → Type 0
IsFresh depth l f = (f.depth ≡ depth + 1) × In (f.key, f.edge) l

All-further :
    (depth : ℕ) (e : Edge) (l : List Edge) (fs : List Found)
    → All (IsFresh depth l) fs
    → All (IsFresh depth (e ∷ l)) fs
All-further depth e l [] k = tt
All-further depth e l (f ∷ fs) ((d, i), k) = ((d, inr i), All-further depth e l fs k)

pub fresh-All :
    (depth : ℕ) (l : List Edge) (v : List NodeKey) → All (IsFresh depth l) (fresh depth l v)
fresh-All depth [] v = tt
fresh-All depth ((next, edge) ∷ l) v = elim (Bool-cases (has next v)) [
  | inl e ↦ rw e (All-further depth (next, edge) l _ (fresh-All depth l v))
  | inr f ↦
      rw f
        ((refl, inl refl), All-further depth (next, edge) l _ (fresh-All depth l (v ++ next ∷ [])))
]

-- How many nodes of the list are not visited.
abbrev pub unvisited : List NodeKey → List NodeKey → ℕ
unvisited [] v = 0
unvisited (u ∷ us) v = (if has u v then 0 else 1) + unvisited us v

unvisited-less : (us v : List NodeKey) (n : NodeKey) → unvisited us (v ++ n ∷ []) ≤ unvisited us v
unvisited-less [] v n = ground arith
unvisited-less (u ∷ us) v n = ground (arith, unvisited-less us v n, has-append u v (n ∷ []))

unvisited-visit :
    (us v : List NodeKey) (n : NodeKey)
    → has n us ≡ true
    → has n v ≡ false
    → unvisited us (v ++ n ∷ []) + 1 ≤ unvisited us v
unvisited-visit [] v n h f = absurd (true≢false (sym h))
unvisited-visit (u ∷ us) v n h f = elim (Bool-cases (same_key n u)) [
  | inl e ↦
      let q = same_key→eq n u e in
      let a : has u v ≡ false = subst (λ t. has t v ≡ false) q f in
      let b : has u (v ++ n ∷ []) ≡ true =
        subst (λ t. has t (v ++ n ∷ []) ≡ true) q (has-last n v) in
      let le = unvisited-less us v n in rw (a, b) (omega arith)
  | inr d ↦
      let h' : has n us ≡ true = ground arith in
      let le = unvisited-visit us v n h' f in ground (arith, has-append u v (n ∷ []))
]

-- A round pops one element, and every element it pushes is a node visited for the first time.
pub fresh-unvisited :
    (us : List NodeKey) (depth : ℕ) (l : List Edge) (v : List NodeKey)
    → ((n : NodeKey) → has n (dsts l) ≡ true → has n us ≡ true)
    → length (fresh depth l v) + unvisited us (v ++ keys (fresh depth l v)) ≤ unvisited us v
fresh-unvisited us depth [] v k = rw (append-nil v) (omega arith)
fresh-unvisited us depth ((next, edge) ∷ l) v k =
    let further : (n : NodeKey) → has n (dsts l) ≡ true → has n us ≡ true =
      λ n. λ h. k n (ground (arith, h)) in
    elim (Bool-cases (has next v)) [
      | inl e ↦ rw e (fresh-unvisited us depth l v further)
      | inr f ↦
          let fs = fresh depth l (v ++ next ∷ []) in
          let rest = fresh-unvisited us depth l (v ++ next ∷ []) further in
          let one =
            unvisited-visit us v next
              (k next (ap (λ t. if t then true else has next (dsts l)) (same_key_refl next))) f in
          let rest' =
            subst (λ t. length fs + unvisited us t ≤ unvisited us (v ++ next ∷ []))
              (append_assoc v (next ∷ []) (keys fs)) rest in
          rw f (omega arith)
    ]

pub length-push_all :
    (fs : List Found) (l : List (NodeKey × ℕ)) → length (push_all fs l) ≡ length fs + length l
length-push_all [] l = omega arith
length-push_all (f ∷ fs) l = ground (arith, length-push_all fs ((f.key, f.depth) ∷ l))
