-- ===== src/Inspector/Lineage/Pushed.antt =====
-- The edges of a node once an edge is pushed.
use dat.Prelude.{
  Bool, true, false, List, [], ◌∷◌, ◌++◌, ◌≡◌, refl, sym, ◌∙◌, inl, inr, if◌then◌else◌, Bool-cases,
  ◌⊎◌,
}
use mathlib.Core.Path.{subst}
use dat.Inspector.Lineage.{NodeKey, Edge, Adjacency, edges_of, push_edge, same_key}
use dat.Inspector.Lineage.Keys.{same_key_refl, same_key→eq}
use dat.Prelude.Predicates.{In}

In-left : {A : Type 0} (x : A) (xs ys : List A) → In x xs → In x (xs ++ ys)
In-left x [] ys k = absurd k
In-left x (y ∷ xs) ys (inl e) = inl e
In-left x (y ∷ xs) ys (inr k) = inr (In-left x xs ys k)

In-last : {A : Type 0} (x : A) (xs : List A) → In x (xs ++ x ∷ [])
In-last x [] = inl refl
In-last x (y ∷ xs) = inr (In-last x xs)

In-split : {A : Type 0} (x y : A) (xs : List A) → In x (xs ++ y ∷ []) → In x xs ⊎ (x ≡ y)
In-split x y [] (inl e) = inr e
In-split x y [] (inr k) = absurd k
In-split x y (z ∷ xs) (inl e) = inl (inl e)
In-split x y (z ∷ xs) (inr k) = widened (In-split x y xs k)
  where
    widened : In x xs ⊎ (x ≡ y) → In x (z ∷ xs) ⊎ (x ≡ y)
    widened (inl i) = inl (inr i)
    widened (inr e) = inr e

-- An edge that is pushed is found, and the others stay.
pub push_edge-last :
    (key : NodeKey) (v : Edge) (m : Adjacency) → In v (edges_of (push_edge key v m) key)
push_edge-last key v [] = rw (same_key_refl key) (inl refl)
push_edge-last key v ((k, l) ∷ m) = elim (Bool-cases (same_key key k)) [
  | inl e ↦ rw (e, e) (In-last v l)
  | inr f ↦ rw (f, f) (push_edge-last key v m)
]

pub push_edge-left :
    (key n : NodeKey) (v x : Edge) (m : Adjacency)
    → In x (edges_of m n)
    → In x (edges_of (push_edge key v m) n)
push_edge-left key n v x [] k = absurd k
push_edge-left key n v x ((k', l) ∷ m) k = elim (Bool-cases (same_key key k')) [
  | inl e ↦ rw e (both (same_key n k') k)
  | inr f ↦ rw f (further (same_key n k') (push_edge-left key n v x m) k)
]
  where
    both :
        (b : Bool)
        → In x (if b then l else edges_of m n)
        → In x (if b then l ++ v ∷ [] else edges_of m n)
    both true i = In-left x l (v ∷ []) i
    both false i = i

    further :
        (b : Bool)
        → (In x (edges_of m n) → In x (edges_of (push_edge key v m) n))
        → In x (if b then l else edges_of m n)
        → In x (if b then l else edges_of (push_edge key v m) n)
    further true g i = i
    further false g i = g i

-- Nothing else is found then.
abbrev pub Split : NodeKey → NodeKey → Edge → Edge → Adjacency → Type 0
Split key n v x m = In x (edges_of m n) ⊎ ((n ≡ key) × (x ≡ v))

pub push_edge-Split :
    (key n : NodeKey) (v x : Edge) (m : Adjacency)
    → In x (edges_of (push_edge key v m) n)
    → Split key n v x m
push_edge-Split key n v x [] k = only (same_key n key) (same_key→eq n key) k
  where
    only : (b : Bool) → (b ≡ true → n ≡ key) → In x (if b then v ∷ [] else []) → Split key n v x []
    only true q (inl e) = inr (q refl, e)
    only true q (inr i) = absurd i
    only false q i = absurd i
push_edge-Split key n v x ((k', l) ∷ m) k = elim (Bool-cases (same_key key k')) [
  | inl e ↦
      let k2 =
        subst
          (λ b.
            In x (edges_of (if b then (k', l ++ v ∷ []) ∷ m else (k', l) ∷ push_edge key v m) n))
          e k in
      at_key (same_key→eq key k' e) (same_key n k') (same_key→eq n k') k2
  | inr f ↦
      let k2 =
        subst
          (λ b.
            In x (edges_of (if b then (k', l ++ v ∷ []) ∷ m else (k', l) ∷ push_edge key v m) n))
          f k in
      behind (same_key n k') (push_edge-Split key n v x m) k2
]
  where
    grown : key ≡ k' → n ≡ k' → In x l ⊎ (x ≡ v) → In x l ⊎ ((n ≡ key) × (x ≡ v))
    grown p q (inl i) = inl i
    grown p q (inr e) = inr (q ∙ sym p, e)

    at_key :
        key ≡ k'
        → (b : Bool) → (b ≡ true → n ≡ k')
        → In x (if b then l ++ v ∷ [] else edges_of m n)
        → In x (if b then l else edges_of m n) ⊎ ((n ≡ key) × (x ≡ v))
    at_key p true q i = grown p (q refl) (In-split x v l i)
    at_key p false q i = inl i

    behind :
        (b : Bool)
        → (In x (edges_of (push_edge key v m) n) → Split key n v x m)
        → In x (if b then l else edges_of (push_edge key v m) n)
        → In x (if b then l else edges_of m n) ⊎ ((n ≡ key) × (x ≡ v))
    behind true g i = inl i
    behind false g i = g i
