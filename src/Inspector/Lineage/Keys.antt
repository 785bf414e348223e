-- ===== src/Inspector/Lineage/Keys.antt =====
-- Equality and membership of the nodes of the lineage graph.
use dat.Prelude.{
  Bool, true, false, not, ◌&&◌, Text, text_eq_iff, List, [], ◌∷◌, ◌++◌, map, ◌≡◌, refl, sym, ◌∙◌,
  ap, inl, inr, arith, if◌then◌else◌, Bool-cases,
}
use mathlib.Core.Path.{subst}
use mathlib.Core.Bool.{true≢false}
use dat.Inspector.Lineage.{
  NodeKey, table, file_node, external, chart_node, same_key, has, Adjacency, edges_of, targets,
}

abbrev name_of : NodeKey → Text
name_of (table n) = n
name_of (file_node n) = n
name_of (external n) = n
name_of (chart_node n) = n

pub same_key_refl : (a : NodeKey) → same_key a a ≡ true
unfolding same_key
same_key_refl (table n) = (text_eq_iff n n).1 refl
same_key_refl (file_node n) = (text_eq_iff n n).1 refl
same_key_refl (external n) = (text_eq_iff n n).1 refl
same_key_refl (chart_node n) = (text_eq_iff n n).1 refl

pub same_key→eq : (a b : NodeKey) → same_key a b ≡ true → a ≡ b
unfolding same_key
same_key→eq (table n) (table m) h = ap table ((text_eq_iff n m).0 h)
same_key→eq (file_node n) (file_node m) h = ap file_node ((text_eq_iff n m).0 h)
same_key→eq (external n) (external m) h = ap external ((text_eq_iff n m).0 h)
same_key→eq (chart_node n) (chart_node m) h = ap chart_node ((text_eq_iff n m).0 h)
same_key→eq (table n) (file_node m) h = absurd (true≢false (sym h))
same_key→eq (table n) (external m) h = absurd (true≢false (sym h))
same_key→eq (table n) (chart_node m) h = absurd (true≢false (sym h))
same_key→eq (file_node n) (table m) h = absurd (true≢false (sym h))
same_key→eq (file_node n) (external m) h = absurd (true≢false (sym h))
same_key→eq (file_node n) (chart_node m) h = absurd (true≢false (sym h))
same_key→eq (external n) (table m) h = absurd (true≢false (sym h))
same_key→eq (external n) (file_node m) h = absurd (true≢false (sym h))
same_key→eq (external n) (chart_node m) h = absurd (true≢false (sym h))
same_key→eq (chart_node n) (table m) h = absurd (true≢false (sym h))
same_key→eq (chart_node n) (file_node m) h = absurd (true≢false (sym h))
same_key→eq (chart_node n) (external m) h = absurd (true≢false (sym h))

pub has-append :
    (key : NodeKey) (xs ys : List NodeKey)
    → has key (xs ++ ys) ≡ (if has key xs then true else has key ys)
has-append key [] ys = refl
has-append key (x ∷ xs) ys = ground (arith, has-append key xs ys)

-- No element stands twice.
abbrev pub distinct : List NodeKey → Bool
distinct [] = true
distinct (x ∷ l) = not (has x l) && distinct l

pub same_key-swap : (a b : NodeKey) → same_key a b ≡ false → same_key b a ≡ false
same_key-swap a b h = elim (Bool-cases (same_key b a)) [
  | inl e ↦
      let r = subst (λ c. same_key a c ≡ false) (same_key→eq b a e) h in
      absurd (true≢false (sym (same_key_refl a) ∙ r))
  | inr f ↦ f
]

pub distinct-append :
    (l : List NodeKey) (x : NodeKey)
    → distinct l ≡ true
    → has x l ≡ false
    → distinct (l ++ x ∷ []) ≡ true
distinct-append [] x d h = refl
distinct-append (y ∷ l) x d h =
    let n : same_key x y ≡ false = ground arith in
    let m : has x l ≡ false = ground arith in
    let d' : distinct l ≡ true = ground arith in
    ground (arith, distinct-append l x d' m, same_key-swap x y n, has-append y l (x ∷ []))

-- The targets of the edges at a node are targets of the graph.
pub has-targets :
    (adj : Adjacency) (key n : NodeKey)
    → has n (map (λ e. e.0) (edges_of adj key)) ≡ true
    → has n (targets adj) ≡ true
has-targets [] key n h = h
has-targets ((k, l) ∷ m) key n h = elim (Bool-cases (same_key key k)) [
  | inl e ↦
      let h' = subst (λ t. has n (map (λ e. e.0) (if t then l else edges_of m key)) ≡ true) e h in
      has-append n (map (λ e. e.0) l) (targets m)
      ∙ ap (λ t. if t then true else has n (targets m)) h'
  | inr f ↦
      let h' = subst (λ t. has n (map (λ e. e.0) (if t then l else edges_of m key)) ≡ true) f h in
      let rest = has-targets m key n h' in
      ground (arith, has-append n (map (λ e. e.0) l) (targets m))
]
