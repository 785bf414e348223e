-- ===== src/Format/Replay/Complete.antt =====
-- What the loop leaves when it ends: a sorted list, and every table where a rank grows.
use dat.Prelude.{
  ltb, ℕ, zero, suc, ◌<◌, Bool, true, false, List, [], ◌∷◌, ◌++◌, Text, some, ◌&&◌, not, find, map,
  length, ◌≡◌, refl, sym, ap, ◌∙◌, arith, Bool-cases, inl, inr, text_eq, text_eq_iff,
}
use mathlib.Core.Path.{subst}
use mathlib.Core.Bool.{true≢false}
use dat.Prelude.Predicates.{All}
use dat.Format.Model.{RecipeTable}
use dat.Format.Replay.{
  has_text, has_table, derived_parents, derived_values, edges, indegree_of, seeds, order_derived,
}
use dat.Format.Replay.Counts.{tally, tally-ext, tally-pos, All-tally, text_eq_refl}
use dat.Format.Replay.Edges.{indegree_of_lem}
use dat.Format.Replay.Loop.{HasUniqueTables, unseen, name_of, pending, ParentsFirst, Inv}
use dat.Format.Replay.Order.{Done, topo_loop-Done}
use dat.Format.Replay.Arranged.{Rearranged, has_table-Rearranged, HasUniqueTables-Rearranged}
use dat.Format.Replay.Recipe.{
  has_derived, has_table-derived_values, derived_values-HasUniqueTables, seeds-zero, seeds-has_text,
  All-imply, edges-HasEnds, edges-All, All-has_table,
}

-- No table stands twice, and the derived parents of each stand before it.
abbrev pub IsSorted : List RecipeTable → List Text → List RecipeTable → Type 0
IsSorted tables done [] = Unit
IsSorted tables done (t ∷ ts) =
    (has_text done t.name ≡ false)
    × All (λ p. has_derived tables p ≡ true → has_text done p ≡ true) (derived_parents t)
    × IsSorted tables (done ++ t.name ∷ []) ts

tally-always {ℓ} :
    {A : Type ℓ} (p : A → Bool) → ((x : A) → p x ≡ true) → (l : List A) → tally p l ≡ length l
tally-always p h [] = refl
tally-always p h (x ∷ l) = rw (h x, tally-always p h l) refl

tally-never {ℓ} :
    {A : Type ℓ} (p : A → Bool) → ((x : A) → p x ≡ false) → (l : List A) → tally p l ≡ 0
tally-never p h [] = refl
tally-never p h (x ∷ l) = rw (h x, tally-never p h l) refl

All-name {κ} :
    (P : Text → Type κ) (l : List RecipeTable) (n : Text)
    → All (λ t. P t.name) l
    → has_table l n ≡ true
    → P n
All-name P [] n h k = absurd (true≢false (sym k))
All-name P (t ∷ l) n h k = elim (Bool-cases (text_eq t.name n)) [
  | inl e ↦ subst P ((text_eq_iff t.name n).0 e) h.0
  | inr f ↦ All-name P l n h.1 (sym (rw f refl) ∙ k)
]

All-both {ℓ κ μ} :
    {A : Type ℓ} (P : A → Type κ) (Q : A → Type μ) (l : List A)
    → All P l
    → All Q l
    → All (λ x. P x × Q x) l
All-both P Q [] h k = tt
All-both P Q (x ∷ l) h k = ((h.0, k.0), All-both P Q l h.1 k.1)

module _ (tables derived : List RecipeTable)
    (arranged : Rearranged derived (derived_values tables)) where
  abbrev pub es : List (Text × Text)
  es = edges derived derived

  pub same_names : (n : Text) → has_table derived n ≡ has_derived tables n
  same_names n = has_table-Rearranged n arranged ∙ has_table-derived_values tables n

  pub unique : HasUniqueTables derived
  unique = HasUniqueTables-Rearranged arranged (derived_values-HasUniqueTables tables)

  none_seen : (n : Text) → indegree_of es n ≡ pending derived es [] n
  none_seen n = indegree_of_lem es n ∙ tally-ext _ _ (λ e. ground arith) es

  initial-Inv :
      Inv derived es (length derived) (indegree_of es) (seeds (indegree_of es) tables) [] []
  initial-Inv = record {
    degree = none_seen;
    none_pending = λ n k. sym (none_seen n) ∙ (seeds-zero (indegree_of es) tables n k).0;
    queued = λ n a b c.
        seeds-has_text (indegree_of es) tables n (sym (same_names n) ∙ a) (none_seen n ∙ c);
    known = λ n k. same_names n ∙ (seeds-zero (indegree_of es) tables n k).1;
    names = refl;
    first = tt;
    count = omega (arith, tally-always (λ (t : RecipeTable). true) (λ t. refl) derived);
    fuel = omega (arith, tally-always (λ (t : RecipeTable). true) (λ t. refl) derived);
  }

  pub order-Done : Done derived es unique (edges-HasEnds derived) (order_derived derived tables)
  order-Done =
      topo_loop-Done derived es unique (edges-HasEnds derived) (length derived) (indegree_of es)
        (seeds (indegree_of es) tables) [] [] initial-Inv

  pub IsSorted-ParentsFirst :
      (done : List Text) (ts : List RecipeTable)
      → ParentsFirst derived es done ts
      → IsSorted tables done ts
  IsSorted-ParentsFirst done [] h = tt
  IsSorted-ParentsFirst done (t ∷ ts) h = (
    h.1,
    All-imply derived _ _ (λ p k d. parent p (k (same_names p ∙ d))) (derived_parents t)
        (edges-All derived (λ e. (text_eq t.name e.1 && not (has_text done e.0)) ≡ false) derived
          t.name t (All-tally _ es h.0) h.2),
    IsSorted-ParentsFirst (done ++ t.name ∷ []) ts h.3,
  )
    where
      parent :
          (p : Text)
          → (text_eq t.name t.name && not (has_text done p)) ≡ false
          → has_text done p ≡ true
      parent p k = ground (arith, text_eq_refl t.name)

  -- Every name of the ordered tables is one of the recipe's derived tables.
  pub ordered_names :
      (done : List Text) (ts : List RecipeTable) (n : Text)
      → ParentsFirst derived es done ts
      → has_text (map name_of ts) n ≡ true
      → has_table derived n ≡ true
  ordered_names done [] n h k = ground arith
  ordered_names done (t ∷ ts) n h k = elim (Bool-cases (text_eq t.name n)) [
    | inl e ↦
        subst (λ m. has_table derived m ≡ true) ((text_eq_iff t.name n).0 e)
          (found derived t.name t h.2)
    | inr f ↦ ordered_names (done ++ t.name ∷ []) ts n h.3 (sym (rw f refl) ∙ k)
  ]
    where
      found :
          (l : List RecipeTable) (name : Text) (u : RecipeTable)
          → find (λ v. text_eq v.name name) l ≡ some u
          → has_table l name ≡ true
      found [] name u e = ground arith
      found (v ∷ l) name u e = elim (Bool-cases (text_eq v.name name)) [
        | inl a ↦ rw a refl
        | inr b ↦ rw b (found l name u (sym (rw b refl) ∙ e))
      ]

  -- Where nothing is left unseen, every derived table was ordered.
  all_ordered :
      (seen : List Text) (n : Text)
      → unseen seen derived ≡ 0
      → has_table derived n ≡ true
      → has_text seen n ≡ true
  all_ordered seen n e k =
      let none_left : not (has_text seen n) ≡ false =
        All-name (λ m. not (has_text seen m) ≡ false) derived n (All-tally _ derived e) k in
      ground arith

  pub same_text :
      (ordered : List RecipeTable) (n : Text)
      → Done derived es unique (edges-HasEnds derived) ordered
      → length ordered ≡ length derived
      → has_text (map name_of ordered) n ≡ has_derived tables n
  same_text ordered n (fresh, indegree, seen, i) e =
      let zero_left : unseen seen derived ≡ 0 = omega (arith, i.count) in
      both_ways (has_text (map name_of ordered) n) (has_table derived n)
        (ordered_names [] ordered n i.first)
        (λ k. ap (λ l. has_text l n) (sym i.names) ∙ all_ordered seen n zero_left k)
      ∙ same_names n
    where
      both_ways : (a b : Bool) → (a ≡ true → b ≡ true) → (b ≡ true → a ≡ true) → a ≡ b
      both_ways true b f g = sym (f refl)
      both_ways false true f g = g refl
      both_ways false false f g = refl

  -- With a rank that grows along the edges, nothing is left unseen.
  module _ (rank : Text → ℕ) (grows : All (λ e. rank e.0 < rank e.1) es) (seen : List Text)
      (closed : (n : Text)
        → has_table derived n ≡ true
        → has_text seen n ≡ false
        → pending derived es seen n ≡ 0
        → ⊥) where
    descend : (k : ℕ) (n : Text) → rank n < k → has_table derived n ≡ true → has_text seen n ≡ true
    descend zero n lt h = absurd (omega arith)
    descend (suc k) n lt h = elim (Bool-cases (has_text seen n)) [
      | inl t ↦ t
      | inr f ↦ elim (Bool-cases (ltb 0 (pending derived es seen n))) [
        | inl p ↦
            let (e, at, hit) =
              tally-pos _ (λ e. text_eq n e.1 && not (has_text seen e.0)) es
                (All-both _ _ es (edges-HasEnds derived) grows) (ground arith) in
            let into : text_eq n e.1 ≡ true = ground arith in
            let same : rank e.1 ≡ rank n = ap rank (sym ((text_eq_iff n e.1).0 into)) in
            let above : has_text seen e.0 ≡ true =
              descend k e.0 (omega (arith, at.1, same)) at.0.0 in
            let missed : has_text seen e.0 ≡ false = ground arith in
            absurd (true≢false (sym above ∙ missed))
        | inr z ↦ absurd (closed n h f (ground arith))
      ]
    ]

  pub total_order :
      (rank : Text → ℕ)
      → All (λ e. rank e.0 < rank e.1) es
      → (ordered : List RecipeTable) → Done derived es unique (edges-HasEnds derived) ordered
      → length ordered ≡ length derived
  total_order rank grows ordered (fresh, indegree, seen, i) =
      let zero_left : unseen seen derived ≡ 0 = tally-none derived (
        All-imply derived (λ t. has_table derived t.name ≡ true)
          (λ t. not (has_text seen t.name) ≡ false) (λ t h. ap not (seen_all t.name h)) derived
          (All-has_table derived derived (λ n k. k))) in
      omega (arith, i.count)
    where
      seen_all : (n : Text) → has_table derived n ≡ true → has_text seen n ≡ true
      seen_all n h =
          descend rank grows seen (λ m a b c. true≢false (sym (i.queued m a b c))) (suc (rank n)) n
            (omega arith) h

      tally-none :
          (l : List RecipeTable)
          → All (λ t. not (has_text seen t.name) ≡ false) l
          → unseen seen l ≡ 0
      tally-none [] h = refl
      tally-none (t ∷ l) h = ground (arith, tally-none l h.1, h.0)
