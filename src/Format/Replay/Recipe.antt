-- ===== src/Format/Replay/Recipe.antt =====
-- The order that `topo_order_derived` gives.
use dat.Prelude.{
  ℕ, Bool, true, List, [], ◌∷◌, ◌++◌, Text, some, ◌==◌, ◌&&◌, not, any, find, ◌≡◌, refl, sym, ap,
  ◌∙◌, arith, Bool-cases, inl, inr, text_eq, text_eq_iff,
}
use mathlib.Core.Path.{subst}
use mathlib.Core.Option.{some-injective}
use mathlib.Core.Bool.{true≢false}
use dat.Prelude.Predicates.{All}
use dat.Format.Model.{RecipeTable}
use dat.Format.Replay.{
  has_text, has_table, derived_parents, is_derived_kind, derived_values, derived_edges, edges,
  seeds,
}
use dat.Format.Replay.Counts.{text_eq_refl}
use dat.Format.Replay.Loop.{HasUniqueTables}

-- Whether a derived table of the recipe has the name.
abbrev pub has_derived : List RecipeTable → Text → Bool
has_derived tables n = any (λ t. is_derived_kind t.kind && text_eq t.name n) tables

pub has_table-derived_values :
    (tables : List RecipeTable) (n : Text)
    → has_table (derived_values tables) n ≡ has_derived tables n
unfolding derived_values
has_table-derived_values [] n = refl
has_table-derived_values (t ∷ tables) n =
    let rest = has_table-derived_values tables n in
    elim (Bool-cases (text_eq t.name n)) [
      | inl e ↦
          let same : has_table (derived_values tables) t.name
              ≡ has_table (derived_values tables) n =
            ap (has_table (derived_values tables)) ((text_eq_iff t.name n).0 e) in
          elim (Bool-cases
            (is_derived_kind t.kind && not (has_table (derived_values tables) t.name))) [
              | inl a ↦ rw a (ground (arith, rest, same))
              | inr b ↦ rw b (ground (arith, rest, same))
            ]
      | inr f ↦
          elim (Bool-cases
            (is_derived_kind t.kind && not (has_table (derived_values tables) t.name))) [
              | inl a ↦ rw a (ground (arith, rest))
              | inr b ↦ rw b (ground (arith, rest))
            ]
    ]

pub derived_values-HasUniqueTables :
    (tables : List RecipeTable) → HasUniqueTables (derived_values tables)
unfolding derived_values
derived_values-HasUniqueTables [] = tt
derived_values-HasUniqueTables (t ∷ tables) =
    elim (Bool-cases (is_derived_kind t.kind && not (has_table (derived_values tables) t.name))) [
      | inl e ↦ rw e (ground arith, derived_values-HasUniqueTables tables)
      | inr f ↦ rw f (derived_values-HasUniqueTables tables)
    ]

-- What holds of each derived table holds of each value of the map.
pub All-derived_values {ℓ} :
    (P : RecipeTable → Type ℓ) (tables : List RecipeTable)
    → All (λ t. is_derived_kind t.kind ≡ true → P t) tables
    → All P (derived_values tables)
unfolding derived_values
All-derived_values P [] h = tt
All-derived_values P (t ∷ tables) h =
    elim (Bool-cases (is_derived_kind t.kind && not (has_table (derived_values tables) t.name))) [
      | inl e ↦ rw e (h.0 (ground arith), All-derived_values P tables h.1)
      | inr f ↦ rw f (All-derived_values P tables h.1)
    ]

pub seeds-zero :
    (indegree : Text → ℕ) (tables : List RecipeTable) (n : Text)
    → has_text (seeds indegree tables) n ≡ true
    → (indegree n ≡ 0) × (has_derived tables n ≡ true)
unfolding seeds
seeds-zero indegree [] n h = ground arith
seeds-zero indegree (t ∷ tables) n h =
    elim (Bool-cases (is_derived_kind t.kind && indegree t.name == 0)) [
      | inl a ↦ elim (Bool-cases (text_eq t.name n)) [
        | inl e ↦
            let same : indegree n ≡ indegree t.name =
              ap indegree (sym ((text_eq_iff t.name n).0 e)) in
            (ground (arith, same), ground arith)
        | inr f ↦
            let rest = seeds-zero indegree tables n (sym (rw (a, f) refl) ∙ h) in
            (rest.0, ground (arith, rest.1))
      ]
      | inr b ↦
          let rest = seeds-zero indegree tables n (sym (rw b refl) ∙ h) in
          (rest.0, ground (arith, rest.1))
    ]

pub seeds-has_text :
    (indegree : Text → ℕ) (tables : List RecipeTable) (n : Text)
    → has_derived tables n ≡ true
    → indegree n ≡ 0
    → has_text (seeds indegree tables) n ≡ true
unfolding seeds
seeds-has_text indegree [] n h e = ground arith
seeds-has_text indegree (t ∷ tables) n h e =
    elim (Bool-cases (is_derived_kind t.kind && text_eq t.name n)) [
      | inl a ↦
          let here : text_eq t.name n ≡ true = ground arith in
          let same : indegree t.name ≡ indegree n = ap indegree ((text_eq_iff t.name n).0 here) in
          let both : (is_derived_kind t.kind && indegree t.name == 0) ≡ true =
            ground (arith, same) in
          rw both (rw here refl)
      | inr b ↦
          let rest = seeds-has_text indegree tables n (ground arith) e in
          elim (Bool-cases (is_derived_kind t.kind && indegree t.name == 0)) [
            | inl c ↦ rw c (ground (arith, rest))
            | inr d ↦ rw d rest
          ]
    ]

-- Both ends of an edge are derived tables.
module _ (derived : List RecipeTable) where
  abbrev HasEnds : Text × Text → Type 0
  HasEnds e = (has_table derived e.0 ≡ true) × (has_table derived e.1 ≡ true)

  pub All-append {ℓ κ} :
      {A : Type ℓ} (P : A → Type κ) (l r : List A) → All P l → All P r → All P (l ++ r)
  All-append P [] r h k = k
  All-append P (x ∷ l) r h k = (h.0, All-append P l r h.1 k)

  All-derived_edges {ℓ} :
      (P : Text × Text → Type ℓ) (name : Text) (parents : List Text)
      → All (λ p. has_table derived p ≡ true → P (p, name)) parents
      → All P (derived_edges derived name parents)
  unfolding derived_edges
  All-derived_edges P name [] h = tt
  All-derived_edges P name (p ∷ parents) h = elim (Bool-cases (has_table derived p)) [
    | inl t ↦ rw t (h.0 t, All-derived_edges P name parents h.1)
    | inr f ↦ rw f (All-derived_edges P name parents h.1)
  ]

  pub All-edges {ℓ} :
      (P : Text × Text → Type ℓ) (tables : List RecipeTable)
      → All (λ t. All (λ p. has_table derived p ≡ true → P (p, t.name)) (derived_parents t)) tables
      → All P (edges derived tables)
  unfolding edges
  All-edges P [] h = tt
  All-edges P (t ∷ tables) h =
      All-append P (derived_edges derived t.name (derived_parents t)) (edges derived tables)
        (All-derived_edges P t.name (derived_parents t) h.0) (All-edges P tables h.1)

  pub All-imply {ℓ κ μ} :
      {A : Type ℓ} (P : A → Type κ) (Q : A → Type μ)
      → ((x : A) → P x → Q x)
      → (l : List A) → All P l
      → All Q l
  All-imply P Q f [] h = tt
  All-imply P Q f (x ∷ l) h = (f x h.0, All-imply P Q f l h.1)

  All-always {ℓ κ} : {A : Type ℓ} (P : A → Type κ) → ((x : A) → P x) → (l : List A) → All P l
  All-always P f [] = tt
  All-always P f (x ∷ l) = (f x, All-always P f l)

  -- Each table has its name, in every longer list too.
  pub All-has_table :
      (tables : List RecipeTable)
      → ((n : Text) → has_table tables n ≡ true → has_table derived n ≡ true)
      → All (λ t. has_table derived t.name ≡ true) tables
  All-has_table [] h = tt
  All-has_table (t ∷ tables) h =
      (h t.name (rw (text_eq_refl t.name) refl), All-has_table tables (λ n k. h n (ground arith)))

  pub edges-HasEnds : All HasEnds (edges derived derived)
  edges-HasEnds = All-edges HasEnds derived (
      All-imply _ _ (λ t here. All-always _ (λ p there. (there, here)) (derived_parents t)) derived
        (All-has_table derived (λ n k. k)))

  -- The other way: what holds of all edges, for the parents of one table.
  derived_edges-All {ℓ} :
      (P : Text × Text → Type ℓ) (name : Text) (parents : List Text)
      → All P (derived_edges derived name parents)
      → All (λ p. has_table derived p ≡ true → P (p, name)) parents
  unfolding derived_edges
  derived_edges-All P name [] h = tt
  derived_edges-All P name (p ∷ parents) h = elim (Bool-cases (has_table derived p)) [
    | inl t ↦ let k = rw t at h in (λ _. k.0, derived_edges-All P name parents k.1)
    | inr f ↦ (λ t. absurd (true≢false (sym t ∙ f)), derived_edges-All P name parents (rw f at h))
  ]

  All-split {ℓ κ} :
      {A : Type ℓ} (P : A → Type κ) (l r : List A) → All P (l ++ r) → All P l × All P r
  All-split P [] r h = (tt, h)
  All-split P (x ∷ l) r h = let (a, b) = All-split P l r h.1 in ((h.0, a), b)

  pub edges-All {ℓ} :
      (P : Text × Text → Type ℓ) (tables : List RecipeTable) (name : Text) (t : RecipeTable)
      → All P (edges derived tables)
      → find (λ u. text_eq u.name name) tables ≡ some t
      → All (λ p. has_table derived p ≡ true → P (p, t.name)) (derived_parents t)
  unfolding edges
  edges-All P [] name t h e = ground arith
  edges-All P (u ∷ tables) name t h e =
      let (here, behind) =
        All-split P (derived_edges derived u.name (derived_parents u)) (edges derived tables) h in
      elim (Bool-cases (text_eq u.name name)) [
        | inl k ↦
            subst (λ v. All (λ p. has_table derived p ≡ true → P (p, v.name)) (derived_parents v))
              (some-injective u t (sym (rw k refl) ∙ e))
              (derived_edges-All P u.name (derived_parents u) here)
        | inr f ↦ edges-All P tables name t behind (sym (rw f refl) ∙ e)
      ]
