-- ===== src/Grid/DataSource/Columns.antt =====
-- The visible columns of the data source, by screen index and by name.
use dat.Prelude.{
  ℕ, zero, suc, ◌+◌, Bool, true, false, List, [], ◌∷◌, Text, Option, some, none, get_elem?, drop,
  position, behind, any, text_eq, text_eq_iff, ◌≡◌, refl, sym, ap, ◌∙◌, arith, Bool-cases, inl, inr,
}
use mathlib.Core.Option.{some-injective}
use mathlib.Core.Bool.{true≢false}
use dat.Prelude.Slices.{tail, drop-next, get_elem?-drop}
use dat.Engine.Transform.{rowid_col}
use dat.Grid.DataSource.{
  GridDataSource, is_visible, visible_names, visible_indices, visible_column_names,
  schema_index_for_visible, schema_index_for_source, field_at, column_name,
}

-- The indices of the visible fields, from the one at `n` on, and the fields at them.
field_at-visible :
    {C : Type 0} (ds : GridDataSource C) (n : ℕ) (fields : List Text) (i : ℕ)
    → drop n ds.schema ≡ fields
    → field_at ds (get_elem? (visible_indices n fields) i) ≡ get_elem? (visible_names fields) i
unfolding visible_indices visible_names
field_at-visible ds n [] i e = refl
field_at-visible ds n (f ∷ fields) i e =
    let rest = drop-next ds.schema n (n + 1) (omega arith) ∙ ap tail e in
    elim (Bool-cases (is_visible f)) [
      | inl t ↦ rw t (first i (λ j. field_at-visible ds (n + 1) fields j rest))
      | inr u ↦ rw u (field_at-visible ds (n + 1) fields i rest)
    ]
  where
    first :
        (j : ℕ)
        → ((k : ℕ)
            → field_at ds (get_elem? (visible_indices (n + 1) fields) k)
              ≡ get_elem? (visible_names fields) k)
        → field_at ds (get_elem? (n ∷ visible_indices (n + 1) fields) j)
          ≡ get_elem? (f ∷ visible_names fields) j
    first zero behind = (get_elem?-drop ds.schema n f fields e).0
    first (suc j) behind = behind j

-- The name of the column at a screen index is the one at that place among the visible names, and
-- there is none behind them.
pub column_name_lem :
    {C : Type 0} (ds : GridDataSource C) (ix : ℕ)
    → column_name ds ix ≡ get_elem? (visible_column_names ds) ix
unfolding column_name schema_index_for_visible visible_column_names
column_name_lem ds ix = field_at-visible ds 0 ds.schema ix refl

-- No field stands twice.
abbrev pub HasUniqueFields : List Text → Type 0
HasUniqueFields [] = Unit
HasUniqueFields (f ∷ fields) = (any (λ g. text_eq g f) fields ≡ false) × HasUniqueFields fields

any-get_elem? {ℓ} :
    {A : Type ℓ} (p : A → Bool) (l : List A) (j : ℕ) (x : A)
    → get_elem? l j ≡ some x
    → p x ≡ true
    → any p l ≡ true
any-get_elem? p [] j x e h = ground arith
any-get_elem? p (y ∷ l) zero x e h = rw (ap p (some-injective y x e) ∙ h) refl
any-get_elem? p (y ∷ l) (suc j) x e h = ground (arith, any-get_elem? p l j x e h)

-- An index that a name has is the first one.
position-get_elem? :
    (fields : List Text) (j : ℕ) (name : Text)
    → HasUniqueFields fields
    → get_elem? fields j ≡ some name
    → position (λ f. text_eq f name) fields ≡ some j
position-get_elem? [] j name u e = ground arith
position-get_elem? (f ∷ fields) zero name u e =
    rw ((text_eq_iff f name).1 (some-injective f name e)) refl
position-get_elem? (f ∷ fields) (suc j) name u e = elim (Bool-cases (text_eq f name)) [
  | inl t ↦
      let same : name ≡ f = sym ((text_eq_iff f name).0 t) in
      let twice = any-get_elem? (λ g. text_eq g f) fields j name e ((text_eq_iff name f).1 same) in
      absurd (true≢false (sym twice ∙ u.0))
  | inr v ↦ rw v (ap behind (position-get_elem? fields j name u.1 e))
]

-- The surrogate key is not visible.
get_elem?-visible_names :
    (fields : List Text) (i : ℕ) (name : Text)
    → get_elem? (visible_names fields) i ≡ some name
    → text_eq name rowid_col ≡ false
unfolding visible_names
get_elem?-visible_names [] i name e = ground arith
get_elem?-visible_names (f ∷ fields) i name e = elim (Bool-cases (is_visible f)) [
  | inl t ↦ first i t (sym (rw t refl) ∙ e) (λ j k. get_elem?-visible_names fields j name k)
  | inr u ↦ get_elem?-visible_names fields i name (sym (rw u refl) ∙ e)
]
  where
    first :
        (j : ℕ)
        → is_visible f ≡ true
        → get_elem? (f ∷ visible_names fields) j ≡ some name
        → ((k : ℕ)
            → get_elem? (visible_names fields) k ≡ some name
            → text_eq name rowid_col ≡ false)
        → text_eq name rowid_col ≡ false
    first zero t k behind =
        ap (λ n. text_eq n rowid_col) (sym (some-injective f name k)) ∙ ground arith
    first (suc j) t k behind = behind j k

-- Where no field of the schema stands twice, the column at a screen index is found by its name too:
-- both ways lead to the same field.
pub schema_index_for_source_lem :
    {C : Type 0} (ds : GridDataSource C) (ix : ℕ) (name : Text)
    → HasUniqueFields ds.schema
    → column_name ds ix ≡ some name
    → schema_index_for_source ds name ≡ schema_index_for_visible ds ix
unfolding schema_index_for_source column_name
schema_index_for_source_lem ds ix name u e =
    let hidden : text_eq name rowid_col ≡ false =
      get_elem?-visible_names ds.schema ix name
        (unfold visible_column_names in sym (column_name_lem ds ix) ∙ e) in
    rw hidden (by_index (schema_index_for_visible ds ix) e)
  where
    by_index :
        (o : Option ℕ) → field_at ds o ≡ some name → position (λ f. text_eq f name) ds.schema ≡ o
    by_index none k = ground arith
    by_index (some j) k = position-get_elem? ds.schema j name u k
