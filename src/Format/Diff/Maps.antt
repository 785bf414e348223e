-- ===== src/Format/Diff/Maps.antt =====
-- Lists of named items as finite maps from names.
use dat.Prelude.{
  Bool, true, false, ◌&&◌, List, [], ◌∷◌, Text, Option, some, none, any, all, find, ◌≡◌, refl, sym,
  ap, ◌∙◌, arith, Bool-cases, inl, inr, text_eq, text_eq_iff,
}
use mathlib.Core.Path.{subst}
use mathlib.Core.Option.{some-injective}

-- `Option::is_present`
abbrev pub is_present {ℓ} : {A : Type ℓ} → Option A → Bool
is_present none = false
is_present (some _) = true

-- Two entries of a map: absent from both, or related.
abbrev pub Entries {ℓ} : {A : Type ℓ} → (A → A → Type 0) → Option A → Option A → Type 0
Entries R none none = Unit
Entries R (some x) (some y) = R x y
Entries R none (some y) = ⊥
Entries R (some x) none = ⊥

-- The round over an item of the first list, as a test.
abbrev pub matches {ℓ} : {A : Type ℓ} → (A → A → Bool) → A → Option A → Bool
matches ok x none = false
matches ok x (some y) = ok x y

all-find {ℓ} :
    {A : Type ℓ} (p q : A → Bool) (l : List A) (x : A)
    → all p l ≡ true
    → find q l ≡ some x
    → (p x ≡ true) × (q x ≡ true)
all-find p q [] x h e = ground arith
all-find p q (y ∷ l) x h e = elim (Bool-cases (q y)) [
  | inl t ↦
      let same : y ≡ x = some-injective _ _ (sym (rw t refl) ∙ e) in
      let holds : p y ≡ true = ground arith in (ap p (sym same) ∙ holds, ap q (sym same) ∙ t)
  | inr f ↦ all-find p q l x (ground arith) (ground arith)
]

module _ {ℓ} {A : Type ℓ} (name : A → Text) where
  abbrev pub lookup : List A → Text → Option A
  lookup l n = find (λ x. text_eq (name x) n) l

  abbrev pub has_name : List A → Text → Bool
  has_name l n = any (λ x. text_eq (name x) n) l

  -- No two items have the same name.
  abbrev pub HasUniqueNames : List A → Type 0
  HasUniqueNames [] = Unit
  HasUniqueNames (x ∷ l) = (has_name l (name x) ≡ false) × HasUniqueNames l

  pub has_name-lookup : (l : List A) (n : Text) → has_name l n ≡ is_present (lookup l n)
  has_name-lookup [] n = refl
  has_name-lookup (x ∷ l) n = ground (arith, has_name-lookup l n)

  -- An item behind another one has another name.
  behind :
      (x y : A) (l : List A)
      → has_name l (name x) ≡ false
      → lookup l (name y) ≡ some y
      → lookup (x ∷ l) (name y) ≡ some y
  behind x y l u e = elim (Bool-cases (text_eq (name x) (name y))) [
    | inl t ↦
        let same : name x ≡ name y = (text_eq_iff (name x) (name y)).0 t in
        let absent : is_present (lookup l (name y)) ≡ false =
          sym (has_name-lookup l (name y)) ∙ ap (has_name l) (sym same) ∙ u in
        let found : is_present (lookup l (name y)) ≡ true = rw e refl in ground arith
    | inr f ↦ rw f e
  ]

  -- What holds of each item that its own name finds holds of all.
  pub all-HasUniqueNames :
      (p : A → Bool) (l : List A)
      → HasUniqueNames l
      → ((x : A) → lookup l (name x) ≡ some x → p x ≡ true)
      → all p l ≡ true
  all-HasUniqueNames p [] u h = refl
  all-HasUniqueNames p (x ∷ l) u h =
      let first : p x ≡ true = h x (rw ((text_eq_iff (name x) (name x)).1 refl) refl) in
      rw first (all-HasUniqueNames p l u.1 (λ y e. h y (behind x y l u.0 e)))

  -- What holds of each name that is found holds of the name of every item.
  pub all-names :
      (p : Text → Bool) (l : List A)
      → ((n : Text) → is_present (lookup l n) ≡ true → p n ≡ true)
      → all (λ y. p (name y)) l ≡ true
  all-names p [] h = refl
  all-names p (y ∷ l) h =
      let first : p (name y) ≡ true =
        h (name y) (rw ((text_eq_iff (name y) (name y)).1 refl) refl) in
      rw first (all-names p l (λ n e. h n (ground arith)))

  abbrev pub maps_agree : (A → A → Bool) → List A → List A → Bool
  maps_agree ok a b =
      all (λ x. matches ok x (lookup b (name x))) a && all (λ y. has_name a (name y)) b

  -- The same names, with related items.
  abbrev pub SameMap : (A → A → Type 0) → List A → List A → Type 0
  SameMap R a b = (n : Text) → Entries R (lookup a n) (lookup b n)

  pub SameMap-maps_agree :
      (ok : A → A → Bool) (R : A → A → Type 0)
      → ((x y : A) → ok x y ≡ true → R x y)
      → (a b : List A) → maps_agree ok a b ≡ true
      → SameMap R a b
  SameMap-maps_agree ok R r a b h n = by_entries (lookup a n) (lookup b n) refl refl
    where
      related : (x : A) (o : Option A) → matches ok x o ≡ true → Entries R (some x) o
      related x none e = ground arith
      related x (some y) e = r x y e

      by_entries : (o o' : Option A) → lookup a n ≡ o → lookup b n ≡ o' → Entries R o o'
      by_entries none none e e' = tt
      by_entries none (some y) e e' =
          let every : all (λ z. has_name a (name z)) b ≡ true = ground arith in
          let (p, q) = all-find (λ z. has_name a (name z)) (λ z. text_eq (name z) n) b y every e' in
          let same : name y ≡ n = (text_eq_iff (name y) n).0 q in
          let here : has_name a n ≡ true = subst (λ m. has_name a m ≡ true) same p in
          let absent : has_name a n ≡ false = has_name-lookup a n ∙ ap is_present e in ground arith
      by_entries (some x) o' e e' =
          let every : all (λ z. matches ok z (lookup b (name z))) a ≡ true = ground arith in
          let (p, q) =
            all-find (λ z. matches ok z (lookup b (name z))) (λ z. text_eq (name z) n) a x every
              e in
          let same : name x ≡ n = (text_eq_iff (name x) n).0 q in
          related x o' (ap (matches ok x) (sym (ap (lookup b) same ∙ e')) ∙ p)

  pub maps_agree-SameMap :
      (ok : A → A → Bool) (R : A → A → Type 0) (a b : List A)
      → HasUniqueNames a
      → ((x y : A) → lookup a (name x) ≡ some x → R x y → ok x y ≡ true)
      → SameMap R a b
      → maps_agree ok a b ≡ true
  maps_agree-SameMap ok R a b u r h =
      let first : all (λ x. matches ok x (lookup b (name x))) a ≡ true =
        all-HasUniqueNames (λ x. matches ok x (lookup b (name x))) a u (λ x e. matched x e) in
      let second : all (λ y. has_name a (name y)) b ≡ true =
        all-names (has_name a) b (λ n e. has_name-lookup a n ∙ present n e) in
      rw first second
    where
      matched : (x : A) → lookup a (name x) ≡ some x → matches ok x (lookup b (name x)) ≡ true
      matched x e =
          by_entry (lookup b (name x)) (subst (λ o. Entries R o (lookup b (name x))) e (h (name x)))
        where
          by_entry : (o : Option A) → Entries R (some x) o → matches ok x o ≡ true
          by_entry none k = absurd k
          by_entry (some y) k = r x y e k

      present : (n : Text) → is_present (lookup b n) ≡ true → is_present (lookup a n) ≡ true
      present n = by_entry (lookup a n) (lookup b n) (h n)
        where
          by_entry : (o o' : Option A) → Entries R o o' → is_present o' ≡ true → is_present o ≡ true
          by_entry none none k e = e
          by_entry none (some y) k e = absurd k
          by_entry (some x) o' k e = refl
