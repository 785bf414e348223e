-- ===== src/Prelude/Sorting.antt =====
-- A stable sort by a total order, as the standard library's `sort_by`, and the order of texts.
use dat.Prelude.{
  ℕ, ◌+◌, ◌==◌, ltb, Bool, true, false, ◌&&◌, List, [], ◌∷◌, Text, if◌then◌else◌, ◌≡◌, refl, ◌∙◌,
  ap, inl, inr, arith, Bool-cases,
}

abbrev pub text_leb : Text → Text → Bool
text_leb [] t = true
text_leb (a ∷ s) [] = false
text_leb (a ∷ s) (b ∷ t) = let rest = text_leb s t in if a == b then rest else ltb a b

pub text_leb-total : (s t : Text) → text_leb s t ≡ false → text_leb t s ≡ true
text_leb-total [] t h = ground arith
text_leb-total (a ∷ s) [] h = refl
text_leb-total (a ∷ s) (b ∷ t) h = ground (arith, h, text_leb-total s t)

module _ {A : Type 0} where
  abbrev pub weigh : (A → ℕ) → List A → ℕ
  weigh w [] = 0
  weigh w (x ∷ l) = w x + weigh w l

  -- How many elements pass a test.
  abbrev pub count_by : (A → Bool) → List A → ℕ
  count_by p l = weigh (λ x. if p x then 1 else 0) l

module _ {A : Type 0} (le : A → A → Bool) where
  abbrev pub insert_by : A → List A → List A
  insert_by x [] = x ∷ []
  insert_by x (y ∷ l) = let rest = insert_by x l in if le x y then x ∷ y ∷ l else y ∷ rest

  -- An element goes in front of those that compare equal: they stood behind it.
  abbrev pub sort_by : List A → List A
  sort_by [] = []
  sort_by (x ∷ l) = insert_by x (sort_by l)

  abbrev pub before : A → List A → Bool
  before x [] = true
  before x (y ∷ l) = le x y

  abbrev pub is_sorted : List A → Bool
  is_sorted [] = true
  is_sorted (x ∷ l) = before x l && is_sorted l

  weigh-insert_by : (w : A → ℕ) (x : A) (l : List A) → weigh w (insert_by x l) ≡ w x + weigh w l
  weigh-insert_by w x [] = refl
  weigh-insert_by w x (y ∷ l) = elim (Bool-cases (le x y)) [
    | inl e ↦ rw e refl
    | inr f ↦ rw (f, weigh-insert_by w x l) (omega arith)
  ]

  pub weigh-sort_by : (w : A → ℕ) (l : List A) → weigh w (sort_by l) ≡ weigh w l
  weigh-sort_by w [] = refl
  weigh-sort_by w (x ∷ l) = weigh-insert_by w x (sort_by l) ∙ ap (λ n. w x + n) (weigh-sort_by w l)

  pub count-sort_by : (p : A → Bool) (l : List A) → count_by p (sort_by l) ≡ count_by p l
  count-sort_by p l = weigh-sort_by (λ x. if p x then 1 else 0) l

  module _ (total : (x y : A) → le x y ≡ false → le y x ≡ true) where
    before-insert_by :
        (y x : A) (l : List A) → le y x ≡ true → before y l ≡ true → before y (insert_by x l) ≡ true
    before-insert_by y x [] h k = h
    before-insert_by y x (z ∷ l) h k = ground (arith, h, k)

    insert_by-is_sorted :
        (x : A) (l : List A) → is_sorted l ≡ true → is_sorted (insert_by x l) ≡ true
    insert_by-is_sorted x [] h = refl
    insert_by-is_sorted x (y ∷ l) h = elim (Bool-cases (le x y)) [
      | inl e ↦ rw e (ground (arith, e, h))
      | inr f ↦
          let b : before y l ≡ true = ground arith in
          let s : is_sorted l ≡ true = ground arith in
          rw f (ground (arith, before-insert_by y x l (total x y f) b, insert_by-is_sorted x l s))
    ]

    pub sort_by-is_sorted : (l : List A) → is_sorted (sort_by l) ≡ true
    sort_by-is_sorted [] = refl
    sort_by-is_sorted (x ∷ l) = insert_by-is_sorted x (sort_by l) (sort_by-is_sorted l)
