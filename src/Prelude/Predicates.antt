-- ===== src/Prelude/Predicates.antt =====
-- Predicates on every element of a list: as types, by recursion, and as the Boolean `all`.
use dat.Prelude.{
  ◌⊎◌, List, [], ◌∷◌, ◌++◌, ℕ, zero, suc, set, erase_idx, take, all, Bool, true, ◌≡◌, refl, arith,
}

abbrev pub All {ℓ κ} : {A : Type ℓ} → (A → Type κ) → List A → Type κ
All P [] = Unit
All P (x ∷ xs) = P x × All P xs

-- Membership, as a type.
abbrev pub In : {A : Type 0} → A → List A → Type 0
In x [] = ⊥
In x (y ∷ l) = (x ≡ y) ⊎ In x l

pub All-take {ℓ κ} :
    {A : Type ℓ} (P : A → Type κ) (n : ℕ) (xs : List A) → All P xs → All P (take n xs)
All-take P zero xs h = tt
All-take P (suc n) [] h = tt
All-take P (suc n) (x ∷ xs) h = (h.0, All-take P n xs h.1)

module _ {ℓ} {A : Type ℓ} (p : A → Bool) where
  pub all-append : (xs ys : List A) → all p xs ≡ true → all p ys ≡ true → all p (xs ++ ys) ≡ true
  all-append [] ys h k = k
  all-append (x ∷ xs) ys h k = ground (arith, all-append xs ys)

  pub all-take : (n : ℕ) (xs : List A) → all p xs ≡ true → all p (take n xs) ≡ true
  all-take zero xs h = refl
  all-take (suc n) [] h = refl
  all-take (suc n) (x ∷ xs) h = ground (arith, all-take n xs)

  pub all-erase_idx : (xs : List A) (i : ℕ) → all p xs ≡ true → all p (erase_idx xs i) ≡ true
  all-erase_idx [] i h = refl
  all-erase_idx (x ∷ xs) zero h = ground arith
  all-erase_idx (x ∷ xs) (suc i) h = ground (arith, all-erase_idx xs i)

  pub all-set :
      (xs : List A) (i : ℕ) (v : A) → all p xs ≡ true → p v ≡ true → all p (set xs i v) ≡ true
  all-set [] i v h k = refl
  all-set (x ∷ xs) zero v h k = ground arith
  all-set (x ∷ xs) (suc i) v h k = ground (arith, all-set xs i v)
