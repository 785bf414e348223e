-- ===== src/View/Model/Upsert/Single.antt =====
-- Lists with at most one element of a kind.
use dat.Prelude.{
  ℕ, suc, ◌≤◌, Bool, true, false, List, [], ◌∷◌, ◌++◌, Option, none, some, ◌≡◌, refl, arith,
  if◌then◌else◌, position, behind, set, Bool-cases, inl, inr, erase_idx, ◌<◌, length,
}
use dat.View.Model.Calls.{rposition, rfind, or_here}

module _ {ℓ} {A : Type ℓ} where
  -- The element at a position replaced, or one appended.
  abbrev pub put_at : List A → A → Option ℕ → List A
  put_at xs v none = xs ++ v ∷ []
  put_at xs v (some i) = set xs i v

  put_at-behind :
      (x : A) (xs : List A) (v : A) (o : Option ℕ)
      → put_at (x ∷ xs) v (behind o) ≡ x ∷ put_at xs v o
  put_at-behind x xs v none = refl
  put_at-behind x xs v (some i) = refl

  -- The element at a position taken out.
  abbrev pub erase_at : List A → Option ℕ → List A
  erase_at xs none = xs
  erase_at xs (some i) = erase_idx xs i

  erase_at-behind :
      (x : A) (xs : List A) (o : Option ℕ) → erase_at (x ∷ xs) (or_here o false) ≡ x ∷ erase_at xs o
  erase_at-behind x xs none = refl
  erase_at-behind x xs (some i) = refl

module _ {ℓ} {A : Type ℓ} (p : A → Bool) where
  abbrev pub count : List A → ℕ
  count [] = 0
  count (x ∷ xs) = if p x then suc (count xs) else count xs

  -- The elements of the other kinds.
  abbrev pub without : List A → List A
  without [] = []
  without (x ∷ xs) = if p x then without xs else x ∷ without xs

  -- The first element of the kind replaced, or one appended.
  abbrev pub put : List A → A → List A
  put [] v = v ∷ []
  put (x ∷ xs) v = if p x then v ∷ xs else x ∷ put xs v

  pub put_at-position : (xs : List A) (v : A) → put_at xs v (position p xs) ≡ put xs v
  put_at-position [] v = refl
  put_at-position (x ∷ xs) v = elim (Bool-cases (p x)) [
    | inl y ↦ rw y
    | inr n ↦ rw n (rw (put_at-behind x xs v (position p xs), put_at-position xs v))
  ]

  rfind-none : (xs : List A) → count xs ≡ 0 → rfind p xs ≡ none
  rfind-none [] h = refl
  rfind-none (x ∷ xs) h = ground (arith, rfind-none xs)

  pub rfind-put : (xs : List A) (v : A) → p v ≡ true → count xs ≤ 1 → rfind p (put xs v) ≡ some v
  rfind-put [] v e h = ground arith
  rfind-put (x ∷ xs) v e h = ground (arith, rfind-none xs, rfind-put xs v)

  pub without-put : (xs : List A) (v : A) → p v ≡ true → without (put xs v) ≡ without xs
  without-put [] v e = ground arith
  without-put (x ∷ xs) v e = ground (arith, without-put xs v)

  pub count-put : (xs : List A) (v : A) → p v ≡ true → count xs ≤ 1 → count (put xs v) ≡ 1
  count-put [] v e h = ground arith
  count-put (x ∷ xs) v e h = ground (arith, count-put xs v)

  without-none : (xs : List A) → count xs ≡ 0 → without xs ≡ xs
  without-none [] h = refl
  without-none (x ∷ xs) h = ground (arith, without-none xs)

  rposition-none : (xs : List A) → count xs ≡ 0 → rposition p xs ≡ none
  rposition-none [] h = refl
  rposition-none (x ∷ xs) h = ground (arith, rposition-none xs)

  pub erase_at-rposition : (xs : List A) → count xs ≤ 1 → erase_at xs (rposition p xs) ≡ without xs
  erase_at-rposition [] h = refl
  erase_at-rposition (x ∷ xs) h = elim (Bool-cases (p x)) [
    | inl y ↦
        let none_left : count xs ≡ 0 = ground arith in
        rw (y, rposition-none xs none_left) (rw (without-none xs none_left))
    | inr n ↦ rw n (rw (erase_at-behind x xs (rposition p xs), erase_at-rposition xs (rw n at h)))
  ]

  pub rfind-without : (xs : List A) → rfind p (without xs) ≡ none
  rfind-without [] = refl
  rfind-without (x ∷ xs) = ground (arith, rfind-without xs)

  lt-or_here :
      (o : Option ℕ) (b : Bool) (n i : ℕ)
      → ((j : ℕ) → o ≡ some j → j < n)
      → or_here o b ≡ some i
      → i < suc n
  lt-or_here none b n i h e = ground arith
  lt-or_here (some j) b n i h e = ground (arith, h j refl)

  pub lt-length-rposition : (xs : List A) (i : ℕ) → rposition p xs ≡ some i → i < length xs
  lt-length-rposition [] i e = cc
  lt-length-rposition (x ∷ xs) i e =
      lt-or_here (rposition p xs) (p x) (length xs) i (lt-length-rposition xs) e
