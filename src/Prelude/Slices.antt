-- ===== src/Prelude/Slices.antt =====
-- Elements of slices: of what `take` and `drop` leave.
use Prim.Native.Nat.{ℕ, zero, suc, ◌+◌, ◌≤◌, ◌<◌}
use mathlib.Core.Path.{◌≡◌, refl, ap, ◌∙◌}
use mathlib.Core.List.{List, [], ◌∷◌, nil≢cons, head-eq_of_cons-eq}
use mathlib.Core.Option.{Option, none, some}
use dat.Prelude.Chars.{Text}
use dat.Prelude.Tests.{◌==◌, if◌then◌else◌}
use native.Mathlib.Omega.{arith}
use dat.Prelude.Lists.{length, get_elem?, take, drop}

-- Where a list goes on behind its first elements.
abbrev pub tail {ℓ} : {A : Type ℓ} → List A → List A
tail [] = []
tail (x ∷ xs) = xs

module _ {ℓ} {A : Type ℓ} where
  drop-suc : (xs : List A) (i : ℕ) → drop (suc i) xs ≡ tail (drop i xs)
  drop-suc [] zero = refl
  drop-suc (x ∷ xs) zero = refl
  drop-suc [] (suc i) = refl
  drop-suc (x ∷ xs) (suc i) = drop-suc xs i

  pub drop-next : (xs : List A) (i j : ℕ) → j ≡ suc i → drop j xs ≡ tail (drop i xs)
  drop-next xs i j e = ap (λ n. drop n xs) e ∙ drop-suc xs i

  -- The element at the place where the rest begins.
  pub get_elem?-drop :
      (xs : List A) (i : ℕ) (x : A) (rest : List A)
      → drop i xs ≡ x ∷ rest
      → (get_elem? xs i ≡ some x) × (i < length xs)
  get_elem?-drop [] zero x rest e = absurd (nil≢cons e)
  get_elem?-drop [] (suc i) x rest e = absurd (nil≢cons e)
  get_elem?-drop (y ∷ xs) zero x rest e = (ap some (head-eq_of_cons-eq e), omega arith)
  get_elem?-drop (y ∷ xs) (suc i) x rest e =
      let (at, lt) = get_elem?-drop xs i x rest e in (at, omega arith)

  pub drop-beyond : (xs : List A) (n : ℕ) → length xs ≤ n → drop n xs ≡ []
  drop-beyond [] zero h = refl
  drop-beyond [] (suc n) h = refl
  drop-beyond (x ∷ xs) zero h = absurd (omega arith)
  drop-beyond (x ∷ xs) (suc n) h = drop-beyond xs n (omega arith)

  pub get_elem?-take : (xs : List A) (n i : ℕ) → i < n → get_elem? (take n xs) i ≡ get_elem? xs i
  get_elem?-take xs zero i h = absurd (omega arith)
  get_elem?-take [] (suc n) i h = refl
  get_elem?-take (x ∷ xs) (suc n) zero h = refl
  get_elem?-take (x ∷ xs) (suc n) (suc i) h = get_elem?-take xs n i (omega arith)

  pub get_elem?-drop_add :
      (xs : List A) (n i j : ℕ) → j ≡ n + i → get_elem? (drop n xs) i ≡ get_elem? xs j
  get_elem?-drop_add xs zero i j e = ap (get_elem? xs) (omega arith)
  get_elem?-drop_add [] (suc n) i j e = refl
  get_elem?-drop_add (x ∷ xs) (suc n) i zero e = absurd (omega arith)
  get_elem?-drop_add (x ∷ xs) (suc n) i (suc j) e = get_elem?-drop_add xs n i j (omega arith)

-- `s.strip_prefix(prefix)`
abbrev pub strip_prefix : Text → Text → Option Text
strip_prefix [] s = some s
strip_prefix (p ∷ prefix) [] = none
strip_prefix (p ∷ prefix) (c ∷ s) = if p == c then strip_prefix prefix s else none
