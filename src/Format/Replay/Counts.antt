-- ===== src/Format/Replay/Counts.antt =====
-- Counting the elements of a list that pass a test.
use dat.Prelude.{
  ℕ, suc, ◌+◌, ◌≤◌, Bool, true, false, List, [], ◌∷◌, ◌++◌, Text, if◌then◌else◌, ◌&&◌, ◌||◌, not,
  ◌≡◌, refl, sym, ◌∙◌, arith, Bool-cases, inl, inr, text_eq, text_eq_iff,
}
use dat.Prelude.Predicates.{All}
use dat.Format.Replay.{has_text}

module _ {ℓ} {A : Type ℓ} where
  abbrev pub tally : (A → Bool) → List A → ℕ
  tally p [] = 0
  tally p (x ∷ l) = if p x then suc (tally p l) else tally p l

  pub tally-append : (p : A → Bool) (l r : List A) → tally p (l ++ r) ≡ tally p l + tally p r
  tally-append p [] r = omega arith
  tally-append p (x ∷ l) r = ground (arith, tally-append p l r)

  -- Where something is counted, there is an element that passes.
  pub tally-pos {κ} :
      (P : A → Type κ) (p : A → Bool) (l : List A)
      → All P l
      → 1 ≤ tally p l
      → (x : A) × P x × (p x ≡ true)
  tally-pos P p [] h k = absurd (omega arith)
  tally-pos P p (x ∷ l) h k = elim (Bool-cases (p x)) [
    | inl t ↦ (x, h.0, t)
    | inr f ↦ tally-pos P p l h.1 (rw f at k)
  ]

  -- Where nothing is counted, no element passes.
  pub All-tally : (p : A → Bool) (l : List A) → tally p l ≡ 0 → All (λ x. p x ≡ false) l
  All-tally p [] h = tt
  All-tally p (x ∷ l) h = elim (Bool-cases (p x)) [
    | inl t ↦ absurd (ground arith)
    | inr f ↦ (f, All-tally p l (sym (rw f refl) ∙ h))
  ]

  pub tally-ext : (p q : A → Bool) → ((x : A) → p x ≡ q x) → (l : List A) → tally p l ≡ tally q l
  tally-ext p q e [] = refl
  tally-ext p q e (x ∷ l) = rw (e x, tally-ext p q e l) refl

  -- A count, split by a second test.
  pub tally-split :
      (p q : A → Bool) (l : List A)
      → tally p l ≡ tally (λ x. q x && p x) l + tally (λ x. not (q x) && p x) l
  tally-split p q [] = refl
  tally-split p q (x ∷ l) = ground (arith, tally-split p q l)

pub has_text-push :
    (l : List Text) (x y : Text) → has_text (l ++ x ∷ []) y ≡ (has_text l y || text_eq x y)
has_text-push [] x y = ground arith
has_text-push (z ∷ l) x y = ground (arith, has_text-push l x y)

pub has_text-append :
    (l r : List Text) (y : Text) → has_text (l ++ r) y ≡ (has_text l y || has_text r y)
has_text-append [] r y = refl
has_text-append (z ∷ l) r y = ground (arith, has_text-append l r y)

pub text_eq_refl : (x : Text) → text_eq x x ≡ true
text_eq_refl x = (text_eq_iff x x).1 refl

pub text_eq_sym : (x y : Text) → text_eq x y ≡ true → text_eq y x ≡ true
text_eq_sym x y h = (text_eq_iff y x).1 (sym ((text_eq_iff x y).0 h))
