-- ===== src/Grid/Selection/Merged.antt =====
-- The merged spans hold each selected row once, ascending.
use dat.Prelude.{
  ℕ, suc, ◌^◌, ◌≤◌, ◌<◌, Bool, true, ◌&&◌, List, [], ◌∷◌, ◌++◌, leb, if◌then◌else◌, max, any, ◌≡◌,
  refl, ap, ◌∙◌, arith, Bool-cases, inl, inr, append_assoc,
}
use mathlib.Core.List.{reverse, reverse-cons}
use dat.Prelude.Predicates.{All}
use dat.Grid.Selection.Spans.{Span, span_le, insert_span, sort_spans, saturating_add, merge_spans}

abbrev pub holds : ℕ → Span → Bool
holds r (a, b) = leb a r && leb r b

abbrev pub covers : ℕ → List Span → Bool
covers r l = any (holds r) l

any-insert : (r : ℕ) (s : Span) (l : List Span) → covers r (insert_span s l) ≡ covers r (s ∷ l)
unfolding insert_span
any-insert r s [] = refl
any-insert r s (t ∷ l) = elim (Bool-cases (span_le s t)) [
  | inl y ↦ rw y
  | inr n ↦ rw n (rw (any-insert r s l) (ground arith))
]

any-sort : (r : ℕ) (l : List Span) → covers r (sort_spans l) ≡ covers r l
unfolding sort_spans
any-sort r [] = refl
any-sort r (s ∷ l) = any-insert r s (sort_spans l) ∙ rw (any-sort r l)

-- What the loop does, from the last merged span on.
forward : Span → List Span → List Span
forward cur [] = cur ∷ []
forward (x, end) ((a, b) ∷ l) =
    let wide = forward (x, max end b) l in
    let next = (x, end) ∷ forward (a, b) l in if leb a (saturating_add end 1) then wide else next

merge_spans-forward :
    (cur : Span) (below l : List Span)
    → merge_spans (cur ∷ below) l ≡ reverse below ++ forward cur l
unfolding merge_spans forward
merge_spans-forward cur below [] = reverse-cons cur below
merge_spans-forward (x, end) below ((a, b) ∷ l) = elim (Bool-cases (leb a (saturating_add end 1))) [
  | inl y ↦ rw y (merge_spans-forward (x, max end b) below l)
  | inr n ↦ rw n (
      merge_spans-forward (a, b) ((x, end) ∷ below) l
      ∙ rw (reverse-cons (x, end) below, append_assoc))
]

merge_spans-first : (a b : ℕ) (l : List Span) → merge_spans [] ((a, b) ∷ l) ≡ forward (a, b) l
unfolding merge_spans
merge_spans-first a b l = merge_spans-forward (a, b) [] l

-- Spans that begin no earlier than `x`, in the order of their beginnings, and lie below 2^63.
abbrev pub FromOn : ℕ → List Span → Type 0
FromOn x [] = Unit
FromOn x ((a, b) ∷ l) = (x ≤ a) × (a ≤ b) × (b < 2 ^ 63) × FromOn a l

FromOn-le : (x a : ℕ) (l : List Span) → x ≤ a → FromOn a l → FromOn x l
FromOn-le x a [] p h = tt
FromOn-le x a ((c, d) ∷ l) p h = (omega arith, h.1, h.2, h.3)

-- Spans with a gap before each.
abbrev pub Apart : ℕ → List Span → Type 0
Apart x [] = Unit
Apart x ((a, b) ∷ l) = (x ≤ a) × (a ≤ b) × (b < 2 ^ 63) × Apart (suc b) l

Apart-forward :
    (n x end : ℕ) (l : List Span)
    → n ≤ x
    → x ≤ end
    → end < 2 ^ 63
    → FromOn x l
    → Apart n (forward (x, end) l)
unfolding forward
Apart-forward n x end [] p q r h = (p, q, r, tt)
Apart-forward n x end ((a, b) ∷ l) p q r h = elim (Bool-cases (leb a (saturating_add end 1))) [
  | inl touch ↦
      rw touch
        (Apart-forward n x (max end b) l p (omega arith) (omega arith) (FromOn-le x a l h.0 h.3))
  | inr apart ↦ rw apart (p, q, r, Apart-forward (suc end) a b l (ground arith) h.1 h.2 h.3)
]

-- A span joined with one that overlaps or touches it.
holds-max :
    (r x end a b : ℕ) (rest : Bool)
    → x ≤ a
    → a ≤ b
    → leb a (saturating_add end 1) ≡ true
    → (if holds r (x, max end b) then true else rest)
      ≡ (if holds r (x, end) then true else if holds r (a, b) then true else rest)
holds-max r x end a b rest p q t = ground arith

covers-forward :
    (r x end : ℕ) (l : List Span)
    → FromOn x l
    → covers r (forward (x, end) l) ≡ covers r ((x, end) ∷ l)
unfolding forward
covers-forward r x end [] h = refl
covers-forward r x end ((a, b) ∷ l) h = elim (Bool-cases (leb a (saturating_add end 1))) [
  | inl touch ↦ rw touch (
      covers-forward r x (max end b) l (FromOn-le x a l h.0 h.3)
      ∙ holds-max r x end a b (covers r l) h.0 h.1 touch)
  | inr apart ↦
      rw apart (ap (λ rest. if holds r (x, end) then true else rest) (covers-forward r a b l h.3))
]

-- Sorting gives spans in the order of their beginnings.
abbrev pub AllSized : List Span → Type 0
AllSized l = All (λ s. (s.0 ≤ s.1) × (s.1 < 2 ^ 63)) l

FromOn-insert :
    (x a b : ℕ) (l : List Span)
    → x ≤ a
    → a ≤ b
    → b < 2 ^ 63
    → FromOn x l
    → FromOn x (insert_span (a, b) l)
unfolding insert_span
FromOn-insert x a b [] p q r h = (p, q, r, tt)
FromOn-insert x a b ((c, d) ∷ l) p q r h = elim (Bool-cases (span_le (a, b) (c, d))) [
  | inl before ↦ rw before (p, q, r, (ground arith, h.1, h.2, h.3))
  | inr behind ↦ rw behind (h.0, h.1, h.2, FromOn-insert c a b l (ground arith) q r h.3)
]

FromOn-sort : (l : List Span) → AllSized l → FromOn 0 (sort_spans l)
unfolding sort_spans
FromOn-sort [] h = tt
FromOn-sort ((a, b) ∷ l) h =
    FromOn-insert 0 a b (sort_spans l) (omega arith) h.0.0 h.0.1 (FromOn-sort l h.1)

-- The merged spans: apart from one another, and covering what the given ones cover.
pub merge_spans-sort :
    (l : List Span)
    → AllSized l
    → Apart 0 (merge_spans [] (sort_spans l))
      × ((r : ℕ) → covers r (merge_spans [] (sort_spans l)) ≡ covers r l)
merge_spans-sort l h = by_sorted (sort_spans l) (FromOn-sort l h) (λ r. any-sort r l)
  where
    by_sorted :
        (sorted : List Span)
        → FromOn 0 sorted
        → ((r : ℕ) → covers r sorted ≡ covers r l)
        → Apart 0 (merge_spans [] sorted)
          × ((r : ℕ) → covers r (merge_spans [] sorted) ≡ covers r l)
    by_sorted [] f c = unfold merge_spans in (tt, c)
    by_sorted ((a, b) ∷ rest) f c =
        rw (merge_spans-first a b rest)
          (Apart-forward 0 a b rest f.0 f.1 f.2 f.3, λ r. covers-forward r a b rest f.3 ∙ c r)
