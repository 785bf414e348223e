-- ===== src/Assistant/Sse/Cut.antt =====
-- A text cut at its line feeds.
use dat.Prelude.{
  ℕ, suc, false, List, [], ◌∷◌, ◌++◌, Text, Option, none, some, ◌==◌, if◌then◌else◌, take, drop,
  position, behind, ◌≡◌, refl, sym, ◌∙◌, ap, Bool-cases, inl, inr,
}

-- A character before the first line, or before the rest if there is no line.
abbrev pub before : ℕ → List Text × Text → List Text × Text
before c ([], rest) = ([], c ∷ rest)
before c (line ∷ lines, rest) = ((c ∷ line) ∷ lines, rest)

-- One more line before the others.
abbrev pub ahead : Text → List Text × Text → List Text × Text
ahead line (lines, rest) = (line ∷ lines, rest)

-- The lines that a line feed ends, and what follows the last of them.
abbrev pub cut : Text → List Text × Text
cut [] = ([], [])
cut (c ∷ s) = if c == b'\n' then ahead [] (cut s) else before c (cut s)

abbrev pub join_cuts : List Text → List Text × Text → List Text × Text
join_cuts first (lines, rest) = (first ++ lines, rest)

before-join_cuts :
    (c : ℕ) (first : List Text) (line : Text) (p : List Text × Text)
    → before c (join_cuts (line ∷ first) p) ≡ join_cuts ((c ∷ line) ∷ first) p
before-join_cuts c first line (lines, rest) = refl

ahead-join_cuts :
    (line : Text) (first : List Text) (p : List Text × Text)
    → ahead line (join_cuts first p) ≡ join_cuts (line ∷ first) p
ahead-join_cuts line first (lines, rest) = refl

join_cuts_nil : (p : List Text × Text) → join_cuts [] p ≡ p
join_cuts_nil (lines, rest) = refl

before-ahead :
    (c : ℕ) (line : Text) (p : List Text × Text) → before c (ahead line p) ≡ ahead (c ∷ line) p
before-ahead c line (lines, rest) = refl

-- The text after `s` continues its rest.
pub cut-append : (s t : Text) → cut (s ++ t) ≡ join_cuts (cut s).0 (cut ((cut s).1 ++ t))
cut-append [] t = sym (join_cuts_nil (cut t))
cut-append (c ∷ s) t = elim (Bool-cases (c == b'\n')) [
  | inl e ↦ rw (e, cut-append s t) (ahead-join_cuts [] (cut s).0 _)
  | inr e ↦ rw e (ap (before c) (cut-append s t) ∙ continue c e (cut s) t)
]
  where
    continue :
        (c : ℕ)
        → (c == b'\n') ≡ false
        → (p : List Text × Text) (t : Text)
        → before c (join_cuts p.0 (cut (p.1 ++ t)))
          ≡ join_cuts (before c p).0 (cut ((before c p).1 ++ t))
    continue c e ([], rest) t = rw e (ap (before c) (join_cuts_nil _) ∙ sym (join_cuts_nil _))
    continue c e (line ∷ lines, rest) t = before-join_cuts c lines line _

abbrev pub cut_at : Text → Option ℕ → List Text × Text
cut_at s none = ([], s)
cut_at s (some i) = ahead (take i s) (cut (drop (suc i) s))

before-cut_at :
    (c : ℕ) (s : Text) (o : Option ℕ) → before c (cut_at s o) ≡ cut_at (c ∷ s) (behind o)
before-cut_at c s none = refl
before-cut_at c s (some i) = before-ahead c (take i s) _

-- The first line is what stands before the first line feed.
pub cut-position : (s : Text) → cut s ≡ cut_at s (position (λ b. b == b'\n') s)
cut-position [] = refl
cut-position (c ∷ s) = elim (Bool-cases (c == b'\n')) [
  | inl e ↦ rw e refl
  | inr e ↦ rw (e, cut-position s) (before-cut_at c s _)
]

-- The rest holds no line feed.
before-rest :
    (c : ℕ) (p : List Text × Text)
    → (c == b'\n') ≡ false
    → position (λ b. b == b'\n') p.1 ≡ none
    → position (λ b. b == b'\n') (before c p).1 ≡ none
before-rest c ([], rest) e h = rw (e, h) refl
before-rest c (line ∷ lines, rest) e h = h

pub position-cut : (s : Text) → position (λ b. b == b'\n') (cut s).1 ≡ none
position-cut [] = refl
position-cut (c ∷ s) = elim (Bool-cases (c == b'\n')) [
  | inl e ↦ rw e (position-cut s)
  | inr e ↦ rw e (before-rest c (cut s) e (position-cut s))
]
