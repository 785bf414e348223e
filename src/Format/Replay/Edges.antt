-- ===== src/Format/Replay/Edges.antt =====
-- The indegrees, the children, and what one visit does to them.
use dat.Prelude.{
  ℕ, zero, suc, ◌+◌, ◌≤◌, Bool, true, false, List, [], ◌∷◌, ◌++◌, Text, if◌then◌else◌, ◌&&◌, ◌||◌,
  ◌==◌, ◌≡◌, refl, sym, ap, ◌∙◌, arith, Bool-cases, inl, inr, text_eq, text_eq_iff,
}
use dat.Format.Replay.{
  has_text, count_in, children_in, indegree_of, children_of, decrement, lower, visit_kids,
}
use dat.Format.Replay.Counts.{tally, tally-append, text_eq_sym}

count_in_lem :
    (indegree : Text → ℕ) (es : List (Text × Text)) (n : Text)
    → count_in indegree es n ≡ indegree n + tally (λ e. text_eq n e.1) es
count_in_lem indegree [] n = omega arith
count_in_lem indegree ((parent, name) ∷ es) n =
    count_in_lem (λ m. if text_eq m name then indegree m + 1 else indegree m) es n ∙ ground arith

pub indegree_of_lem :
    (es : List (Text × Text)) (n : Text) → indegree_of es n ≡ tally (λ e. text_eq n e.1) es
unfolding indegree_of
indegree_of_lem es n = count_in_lem (λ _. 0) es n ∙ omega arith

children_in_lem :
    (q : Text → Bool) (children : Text → List Text) (es : List (Text × Text)) (p : Text)
    → tally q (children_in children es p)
      ≡ tally q (children p) + tally (λ e. text_eq p e.0 && q e.1) es
children_in_lem q children [] p = omega arith
children_in_lem q children ((parent, name) ∷ es) p =
    children_in_lem q (λ r. if text_eq r parent then children r ++ name ∷ [] else children r) es p
    ∙ elim (Bool-cases (text_eq p parent)) [
      | inl t ↦ rw t (ground (arith, tally-append q (children p) (name ∷ [])))
      | inr f ↦ rw f refl
    ]

pub children_of_lem :
    (q : Text → Bool) (es : List (Text × Text)) (p : Text)
    → tally q (children_of es p) ≡ tally (λ e. text_eq p e.0 && q e.1) es
unfolding children_of
children_of_lem q es p = children_in_lem q (λ _. []) es p ∙ omega arith

-- How often a name stands among the children.
abbrev pub among : Text → List Text → ℕ
among n kids = tally (text_eq n) kids

-- Each indegree is at least as large as the number of times that it will be lowered.
abbrev pub Enough : (Text → ℕ) → List Text → Type 0
Enough indegree kids = (n : Text) → among n kids ≤ indegree n

Enough-lower :
    (indegree : Text → ℕ) (kid : Text) (kids : List Text)
    → Enough indegree (kid ∷ kids)
    → Enough (lower indegree kid) kids
Enough-lower indegree kid kids h n = elim (Bool-cases (text_eq n kid)) [
  | inl t ↦ rw t (lowered (indegree n) (rw t at (h n)))
  | inr f ↦ rw f (rw f at (h n))
]
  where
    lowered : (d : ℕ) → suc (among n kids) ≤ d → among n kids ≤ decrement d
    lowered zero k = absurd (omega arith)
    lowered (suc d) k = omega arith

pub visit_kids-indegree :
    (indegree : Text → ℕ) (kids : List Text) (n : Text)
    → Enough indegree kids
    → (visit_kids indegree kids).0 n + among n kids ≡ indegree n
unfolding visit_kids
visit_kids-indegree indegree [] n h = omega arith
visit_kids-indegree indegree (kid ∷ kids) n h =
    let rest = visit_kids-indegree (lower indegree kid) kids n (Enough-lower indegree kid kids h) in
    elim (Bool-cases (text_eq n kid)) [
      | inl t ↦ rw t (raised _ (indegree n) (rw t at (h n)) (rw t at rest))
      | inr f ↦ rw f (rw f at rest)
    ]
  where
    raised :
        (left d : ℕ)
        → suc (among n kids) ≤ d
        → left + among n kids ≡ decrement d
        → left + suc (among n kids) ≡ d
    raised left zero k e = absurd (omega arith)
    raised left (suc d) k e = omega arith

pushed_if :
    (b : Bool) (kid n : Text) (l : List Text)
    → has_text (if b then kid ∷ l else l) n ≡ ((b && text_eq kid n) || has_text l n)
pushed_if true kid n l = ground arith
pushed_if false kid n l = ground arith

-- A name that is pushed has no parent left to wait for.
pub visit_kids-zero :
    (indegree : Text → ℕ) (kids : List Text) (n : Text)
    → Enough indegree kids
    → has_text (visit_kids indegree kids).1 n ≡ true
    → (visit_kids indegree kids).0 n ≡ 0
unfolding visit_kids
visit_kids-zero indegree [] n h k = ground arith
visit_kids-zero indegree (kid ∷ kids) n h k =
    let enough = Enough-lower indegree kid kids h in
    elim (Bool-cases (has_text (visit_kids (lower indegree kid) kids).1 n)) [
      | inl t ↦ visit_kids-zero (lower indegree kid) kids n enough t
      | inr f ↦
          let both = sym (pushed_if (decrement (indegree kid) == 0) kid n _) ∙ k in
          let here : text_eq kid n ≡ true = ground arith in
          let zero_left : decrement (indegree kid) ≡ 0 = ground arith in
          let same : kid ≡ n = (text_eq_iff kid n).0 here in
          let zero_here : decrement (indegree n) ≡ 0 =
            ap (λ m. decrement (indegree m)) (sym same) ∙ zero_left in
          let lowered : lower indegree kid n ≡ decrement (indegree n) =
            rw (text_eq_sym kid n here) refl in
          omega (arith, visit_kids-indegree (lower indegree kid) kids n enough, lowered, zero_here)
    ]

-- A name that is lowered to nothing is pushed.
pub visit_kids-pushed :
    (indegree : Text → ℕ) (kids : List Text) (n : Text)
    → Enough indegree kids
    → (visit_kids indegree kids).0 n ≡ 0
    → 1 ≤ among n kids
    → has_text (visit_kids indegree kids).1 n ≡ true
unfolding visit_kids
visit_kids-pushed indegree [] n h k e = absurd (omega arith)
visit_kids-pushed indegree (kid ∷ kids) n h k e =
    let enough = Enough-lower indegree kid kids h in
    let rest = visit_kids-pushed (lower indegree kid) kids n enough k in
    pushed_if (decrement (indegree kid) == 0) kid n _ ∙ elim (Bool-cases (text_eq n kid)) [
      | inl t ↦
          let lowered : lower indegree kid n ≡ decrement (indegree n) = rw t refl in
          let same : indegree n ≡ indegree kid = ap indegree ((text_eq_iff n kid).0 t) in
          let total = visit_kids-indegree (lower indegree kid) kids n enough in
          elim (Bool-cases (decrement (indegree kid) == 0)) [
            | inl z ↦ rw (z, text_eq_sym n kid t) refl
            | inr w ↦
                let left : among n kids ≡ decrement (indegree kid) =
                  omega (arith, total, k, lowered, ap decrement same) in
                ground (arith, rest (ground (arith, left)))
          ]
      | inr f ↦ ground (arith, rest (rw f at e))
    ]

-- Only children are pushed.
pub among-pushed :
    (indegree : Text → ℕ) (kids : List Text) (n : Text)
    → has_text (visit_kids indegree kids).1 n ≡ true
    → 1 ≤ among n kids
unfolding visit_kids
among-pushed indegree [] n k = ground arith
among-pushed indegree (kid ∷ kids) n k = elim (Bool-cases (text_eq n kid)) [
  | inl t ↦ rw t (omega arith)
  | inr f ↦
      let other : text_eq kid n ≡ false = not_sym f in
      let either = sym (pushed_if (decrement (indegree kid) == 0) kid n _) ∙ k in
      rw f (among-pushed (lower indegree kid) kids n (ground arith))
]
  where
    not_sym : text_eq n kid ≡ false → text_eq kid n ≡ false
    not_sym f = elim (Bool-cases (text_eq kid n)) [
      | inl t ↦ ground (arith, text_eq_sym kid n t)
      | inr g ↦ g
    ]
