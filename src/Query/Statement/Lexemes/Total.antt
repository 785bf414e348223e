-- ===== src/Query/Statement/Lexemes/Total.antt =====
-- Every buffer is a sequence of lexemes.
use dat.Prelude.{
  ℕ, Bool, true, false, ◌&&◌, List, [], ◌∷◌, Text, Option, ◌==◌, length, head?, ◌≡◌, refl, sym, ◌∙◌,
  ap, ap₂, arith, Bool-cases, inl, inr,
}
use mathlib.Core.Bool.{true≢false}
use mathlib.Core.Path.{subst}
use dat.Prelude.Slices.{tail}
use dat.Query.Statement.{
  ScanState, normal, single_quote, double_quote, line_comment, block_comment, follows,
  split_statements,
}
use dat.Query.Statement.Lexemes.{
  Lexeme, semicolon, plain, string, identifier, line, block, Ending, put, is_lexeme, print,
  is_plain, IsLexed, segments, kept,
}
use dat.Query.Statement.Cuts.{by_test}
use dat.Query.Statement.Lexemes.Split.{split_statements-print}
use dat.Query.Statement.Lexemes.Lexer.{
  Lexed, before, lex, opened, Begins, Lexes, grow-string, grow-identifier, grow-line, grow-block,
}

-- A lexeme that ends right before a text.
before-Lexes :
    (m : ScanState) (x : Lexeme) (t s : Text) (p : Lexed)
    → Begins m (before x p)
    → (put x s ≡ opened m t)
    → is_lexeme x (head? s) ≡ true
    → Lexes normal s p
    → Lexes m t (before x p)
before-Lexes m x t s p b q i k = record {
  begins = b;
  printed = ap (put x) k.printed ∙ q;
  lexed = (ap (λ u. is_lexeme x (head? u)) k.printed ∙ i, k.lexed);
}

-- A form that is opened is a text outside of the forms.
outside : (m : ScanState) (s : Text) (p : Lexed) → Lexes m s p → Lexes normal (opened m s) p
outside m s p k = record { begins = tt; printed = k.printed; lexed = k.lexed }

-- What is left behind the bytes taken.
abbrev skip : Bool → Text → Text
skip false s = s
skip true s = tail s

empty-Lexes : (taken : Bool) (m : ScanState) → Lexes m [] (lex taken m [])
unfolding lex
empty-Lexes taken normal = record { begins = tt; printed = refl; lexed = refl }
empty-Lexes taken single_quote = record { begins = tt; printed = refl; lexed = refl }
empty-Lexes taken double_quote = record { begins = tt; printed = refl; lexed = refl }
empty-Lexes taken line_comment = record { begins = tt; printed = refl; lexed = refl }
empty-Lexes taken block_comment = record { begins = tt; printed = refl; lexed = refl }

followed : (s : Text) (d : ℕ) → follows (head? s) d ≡ true → s ≡ d ∷ tail s
followed [] d h = absurd (true≢false (sym h))
followed (c ∷ s) d h = ap (λ e. e ∷ s) (ground arith)

equal : (c d : ℕ) → (c == d) ≡ true → c ≡ d
equal c d e = ground arith

pair :
    (c x d : ℕ) (s : Text)
    → (c == x && follows (head? s) d) ≡ true
    → (f : Text → Text) → f (x ∷ d ∷ tail s) ≡ f (c ∷ s)
pair c x d s h f = ap f (
    ap₂ (λ e t. e ∷ t) (sym (equal c x (both (c == x) _ h).0))
      (sym (followed s d (both (c == x) _ h).1)))
  where
    both : (a b : Bool) → (a && b) ≡ true → (a ≡ true) × (b ≡ true)
    both true b h = (refl, h)
    both false b h = absurd (true≢false (sym h))

-- A byte that opens a form, and the form.
opening :
    (m : ScanState) (c : ℕ) (s t : Text) (p : Lexed)
    → opened m t ≡ c ∷ s
    → Lexes m t p
    → Lexes normal (c ∷ s) p
opening m c s t p e k = subst (λ u. Lexes normal u p) e (outside m t p k)

is_plain_lem :
    (c : ℕ) (next : Option ℕ)
    → (c == b'\'') ≡ false
    → (c == b'"') ≡ false
    → (c == b'-' && follows next b'-') ≡ false
    → (c == b'/' && follows next b'*') ≡ false
    → (c == b';') ≡ false
    → is_plain c next ≡ true
is_plain_lem c next a b d e f = rw (a, b, d, e, f) refl

lex-Lexes : (taken : Bool) (m : ScanState) (s : Text) → Lexes m (skip taken s) (lex taken m s)
unfolding lex
lex-Lexes false m [] = empty-Lexes false m
lex-Lexes true m [] = empty-Lexes true m
lex-Lexes true m (c ∷ s) = lex-Lexes false m s
lex-Lexes false single_quote (c ∷ s) = elim (Bool-cases (c == b'\'')) [
  | inl e ↦ rw e (
      before-Lexes single_quote (string []) _ s _ tt
        (ap (λ d. b'\'' ∷ d ∷ s) (sym (equal c b'\'' e))) refl (lex-Lexes false normal s))
  | inr n ↦ rw n (grow-string c s _ n (lex-Lexes false single_quote s))
]
lex-Lexes false double_quote (c ∷ s) = elim (Bool-cases (c == b'"')) [
  | inl e ↦ rw e (
      before-Lexes double_quote (identifier []) _ s _ tt
        (ap (λ d. b'"' ∷ d ∷ s) (sym (equal c b'"' e))) refl (lex-Lexes false normal s))
  | inr n ↦ rw n (grow-identifier c s _ n (lex-Lexes false double_quote s))
]
lex-Lexes false line_comment (c ∷ s) = elim (Bool-cases (c == b'\n')) [
  | inl e ↦ rw e (
      before-Lexes line_comment (line []) _ s _ tt
        (ap (λ d. b'-' ∷ b'-' ∷ d ∷ s) (sym (equal c b'\n' e))) refl (lex-Lexes false normal s))
  | inr n ↦ rw n (grow-line c s _ n (lex-Lexes false line_comment s))
]
lex-Lexes false block_comment (c ∷ s) = elim (Bool-cases (c == b'*' && follows (head? s) b'/')) [
  | inl e ↦ rw e (
      before-Lexes block_comment (block []) _ (tail s) _ tt
        (pair c b'*' b'/' s e (λ t. b'/' ∷ b'*' ∷ t)) refl (lex-Lexes true normal s))
  | inr n ↦ rw n (grow-block c s _ n (lex-Lexes false block_comment s))
]
lex-Lexes false normal (c ∷ s) =
    by_test (Lexes normal (c ∷ s)) (c == b'\'') _ _
      (λ e.
        opening single_quote c s s _ (ap (λ d. d ∷ s) (sym (equal c b'\'' e)))
          (lex-Lexes false single_quote s))
      (λ n1.
        by_test (Lexes normal (c ∷ s)) (c == b'"') _ _
          (λ e.
            opening double_quote c s s _ (ap (λ d. d ∷ s) (sym (equal c b'"' e)))
              (lex-Lexes false double_quote s))
          (λ n2.
            by_test (Lexes normal (c ∷ s)) (c == b'-' && follows (head? s) b'-') _ _
              (λ e.
                opening line_comment c s (tail s) _ (pair c b'-' b'-' s e (λ t. t))
                  (lex-Lexes true line_comment s))
              (λ n3.
                by_test (Lexes normal (c ∷ s)) (c == b'/' && follows (head? s) b'*') _ _
                  (λ e.
                    opening block_comment c s (tail s) _ (pair c b'/' b'*' s e (λ t. t))
                      (lex-Lexes true block_comment s))
                  (λ n4.
                    by_test (Lexes normal (c ∷ s)) (c == b';') _ _
                      (λ e.
                        before-Lexes normal semicolon (c ∷ s) s _ tt
                          (ap (λ d. d ∷ s) (sym (equal c b';' e))) refl (lex-Lexes false normal s))
                      (λ n5.
                        before-Lexes normal (plain c) (c ∷ s) s _ tt refl
                          (is_plain_lem c (head? s) n1 n2 n3 n4 n5) (lex-Lexes false normal s))))))

-- Every buffer is written in lexemes, and its spans are the segments between its semicolons that are
-- lexemes of their own, without the blank ones: no `;` in a string, an identifier or a comment ends a
-- statement, also where the last of these is left open, and every other `;` does.
pub split_statements-lexemes :
    (sql : Text)
    → (ls : List Lexeme) × (e : Ending) × IsLexed ls e
      × (print ls e ≡ sql)
      × (split_statements sql ≡ kept sql (segments (length sql) 0 0 ls))
split_statements-lexemes sql =
    let (ls, e) = lex false normal sql in
    let k = lex-Lexes false normal sql in
    (
      ls,
      e,
      k.lexed,
      k.printed,
      subst (λ t. split_statements t ≡ kept t (segments (length t) 0 0 ls)) k.printed
          (split_statements-print ls e k.lexed),
    )
