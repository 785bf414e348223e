-- ===== src/Query/Statement/Lexemes/Split.antt =====
-- The split of a printed sequence of lexemes.
use dat.Prelude.{
  ℕ, ◌+◌, Bool, true, false, List, [], ◌∷◌, ◌++◌, Text, Option, length, head?, ◌≡◌, refl, sym, ◌∙◌,
  ap, arith, Bool-cases, inl, inr, append-nil, append_assoc,
}
use mathlib.Core.Bool.{true≢false}
use dat.Prelude.Scan.{scan}
use dat.Query.Statement.Blank.{is_blank}
use dat.Query.Statement.{
  Span, normal, single_quote, double_quote, line_comment, slice, push_span, split_round,
  normal_round, finish, split_statements,
}
use dat.Query.Statement.Lexemes.{
  Lexeme, semicolon, plain, string, identifier, line, block, Ending, complete, open_string,
  open_identifier, open_line, open_block, put, put_ending, print, width, is_plain, is_lexeme,
  is_ending, IsLexed, segments, kept,
}
use dat.Query.Statement.Lexemes.Inside.{
  at, round, scan-round, body-closed, body-open, single_quote-IsClosedBy, double_quote-IsClosedBy,
  line_comment-IsClosedBy, block-closed, block-open,
}

abbrev is_semicolon : Lexeme → Bool
is_semicolon semicolon = true
is_semicolon _ = false

module _ (sql : Text) where
  push_span-kept :
      (spans l : List Span) (start end : ℕ)
      → push_span sql spans start end ++ kept sql l
        ≡ spans ++ kept sql (record { start = start; end = end } ∷ l)
  unfolding push_span
  push_span-kept spans l start end = elim (Bool-cases (is_blank (slice sql start end))) [
    | inl t ↦ rw t refl
    | inr f ↦ rw f (append_assoc spans _ _)
  ]

  -- Where a lexeme other than the semicolon leaves the scan.
  module _ (spans : List Span) (seg i : ℕ) where
    -- Where the scan goes on behind the lexeme.
    to :
        (n m : ℕ) (rest : Text)
        → n ≡ m
        → scan (round sql) false (at normal spans seg n) rest
          ≡ scan (round sql) false (at normal spans seg m) rest
    to n m rest e = ap (λ k. scan (round sql) false (at normal spans seg k) rest) e

    normal_round-plain :
        (c : ℕ) (next : Option ℕ)
        → is_plain c next ≡ true
        → normal_round sql (at normal spans seg i) c next ≡ (at normal spans seg (i + 1), false)
    unfolding normal_round
    normal_round-plain c next h = ground arith

    lexeme-scan :
        (x : Lexeme) (rest : Text)
        → is_semicolon x ≡ false
        → is_lexeme x (head? rest) ≡ true
        → scan (round sql) false (at normal spans seg i) (put x rest)
          ≡ scan (round sql) false (at normal spans seg (i + width x)) rest
    unfolding scan split_round normal_round
    lexeme-scan semicolon rest n h = absurd (true≢false n)
    lexeme-scan (plain c) rest n h =
        scan-round sql (at normal spans seg i) c rest (at normal spans seg (i + 1), false)
          (normal_round-plain c (head? rest) h)
    lexeme-scan (string body) rest n h =
        body-closed sql spans seg single_quote b'\'' (single_quote-IsClosedBy sql spans seg) body
          rest (i + 1) h
        ∙ to _ _ rest (omega arith)
    lexeme-scan (identifier body) rest n h =
        body-closed sql spans seg double_quote b'"' (double_quote-IsClosedBy sql spans seg) body
          rest (i + 1) h
        ∙ to _ _ rest (omega arith)
    lexeme-scan (line body) rest n h =
        body-closed sql spans seg line_comment b'\n' (line_comment-IsClosedBy sql spans seg) body
          rest (i + 2) h
        ∙ to _ _ rest (omega arith)
    lexeme-scan (block body) rest n h =
        block-closed sql spans seg body rest (i + 2) h ∙ to _ _ rest (omega arith)

    -- A form left open ends no statement.
    ending-scan :
        (e : Ending)
        → is_ending e ≡ true
        → finish sql (scan (round sql) false (at normal spans seg i) (put_ending e))
          ≡ push_span sql spans seg (length sql)
    unfolding scan split_round normal_round
    ending-scan complete h = refl
    ending-scan (open_string body) h = ap (finish sql) (
        body-open sql spans seg single_quote b'\'' (single_quote-IsClosedBy sql spans seg) body
          (i + 1) h)
    ending-scan (open_identifier body) h = ap (finish sql) (
        body-open sql spans seg double_quote b'"' (double_quote-IsClosedBy sql spans seg) body
          (i + 1) h)
    ending-scan (open_line body) h = ap (finish sql) (
        body-open sql spans seg line_comment b'\n' (line_comment-IsClosedBy sql spans seg) body
          (i + 2) h)
    ending-scan (open_block body) h = ap (finish sql) (block-open sql spans seg body (i + 2) h)

  split-kept :
      (ls : List Lexeme) (e : Ending) (spans : List Span) (seg i : ℕ)
      → IsLexed ls e
      → finish sql (scan (round sql) false (at normal spans seg i) (print ls e))
        ≡ spans ++ kept sql (segments (length sql) seg i ls)
  unfolding scan split_round normal_round
  split-kept [] e spans seg i k =
      ending-scan spans seg i e k
      ∙ sym (append-nil (push_span sql spans seg (length sql)))
      ∙ push_span-kept spans [] seg (length sql)
  split-kept (semicolon ∷ ls) e spans seg i k =
      split-kept ls e (push_span sql spans seg i) (i + 1) (i + 1) k.1
      ∙ push_span-kept spans (segments (length sql) (i + 1) (i + 1) ls) seg i
  split-kept (x ∷ ls) e spans seg i k =
      ap (finish sql) (lexeme-scan spans seg i x (print ls e) refl k.0)
      ∙ split-kept ls e spans seg (i + width x) k.1

-- However a buffer is written in lexemes, the spans are the segments between its semicolons that are
-- lexemes of their own, without the blank ones: no `;` in a string, an identifier or a comment ends a
-- statement, also where the last of these is left open, and every other `;` does.
pub split_statements-print :
    (ls : List Lexeme) (e : Ending)
    → IsLexed ls e
    → split_statements (print ls e) ≡ kept (print ls e) (segments (length (print ls e)) 0 0 ls)
unfolding split_statements
split_statements-print ls e k = split-kept (print ls e) ls e [] 0 0 k
