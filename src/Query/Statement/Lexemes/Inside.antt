-- ===== src/Query/Statement/Lexemes/Inside.antt =====
-- The scan within a string, an identifier or a comment.
use dat.Prelude.{
  ℕ, ◌+◌, Bool, true, false, ◌&&◌, List, [], ◌∷◌, ◌++◌, Text, Option, ◌==◌, length, if◌then◌else◌,
  head?, ◌≡◌, refl, ◌∙◌, ap, arith,
}
use dat.Prelude.Scan.{scan}
use dat.Query.Statement.{
  Span, ScanState, Splitter, normal, single_quote, double_quote, line_comment, block_comment,
  split_round, follows,
}
use dat.Query.Statement.Lexemes.{lacks, stays_open}

abbrev pub at : ScanState → List Span → ℕ → ℕ → Splitter
at state spans seg_start i = record { state = state; spans = spans; seg_start = seg_start; i = i }

abbrev pub round : Text → Splitter → ℕ → Option ℕ → Splitter × Bool
round sql s = split_round sql s.state s

equals_itself : (q : ℕ) → (q == q) ≡ true
equals_itself q = ground arith

differs : (q c : ℕ) (body : Text) → lacks q (c ∷ body) ≡ true → (c == q) ≡ false
differs q c body h = ground arith

rest_lacks : (q c : ℕ) (body : Text) → lacks q (c ∷ body) ≡ true → lacks q body ≡ true
rest_lacks q c body h = ground arith

here_stays :
    (c : ℕ) (body : Text)
    → stays_open (c ∷ body) ≡ true
    → (c == b'*' && follows (head? body) b'/') ≡ false
here_stays c body h = ground arith

rest_stays : (c : ℕ) (body : Text) → stays_open (c ∷ body) ≡ true → stays_open body ≡ true
rest_stays c body h = ground arith

-- The closing mark does not make the body's last byte close it.
stays :
    (c : ℕ) (body rest : Text)
    → stays_open (c ∷ body) ≡ true
    → (c == b'*' && follows (head? (body ++ b'*' ∷ b'/' ∷ rest)) b'/') ≡ false
stays c [] rest h = ground arith
stays c (d ∷ body) rest h = here_stays c (d ∷ body) h

-- One round of the scan.
pub scan-round :
    (sql : Text) (s : Splitter) (c : ℕ) (rest : Text) (out : Splitter × Bool)
    → round sql s c (head? rest) ≡ out
    → scan (round sql) false s (c ∷ rest) ≡ scan (round sql) out.1 out.0 rest
unfolding scan
scan-round sql s c rest out e = ap (λ o. scan (round sql) o.1 o.0 rest) e

module _ (sql : Text) (spans : List Span) (seg : ℕ) where
  -- A state that only the byte `q` ends.
  abbrev IsClosedBy : ScanState → ℕ → Type 0
  IsClosedBy m q =
      (i c : ℕ) (next : Option ℕ)
      → split_round sql m (at m spans seg i) c next
        ≡ (at (if c == q then normal else m) spans seg (i + 1), false)

  module _ (m : ScanState) (q : ℕ) (closed : IsClosedBy m q) where
    pub body-closed :
        (body rest : Text) (i : ℕ)
        → lacks q body ≡ true
        → scan (round sql) false (at m spans seg i) (body ++ q ∷ rest)
          ≡ scan (round sql) false (at normal spans seg (i + length body + 1)) rest
    unfolding scan
    body-closed [] rest i h =
        scan-round sql (at m spans seg i) q rest (at normal spans seg (i + 1), false)
          (closed i q (head? rest) ∙ rw (equals_itself q) refl)
        ∙ ap (λ k. scan (round sql) false (at normal spans seg k) rest) (omega arith)
    body-closed (c ∷ body) rest i h =
        scan-round sql (at m spans seg i) c (body ++ q ∷ rest) (at m spans seg (i + 1), false)
          (closed i c (head? (body ++ q ∷ rest)) ∙ rw (differs q c body h) refl)
        ∙ body-closed body rest (i + 1) (rest_lacks q c body h)
        ∙ ap (λ k. scan (round sql) false (at normal spans seg k) rest) (omega arith)

    pub body-open :
        (body : Text) (i : ℕ)
        → lacks q body ≡ true
        → scan (round sql) false (at m spans seg i) body ≡ at m spans seg (i + length body)
    unfolding scan
    body-open [] i h = ap (at m spans seg) (omega arith)
    body-open (c ∷ body) i h =
        scan-round sql (at m spans seg i) c body (at m spans seg (i + 1), false)
          (closed i c (head? body) ∙ rw (differs q c body h) refl)
        ∙ body-open body (i + 1) (rest_lacks q c body h)
        ∙ ap (at m spans seg) (omega arith)

  pub single_quote-IsClosedBy : IsClosedBy single_quote b'\''
  unfolding split_round
  single_quote-IsClosedBy i c next = refl

  pub double_quote-IsClosedBy : IsClosedBy double_quote b'"'
  unfolding split_round
  double_quote-IsClosedBy i c next = refl

  pub line_comment-IsClosedBy : IsClosedBy line_comment b'\n'
  unfolding split_round
  line_comment-IsClosedBy i c next = refl

  -- A block comment, ended by two bytes.
  pub block-closed :
      (body rest : Text) (i : ℕ)
      → stays_open body ≡ true
      → scan (round sql) false (at block_comment spans seg i) (body ++ b'*' ∷ b'/' ∷ rest)
        ≡ scan (round sql) false (at normal spans seg (i + length body + 2)) rest
  unfolding scan split_round
  block-closed [] rest i h =
      ap (λ k. scan (round sql) false (at normal spans seg k) rest) (omega arith)
  block-closed (c ∷ body) rest i h =
      scan-round sql (at block_comment spans seg i) c (body ++ b'*' ∷ b'/' ∷ rest)
        (at block_comment spans seg (i + 1), false) (rw (stays c body rest h) refl)
      ∙ block-closed body rest (i + 1) (rest_stays c body h)
      ∙ ap (λ k. scan (round sql) false (at normal spans seg k) rest) (omega arith)

  pub block-open :
      (body : Text) (i : ℕ)
      → stays_open body ≡ true
      → scan (round sql) false (at block_comment spans seg i) body
        ≡ at block_comment spans seg (i + length body)
  unfolding scan split_round
  block-open [] i h = ap (at block_comment spans seg) (omega arith)
  block-open (c ∷ body) i h =
      scan-round sql (at block_comment spans seg i) c body
        (at block_comment spans seg (i + 1), false) (rw (here_stays c body h) refl)
      ∙ block-open body (i + 1) (rest_stays c body h)
      ∙ ap (at block_comment spans seg) (omega arith)
