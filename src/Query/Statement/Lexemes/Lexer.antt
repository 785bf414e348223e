-- ===== src/Query/Statement/Lexemes/Lexer.antt =====
-- Reading a buffer as lexemes, and how the forms grow.
use dat.Prelude.{
  ℕ, Bool, true, false, ◌&&◌, List, [], ◌∷◌, ◌++◌, Text, ◌==◌, if◌then◌else◌, head?, ◌≡◌, sym, ◌∙◌,
  ap, arith, append-nil,
}
use mathlib.Core.Path.{subst}
use dat.Prelude.Slices.{tail}
use dat.Query.Statement.{
  ScanState, normal, single_quote, double_quote, line_comment, block_comment, follows,
}
use dat.Query.Statement.Lexemes.{
  Lexeme, semicolon, plain, string, identifier, line, block, Ending, complete, open_string,
  open_identifier, open_line, open_block, print, stays_open, IsLexed,
}

abbrev pub Lexed : Type 0
Lexed = List Lexeme × Ending

-- A byte more at the front of the body that comes first.
abbrev pub grow : ℕ → Lexed → Lexed
grow c (string body ∷ ls, e) = (string (c ∷ body) ∷ ls, e)
grow c (identifier body ∷ ls, e) = (identifier (c ∷ body) ∷ ls, e)
grow c (line body ∷ ls, e) = (line (c ∷ body) ∷ ls, e)
grow c (block body ∷ ls, e) = (block (c ∷ body) ∷ ls, e)
grow c ([], open_string body) = ([], open_string (c ∷ body))
grow c ([], open_identifier body) = ([], open_identifier (c ∷ body))
grow c ([], open_line body) = ([], open_line (c ∷ body))
grow c ([], open_block body) = ([], open_block (c ∷ body))
grow c p = p

abbrev pub before : Lexeme → Lexed → Lexed
before x (ls, e) = (x ∷ ls, e)

-- `taken`: the first byte belongs to what came before.
unfoldable pub lex : Bool → ScanState → Text → Lexed
lex taken normal [] = ([], complete)
lex taken single_quote [] = ([], open_string [])
lex taken double_quote [] = ([], open_identifier [])
lex taken line_comment [] = ([], open_line [])
lex taken block_comment [] = ([], open_block [])
lex true m (c ∷ s) = lex false m s
lex false normal (c ∷ s) =
    if c == b'\''
    then lex false single_quote s
    else if c == b'"'
    then lex false double_quote s
    else if c == b'-' && follows (head? s) b'-'
    then lex true line_comment s
    else if c == b'/' && follows (head? s) b'*'
    then lex true block_comment s
    else if c == b';'
    then before semicolon (lex false normal s)
    else before (plain c) (lex false normal s)
lex false single_quote (c ∷ s) =
    if c == b'\''
    then before (string []) (lex false normal s)
    else grow c (lex false single_quote s)
lex false double_quote (c ∷ s) =
    if c == b'"'
    then before (identifier []) (lex false normal s)
    else grow c (lex false double_quote s)
lex false line_comment (c ∷ s) =
    if c == b'\n' then before (line []) (lex false normal s) else grow c (lex false line_comment s)
lex false block_comment (c ∷ s) =
    if c == b'*' && follows (head? s) b'/'
    then before (block []) (lex true normal s)
    else grow c (lex false block_comment s)

-- The text, with the mark before it that opened the form it begins within.
abbrev pub opened : ScanState → Text → Text
opened normal s = s
opened single_quote s = b'\'' ∷ s
opened double_quote s = b'"' ∷ s
opened line_comment s = b'-' ∷ b'-' ∷ s
opened block_comment s = b'/' ∷ b'*' ∷ s

-- That form comes first.
abbrev pub Begins : ScanState → Lexed → Type 0
Begins normal p = Unit
Begins single_quote (string _ ∷ _, _) = Unit
Begins single_quote ([], open_string _) = Unit
Begins double_quote (identifier _ ∷ _, _) = Unit
Begins double_quote ([], open_identifier _) = Unit
Begins line_comment (line _ ∷ _, _) = Unit
Begins line_comment ([], open_line _) = Unit
Begins block_comment (block _ ∷ _, _) = Unit
Begins block_comment ([], open_block _) = Unit
Begins _ _ = ⊥

pub record Lexes (m : ScanState) (s : Text) (p : Lexed) : Type 0 where
  pub begins : Begins m p
  pub printed : print p.0 p.1 ≡ opened m s
  pub lexed : IsLexed p.0 p.1

pub grow-string :
    (c : ℕ) (s : Text) (p : Lexed)
    → (c == b'\'') ≡ false
    → Lexes single_quote s p
    → Lexes single_quote (c ∷ s) (grow c p)
grow-string c s (string body ∷ ls, e) n k = record {
  begins = tt;
  printed = ap (λ t. b'\'' ∷ c ∷ tail t) k.printed;
  lexed = (rw n k.lexed.0, k.lexed.1);
}
grow-string c s ([], open_string body) n k = record {
  begins = tt;
  printed = ap (λ t. b'\'' ∷ c ∷ tail t) k.printed;
  lexed = rw n k.lexed;
}
grow-string c s _ n k = absurd k.begins

pub grow-identifier :
    (c : ℕ) (s : Text) (p : Lexed)
    → (c == b'"') ≡ false
    → Lexes double_quote s p
    → Lexes double_quote (c ∷ s) (grow c p)
grow-identifier c s (identifier body ∷ ls, e) n k = record {
  begins = tt;
  printed = ap (λ t. b'"' ∷ c ∷ tail t) k.printed;
  lexed = (rw n k.lexed.0, k.lexed.1);
}
grow-identifier c s ([], open_identifier body) n k = record {
  begins = tt;
  printed = ap (λ t. b'"' ∷ c ∷ tail t) k.printed;
  lexed = rw n k.lexed;
}
grow-identifier c s _ n k = absurd k.begins

pub grow-line :
    (c : ℕ) (s : Text) (p : Lexed)
    → (c == b'\n') ≡ false
    → Lexes line_comment s p
    → Lexes line_comment (c ∷ s) (grow c p)
grow-line c s (line body ∷ ls, e) n k = record {
  begins = tt;
  printed = ap (λ t. b'-' ∷ b'-' ∷ c ∷ tail (tail t)) k.printed;
  lexed = (rw n k.lexed.0, k.lexed.1);
}
grow-line c s ([], open_line body) n k = record {
  begins = tt;
  printed = ap (λ t. b'-' ∷ b'-' ∷ c ∷ tail (tail t)) k.printed;
  lexed = rw n k.lexed;
}
grow-line c s _ n k = absurd k.begins

-- A block's body that a byte at its front does not close.
stays_open-grow :
    (c : ℕ) (body rest s : Text)
    → body ++ rest ≡ s
    → (c == b'*' && follows (head? s) b'/') ≡ false
    → stays_open body ≡ true
    → stays_open (c ∷ body) ≡ true
stays_open-grow c [] rest s e n h = ground arith
stays_open-grow c (d ∷ body) rest s e n h =
    rw (subst (λ t. (c == b'*' && follows (head? t) b'/') ≡ false) (sym e) n) h

pub grow-block :
    (c : ℕ) (s : Text) (p : Lexed)
    → (c == b'*' && follows (head? s) b'/') ≡ false
    → Lexes block_comment s p
    → Lexes block_comment (c ∷ s) (grow c p)
grow-block c s (block body ∷ ls, e) n k = record {
  begins = tt;
  printed = ap (λ t. b'/' ∷ b'*' ∷ c ∷ tail (tail t)) k.printed;
  lexed = (stays_open-grow c body _ s (ap (λ t. tail (tail t)) k.printed) n k.lexed.0, k.lexed.1);
}
grow-block c s ([], open_block body) n k = record {
  begins = tt;
  printed = ap (λ t. b'/' ∷ b'*' ∷ c ∷ tail (tail t)) k.printed;
  lexed =
      stays_open-grow c body [] s (append-nil body ∙ ap (λ t. tail (tail t)) k.printed) n k.lexed;
}
grow-block c s _ n k = absurd k.begins
