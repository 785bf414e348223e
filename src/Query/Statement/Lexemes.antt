-- ===== src/Query/Statement/Lexemes.antt =====
-- A buffer as a sequence of lexemes: what a `;` means depends on where it stands.
pub mod Inside
pub mod Split
pub mod Lexer
pub mod Total
use dat.Prelude.{
  ℕ, ◌+◌, Bool, true, false, not, ◌&&◌, List, [], ◌∷◌, ◌++◌, Text, Option, none, some, ◌==◌, length,
  all, if◌then◌else◌, head?, ◌≡◌,
}
use dat.Query.Statement.Blank.{is_blank}
use dat.Query.Statement.{Span, slice, follows}

-- A `;` between statements, a byte of a statement, and the closed forms with their bodies: 'string',
-- "identifier", a comment to the end of the line, and a comment between /* and */.
pub data Lexeme : Type 0 where
  semicolon : Lexeme
  plain : ℕ → Lexeme
  string identifier line block : Text → Lexeme

-- What the buffer ends in: nothing, or one of the forms left open.
pub data Ending : Type 0 where
  complete : Ending
  open_string open_identifier open_line open_block : Text → Ending

-- The text of a lexeme, before what follows it.
abbrev pub put : Lexeme → Text → Text
put semicolon rest = b';' ∷ rest
put (plain c) rest = c ∷ rest
put (string body) rest = b'\'' ∷ (body ++ b'\'' ∷ rest)
put (identifier body) rest = b'"' ∷ (body ++ b'"' ∷ rest)
put (line body) rest = b'-' ∷ b'-' ∷ (body ++ b'\n' ∷ rest)
put (block body) rest = b'/' ∷ b'*' ∷ (body ++ b'*' ∷ b'/' ∷ rest)

abbrev pub width : Lexeme → ℕ
width semicolon = 1
width (plain c) = 1
width (string body) = length body + 2
width (identifier body) = length body + 2
width (line body) = length body + 3
width (block body) = length body + 4

abbrev pub put_ending : Ending → Text
put_ending complete = []
put_ending (open_string body) = b'\'' ∷ body
put_ending (open_identifier body) = b'"' ∷ body
put_ending (open_line body) = b'-' ∷ b'-' ∷ body
put_ending (open_block body) = b'/' ∷ b'*' ∷ body

abbrev pub print : List Lexeme → Ending → Text
print [] e = put_ending e
print (x ∷ ls) e = put x (print ls e)

abbrev pub lacks : ℕ → Text → Bool
lacks q body = all (λ c. not (c == q)) body

-- No `*/` in the body of a block comment.
abbrev pub stays_open : Text → Bool
stays_open [] = true
stays_open (c ∷ body) = if c == b'*' && follows (head? body) b'/' then false else stays_open body

-- A byte that opens none of the forms and ends no statement.
abbrev pub is_plain : ℕ → Option ℕ → Bool
is_plain c next =
    if c == b'\''
    then false
    else if c == b'"'
    then false
    else if c == b'-' && follows next b'-'
    then false
    else if c == b'/' && follows next b'*'
    then false
    else not (c == b';')

abbrev pub is_lexeme : Lexeme → Option ℕ → Bool
is_lexeme semicolon next = true
is_lexeme (plain c) next = is_plain c next
is_lexeme (string body) next = lacks b'\'' body
is_lexeme (identifier body) next = lacks b'"' body
is_lexeme (line body) next = lacks b'\n' body
is_lexeme (block body) next = stays_open body

abbrev pub is_ending : Ending → Bool
is_ending complete = true
is_ending (open_string body) = lacks b'\'' body
is_ending (open_identifier body) = lacks b'"' body
is_ending (open_line body) = lacks b'\n' body
is_ending (open_block body) = stays_open body

-- Every body ends at its first closing mark, and no plain byte opens a form.
abbrev pub IsLexed : List Lexeme → Ending → Type 0
IsLexed [] e = is_ending e ≡ true
IsLexed (x ∷ ls) e = (is_lexeme x (head? (print ls e)) ≡ true) × IsLexed ls e

-- The segments between the semicolons that are lexemes, in a text of `n` bytes.
abbrev pub segments : ℕ → ℕ → ℕ → List Lexeme → List Span
segments n start i [] = record { start = start; end = n } ∷ []
segments n start i (semicolon ∷ ls) =
    record { start = start; end = i } ∷ segments n (i + 1) (i + 1) ls
segments n start i (x ∷ ls) = segments n start (i + width x) ls

-- Those that are not blank.
abbrev pub kept : Text → List Span → List Span
kept sql [] = []
kept sql (s ∷ l) = if is_blank (slice sql s.start s.end) then kept sql l else s ∷ kept sql l
