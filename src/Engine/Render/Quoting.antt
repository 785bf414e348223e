-- ===== src/Engine/Render/Quoting.antt =====
-- No text breaks out of the quotes that it is rendered in.
use dat.Prelude.{
  ℕ, true, false, List, [], ◌∷◌, ◌++◌, Text, ◌==◌, if◌then◌else◌, Option, none, some, ◌≡◌, ◌≢◌,
  refl, arith, head?, map, append_assoc, ap, Bool-cases, inl, inr,
}
use dat.Engine.Transform.{str}
use dat.Engine.Render.Literal.{
  Host, double, quote_ident, escape_single_quote, like_bytes, escape_like, render_scalar,
}

push : ℕ → Option (Text × Text) → Option (Text × Text)
push c none = none
push c (some (s, rest)) = some (c ∷ s, rest)

-- How SQL reads a quoted text behind its opening quote `q`: a doubled quote stands for one, a
-- single one ends the text. Gives the text and what follows it.
pub read_quoted : ℕ → Text → Option (Text × Text)
read_quoted q [] = none
read_quoted q (c ∷ []) = if c == q then some ([], []) else none
read_quoted q (c ∷ d ∷ rest) =
    let both = push q (read_quoted q rest) in
    let plain = push c (read_quoted q (d ∷ rest)) in
    if c == q then (if d == q then both else some ([], d ∷ rest)) else plain

read_quoted-plain :
    (q c : ℕ) (s : Text)
    → (c == q) ≡ false
    → s ≢ []
    → read_quoted q (c ∷ s) ≡ push c (read_quoted q s)
unfolding read_quoted
read_quoted-plain q c [] h n = absurd (n refl)
read_quoted-plain q c (d ∷ s) h n = rw h

append-cons-ne-nil : (s : Text) (c : ℕ) (t : Text) → s ++ c ∷ t ≢ []
append-cons-ne-nil [] c t = ground arith
append-cons-ne-nil (d ∷ s) c t = ground arith

read_quoted-end :
    (q : ℕ) (rest : Text) → head? rest ≢ some q → read_quoted q (q ∷ rest) ≡ some ([], rest)
unfolding read_quoted
read_quoted-end q [] h = ground arith
read_quoted-end q (d ∷ rest) h = ground arith

read_quoted-pair :
    (q c : ℕ) (s : Text) → (c == q) ≡ true → read_quoted q (q ∷ q ∷ s) ≡ push c (read_quoted q s)
unfolding read_quoted push
read_quoted-pair q c s h = ground arith

read_quoted-double :
    (q : ℕ) (s rest : Text)
    → head? rest ≢ some q
    → read_quoted q (double q s ++ q ∷ rest) ≡ some (s, rest)
unfolding double
read_quoted-double q [] rest h = read_quoted-end q rest h
read_quoted-double q (c ∷ s) rest h = elim (Bool-cases (c == q)) [
  | inl same ↦ rw same (
      rw (read_quoted-pair q c (double q s ++ q ∷ rest) same)
        (rw (read_quoted-double q s rest h) (unfold push in refl)))
  | inr other ↦ rw other (
      rw
        (read_quoted-plain q c (double q s ++ q ∷ rest) other
          (append-cons-ne-nil (double q s) q rest))
        (rw (read_quoted-double q s rest h) (unfold push in refl)))
]

-- What SQL reads behind the opening quote.
abbrev pub read_ident : Text → Option (Text × Text)
read_ident = read_quoted b'"'

abbrev pub read_string : Text → Option (Text × Text)
read_string = read_quoted b'\''

-- A quoted identifier, and a text literal, are read back as the name and the text, whatever
-- characters these hold, and the reader stops right behind the closing quote; where the SQL that
-- follows does not begin with another quote.
pub quote_round_trip :
    (h : Host) (s rest : Text)
    → head? rest ≢ some b'"'
    → head? rest ≢ some b'\''
    → (quote_ident s ++ rest ≡ b'"' ∷ (double b'"' s ++ b'"' ∷ rest))
      × (read_ident (double b'"' s ++ b'"' ∷ rest) ≡ some (s, rest))
      × ((body : Text) × (render_scalar h (str s) ++ rest ≡ b'\'' ∷ body)
          × (read_string body ≡ some (s, rest)))
unfolding quote_ident render_scalar escape_single_quote
quote_round_trip h s rest p q = (
  ap (b'"' ∷◌) (append_assoc (double b'"' s) (b'"' ∷ []) rest),
  read_quoted-double b'"' s rest p,
  (
    double b'\'' s ++ b'\'' ∷ rest,
    ap (b'\'' ∷◌) (append_assoc (double b'\'' s) (b'\'' ∷ []) rest),
    read_quoted-double b'\'' s rest q,
  ),
)

-- How LIKE reads a pattern with `ESCAPE '\'`.
data Token : Type 0 where
  any_run any_one : Token
  literal : ℕ → Token

abbrev token : ℕ → Token
token c = if c == b'%' then any_run else if c == b'_' then any_one else literal c

read_pattern : Text → List Token
read_pattern [] = []
read_pattern (c ∷ []) = token c ∷ []
read_pattern (c ∷ d ∷ p) =
    let escaped = literal d ∷ read_pattern p in
    let plain = token c ∷ read_pattern (d ∷ p) in if c == b'\\' then escaped else plain

-- The pattern that SQL reads from an escaped text.
pattern_bytes : ℕ → Text
pattern_bytes c =
    if c == b'\\'
    then b'\\' ∷ c ∷ []
    else if c == b'%'
    then b'\\' ∷ c ∷ []
    else if c == b'_'
    then b'\\' ∷ c ∷ []
    else c ∷ []

pattern_text : Text → Text
pattern_text [] = []
pattern_text (c ∷ s) = pattern_bytes c ++ pattern_text s

read_pattern-pattern_bytes :
    (c : ℕ) (p : Text) → read_pattern (pattern_bytes c ++ p) ≡ literal c ∷ read_pattern p
unfolding read_pattern pattern_bytes
read_pattern-pattern_bytes c [] = ground arith
read_pattern-pattern_bytes c (d ∷ p) = ground arith

read_pattern-pattern_text :
    (s p : Text) → read_pattern (pattern_text s ++ p) ≡ map literal s ++ read_pattern p
unfolding pattern_text
read_pattern-pattern_text [] p = refl
read_pattern-pattern_text (c ∷ s) p =
    simp (append_assoc, read_pattern-pattern_bytes, read_pattern-pattern_text s p)

read_quoted-like_bytes :
    (c : ℕ) (s t rest : Text)
    → s ≢ []
    → read_quoted b'\'' s ≡ some (t, rest)
    → read_quoted b'\'' (like_bytes c ++ s) ≡ some (pattern_bytes c ++ t, rest)
unfolding read_quoted push pattern_bytes
read_quoted-like_bytes c [] t rest n h = absurd (n refl)
read_quoted-like_bytes c (d ∷ s) t rest n h = ground arith

read_quoted-escape_like :
    (s rest : Text)
    → head? rest ≢ some b'\''
    → read_quoted b'\'' (escape_like s ++ b'\'' ∷ rest) ≡ some (pattern_text s, rest)
unfolding escape_like pattern_text
read_quoted-escape_like [] rest h = read_quoted-end b'\'' rest h
read_quoted-escape_like (c ∷ s) rest h = rw append_assoc (
    read_quoted-like_bytes c (escape_like s ++ b'\'' ∷ rest) (pattern_text s) rest
      (append-cons-ne-nil (escape_like s) b'\'' rest) (read_quoted-escape_like s rest h))
