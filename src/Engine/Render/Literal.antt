-- ===== src/Engine/Render/Literal.antt =====
-- Identifiers, literals and the escapes.
use dat.Prelude.{ℕ, true, false, [], ◌∷◌, ◌++◌, Text, codes, ◌==◌, if◌then◌else◌, Option, concat}
use dat.Prelude.Decimal.{decimal_ℤ}
use dat.Engine.Transform.{Scalar, null, bool, int, float, str, date, timestamp}

-- What the renderer takes from elsewhere: the `{:?}` form of an `f64`, given by its bits, and the
-- error of the crate `regex` on a pattern, `none` where the pattern compiles.
pub record Host : Type 0 where
  pub debug_f64 : ℕ → Text
  pub regex_error : Text → Option Text

-- `s.replace(q, "qq")`
unfoldable pub double : ℕ → Text → Text
double q [] = []
double q (c ∷ s) = if c == q then q ∷ q ∷ double q s else c ∷ double q s

unfoldable pub quote_ident : Text → Text
quote_ident name = b'"' ∷ (double b'"' name ++ b'"' ∷ [])

unfoldable pub escape_single_quote : Text → Text
escape_single_quote s = double b'\'' s

-- The characters that one character of the text becomes.
abbrev pub like_bytes : ℕ → Text
like_bytes c =
    if c == b'\\'
    then b'\\' ∷ b'\\' ∷ []
    else if c == b'%'
    then b'\\' ∷ b'%' ∷ []
    else if c == b'_'
    then b'\\' ∷ b'_' ∷ []
    else if c == b'\''
    then b'\'' ∷ b'\'' ∷ []
    else c ∷ []

unfoldable pub escape_like : Text → Text
escape_like [] = []
escape_like (c ∷ s) = like_bytes c ++ escape_like s

unfoldable pub render_scalar : Host → Scalar → Text
render_scalar h null = codes "NULL"
render_scalar h (bool true) = codes "TRUE"
render_scalar h (bool false) = codes "FALSE"
render_scalar h (int i) = decimal_ℤ i
render_scalar h (float f) = h.debug_f64 f
render_scalar h (str s) = concat (codes "'" ∷ escape_single_quote s ∷ codes "'" ∷ [])
render_scalar h (date s) = concat (codes "DATE '" ∷ escape_single_quote s ∷ codes "'" ∷ [])
render_scalar h (timestamp s) =
    concat (codes "TIMESTAMP '" ∷ escape_single_quote s ∷ codes "'" ∷ [])
