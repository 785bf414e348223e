-- ===== src/Prelude/Parsing.antt =====
-- `str::parse::<i64>` on decimal texts.
use dat.Prelude.{
  ℕ, zero, suc, ◌^◌, ◌≡◌, refl, ◌∙◌, [], ◌∷◌, arith, ltb, ◌==◌, Bool, true, if◌then◌else◌, Text, ℤ,
  pos, negsuc, Option, none, some,
}
use dat.Prelude.Decimal.{
  decimal, decimal_ℤ, parse_digits, parse_digits-decimal, IsNonempty, decimal-IsNonempty,
}

-- The digits after the sign; an empty text is no number.
abbrev parse_magnitude : Text → Option ℕ
parse_magnitude [] = none
parse_magnitude (c ∷ s) = parse_digits 0 (c ∷ s)

-- The number behind a minus sign, at most 2 ^ 63 of it.
abbrev negated : Option ℕ → Option ℤ
negated none = none
negated (some zero) = some (pos 0)
negated (some (suc n)) = if ltb n (2 ^ 63) then some (negsuc n) else none

abbrev unsigned : Option ℕ → Option ℤ
unsigned none = none
unsigned (some n) = if ltb n (2 ^ 63) then some (pos n) else none

unfoldable pub parse_i64 : Text → Option ℤ
parse_i64 [] = none
parse_i64 (c ∷ s) =
    if c == b'-'
    then negated (parse_magnitude s)
    else if c == b'+'
    then unsigned (parse_magnitude s)
    else unsigned (parse_digits 0 (c ∷ s))

abbrev pub is_i64 : ℤ → Bool
is_i64 (pos n) = ltb n (2 ^ 63)
is_i64 (negsuc n) = ltb n (2 ^ 63)

module _ (n : ℕ) where
  parse_magnitude-digits :
      (s : Text) → IsNonempty s → parse_digits 0 s ≡ some n → parse_magnitude s ≡ some n
  parse_magnitude-digits [] h e = elim h [ ]
  parse_magnitude-digits (c ∷ s) h e = e

  -- A text of digits starts with no sign.
  parse_i64-digits :
      (s : Text) → IsNonempty s → parse_digits 0 s ≡ some n → parse_i64 s ≡ unsigned (some n)
  unfolding parse_i64 parse_digits
  parse_i64-digits [] h e = elim h [ ]
  parse_i64-digits (c ∷ s) h e = ground arith

-- The decimal print of an `i64` parses to it.
pub parse_i64-decimal_ℤ : (i : ℤ) → is_i64 i ≡ true → parse_i64 (decimal_ℤ i) ≡ some i
unfolding decimal_ℤ
parse_i64-decimal_ℤ (pos n) r =
    parse_i64-digits n (decimal n) (decimal-IsNonempty n) (parse_digits-decimal n) ∙ (rw r refl)
parse_i64-decimal_ℤ (negsuc n) r =
    unfold parse_i64 in
    rw
      (parse_magnitude-digits (suc n) (decimal (suc n)) (decimal-IsNonempty (suc n))
        (parse_digits-decimal (suc n)))
      (rw r refl)
