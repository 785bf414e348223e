-- ===== src/Prelude/Decimal.antt =====
-- Decimal printing of `u32`, `u64` and `i64` (`to_string`, `{}`).
use dat.Prelude.{
  ℕ, zero, suc, ◌+◌, ◌-◌, ◌*◌, ◌/◌, ◌%◌, ◌<◌, ◌≡◌, refl, sym, ap, ◌∙◌, [], ◌∷◌, ◌++◌, arith, ltb,
  if◌then◌else◌, Text, codes, ℤ, pos, negsuc, Bool-cases, inl, inr, Option, none, some, leb, ◌&&◌,
  ◌≤◌,
}

-- One digit for each unit of fuel; `suc n` units are enough for `n`.
unfoldable pub digits : ℕ → ℕ → Text
digits zero n = []
digits (suc f) n =
    let more = digits f (n / 10) ++ (b'0' + n % 10) ∷ [] in
    if ltb n 10 then (b'0' + n) ∷ [] else more

unfoldable pub decimal : ℕ → Text
unfolding digits
decimal n = digits (suc n) n

unfoldable pub decimal_ℤ : ℤ → Text
unfolding decimal
decimal_ℤ (pos n) = decimal n
decimal_ℤ (negsuc n) = b'-' ∷ decimal (suc n)

value_from : ℕ → Text → ℕ
value_from acc [] = acc
value_from acc (c ∷ s) = value_from (acc * 10 + (c - b'0')) s

value_from-append :
    (acc : ℕ) (s : Text) (c : ℕ) → value_from acc (s ++ c ∷ []) ≡ value_from acc s * 10 + (c - b'0')
unfolding value_from
value_from-append acc [] c = refl
value_from-append acc (d ∷ s) c = value_from-append (acc * 10 + (d - b'0')) s c

value-digits : (f n : ℕ) → n < f → value_from 0 (digits f n) ≡ n
unfolding digits
value-digits zero n h = elim h [ ]
value-digits (suc f) n h = elim (Bool-cases (ltb n 10)) [
  | inl small ↦ rw small (unfold value_from in omega arith)
  | inr big ↦
      rw big (rw value_from-append (rw (value-digits f (n / 10) (ground arith)) (omega arith)))
]

-- Two numbers that print alike are one.
pub decimal-injective : (n m : ℕ) → decimal n ≡ decimal m → n ≡ m
unfolding decimal
decimal-injective n m e =
    sym (value-digits (suc n) n (omega arith))
    ∙ ap (value_from 0) e
    ∙ value-digits (suc m) m (omega arith)

-- A text of digits read after the value `acc`, `none` at the first other character.
unfoldable pub parse_digits : ℕ → Text → Option ℕ
parse_digits acc [] = some acc
parse_digits acc (c ∷ s) =
    let rest = parse_digits (acc * 10 + (c - b'0')) s in
    if leb b'0' c && leb c b'9' then rest else none

-- One digit more at the end.
abbrev next_digit : ℕ → Option ℕ → Option ℕ
next_digit c none = none
next_digit c (some v) = some (v * 10 + (c - b'0'))

parse_digits-append :
    (acc : ℕ) (s : Text) (c : ℕ)
    → b'0' ≤ c
    → c ≤ b'9'
    → parse_digits acc (s ++ c ∷ []) ≡ next_digit c (parse_digits acc s)
unfolding parse_digits
parse_digits-append acc [] c lo hi = ground arith
parse_digits-append acc (d ∷ s) c lo hi =
    ground (arith, parse_digits-append (acc * 10 + (d - b'0')) s c lo hi)

parse_digits-digits : (f n : ℕ) → n < f → parse_digits 0 (digits f n) ≡ some n
unfolding digits
parse_digits-digits zero n h = elim h [ ]
parse_digits-digits (suc f) n h = elim (Bool-cases (ltb n 10)) [
  | inl small ↦ rw small (unfold parse_digits in ground arith)
  | inr big ↦ rw big (
      rw (parse_digits-append 0 (digits f (n / 10)) (b'0' + n % 10) (omega arith) (omega arith))
        (rw (parse_digits-digits f (n / 10) (ground arith)) (ap some (omega arith))))
]

pub parse_digits-decimal : (n : ℕ) → parse_digits 0 (decimal n) ≡ some n
unfolding decimal
parse_digits-decimal n = parse_digits-digits (suc n) n (omega arith)

abbrev pub IsNonempty : Text → Type 0
IsNonempty [] = ⊥
IsNonempty (_ ∷ _) = Unit

append-IsNonempty : (s : Text) (c : ℕ) → IsNonempty (s ++ c ∷ [])
append-IsNonempty [] c = tt
append-IsNonempty (_ ∷ _) c = tt

pub decimal-IsNonempty : (n : ℕ) → IsNonempty (decimal n)
unfolding decimal digits
decimal-IsNonempty n = elim (Bool-cases (ltb n 10)) [
  | inl small ↦ rw small tt
  | inr big ↦ rw big (append-IsNonempty (digits n (n / 10)) (b'0' + n % 10))
]

decimal_305 : decimal 305 ≡ codes "305"
unfolding decimal digits
decimal_305 = refl

decimal_minus_12 : decimal_ℤ (negsuc 11) ≡ codes "-12"
unfolding decimal_ℤ decimal digits
decimal_minus_12 = refl
