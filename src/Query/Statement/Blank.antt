-- ===== src/Query/Statement/Blank.antt =====
-- `s.trim().is_empty()`: whether a text holds nothing but characters with the Unicode property
-- White_Space, read off its UTF-8 bytes.
use dat.Prelude.{
  ℕ, zero, suc, Bool, true, false, [], ◌∷◌, Text, ◌==◌, ◌&&◌, ◌||◌, leb, if◌then◌else◌,
}

-- Tab, line feed, vertical tab, form feed, carriage return and space.
abbrev pub is_ascii_space : ℕ → Bool
is_ascii_space c = (leb 9 c && leb c 13) || c == 32

-- U+0085 and U+00A0.
abbrev is_space_2 : ℕ → ℕ → Bool
is_space_2 c d = c == 194 && (d == 133 || d == 160)

-- U+1680, U+2000 to U+200A, U+2028, U+2029, U+202F, U+205F and U+3000.
abbrev is_space_3 : ℕ → ℕ → ℕ → Bool
is_space_3 c d e =
    (c == 225 && d == 154 && e == 128)
    || (c == 226 && d == 128 && ((leb 128 e && leb e 138) || e == 168 || e == 169 || e == 175))
    || (c == 226 && d == 129 && e == 159)
    || (c == 227 && d == 128 && e == 128)

abbrev pub starts_2 : ℕ → Text → Bool
starts_2 c [] = false
starts_2 c (d ∷ s) = is_space_2 c d

abbrev pub starts_3 : ℕ → Text → Bool
starts_3 c [] = false
starts_3 c (d ∷ []) = false
starts_3 c (d ∷ e ∷ s) = is_space_3 c d e

-- `skip` bytes of a character are still to be passed.
abbrev is_blank_from : ℕ → Text → Bool
is_blank_from skip [] = true
is_blank_from zero (c ∷ s) =
    let one = is_blank_from 0 s in
    let two = is_blank_from 1 s in
    let three = is_blank_from 2 s in
    if is_ascii_space c
    then one
    else if starts_2 c s
    then two
    else if starts_3 c s
    then three
    else false
is_blank_from (suc n) (c ∷ s) = is_blank_from n s

unfoldable pub is_blank : Text → Bool
is_blank s = is_blank_from 0 s
