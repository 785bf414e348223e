-- ===== src/Engine/Transform/Dates.antt =====
-- `Scalar::validate_date` and `Scalar::validate_timestamp`.
use dat.Prelude.{
  ℕ, Bool, false, ◌&&◌, Text, all, take, drop, length, leb, ltb, ◌==◌, if◌then◌else◌, none, some,
  get_elem?, not, ◌||◌,
}

pub data Validation : Type 0 where
  valid expected_date too_short expected_separator expected_time panic : Validation

abbrev pub is_digit : ℕ → Bool
is_digit b = leb b'0' b && leb b b'9'

-- `b[i..j].iter().all(|c| c.is_ascii_digit())`, where `i + n = j` is in range.
abbrev pub digits_at : ℕ → ℕ → Text → Bool
digits_at i n b = all is_digit (take n (drop i b))

-- `b[i] == c`
abbrev pub byte_at : ℕ → ℕ → Text → Bool
byte_at i c b = elim (get_elem? b i) [ none ↦ false | some d ↦ d == c ]

unfoldable pub validate_date : Text → Bool
validate_date b =
    length b == 10
    && digits_at 0 4 b
    && byte_at 4 b'-' b
    && digits_at 5 2 b
    && byte_at 7 b'-' b
    && digits_at 8 2 b

-- `str::is_char_boundary` inside the text: the byte is no continuation byte of UTF-8.
abbrev pub is_continuation : ℕ → Bool
is_continuation c = leb 0x80 c && ltb c 0xc0

unfoldable pub continuation_at : ℕ → Text → Bool
continuation_at i b = elim (get_elem? b i) [ none ↦ false | some c ↦ is_continuation c ]

-- `b[10] == b' ' || b[10] == b'T'`
unfoldable pub has_separator : Text → Bool
has_separator b = byte_at 10 b' ' b || byte_at 10 b'T' b

unfoldable pub is_time : Text → Bool
is_time b =
    digits_at 11 2 b
    && byte_at 13 b':' b
    && digits_at 14 2 b
    && byte_at 16 b':' b
    && digits_at 17 2 b

-- `&s[..10]` panics off a character boundary.
unfoldable pub validate_timestamp : Text → Validation
validate_timestamp b =
    if ltb (length b) 19
    then too_short
    else if continuation_at 10 b
    then panic
    else if not (validate_date (take 10 b))
    then expected_date
    else if not (has_separator b)
    then expected_separator
    else if not (is_time b)
    then expected_time
    else valid
