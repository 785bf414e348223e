-- ===== src/Engine/Transform/Boundary.antt =====
-- The slice `&s[..10]` in `Scalar::validate_timestamp`, by the characters of the text.
use dat.Prelude.{
  ℕ, zero, suc, ◌+◌, ◌-◌, ◌/◌, ◌%◌, ◌<◌, ◌≤◌, Bool, true, false, ◌&&◌, not, List, [], ◌∷◌, ◌++◌,
  Text, codes, ◌||◌, all, length, ltb, ◌==◌, ◌≡◌, refl, sym, ap, ◌∙◌, ◌↔◌, ◌⊎◌, if◌then◌else◌,
  arith, Bool-cases, inl, inr, length-append,
}
use dat.Prelude.Predicates.{All}
use dat.Engine.Transform.Dates.{
  panic, valid, validate_date, has_separator, is_time, validate_timestamp, continuation_at,
  is_continuation, is_digit,
}

-- The UTF-8 encoding of a code point.
abbrev pub utf8 : ℕ → Text
utf8 c =
    if ltb c 0x80
    then c ∷ []
    else if ltb c 0x800
    then (0xc0 + c / 64) ∷ (0x80 + c % 64) ∷ []
    else if ltb c 0x10000
    then (0xe0 + c / 4096) ∷ (0x80 + c / 64 % 64) ∷ (0x80 + c % 64) ∷ []
    else ((0xf0 + c / 262144)
        ∷ (0x80 + c / 4096 % 64)
        ∷ (0x80 + c / 64 % 64)
        ∷ (0x80 + c % 64)
        ∷ [])

abbrev pub encode : List ℕ → Text
encode [] = []
encode (c ∷ cs) = utf8 c ++ encode cs

abbrev pub IsChar : ℕ → Type 0
IsChar c = c < 0x110000

-- Whether a character begins at the byte, or the text ends there.
abbrev pub begins_at : ℕ → List ℕ → Bool
begins_at i [] = i == 0
begins_at i (c ∷ cs) =
    let rest = begins_at (i - length (utf8 c)) cs in
    if i == 0 then true else if ltb i (length (utf8 c)) then false else rest

abbrev pub is_lead : Text → Bool
is_lead [] = false
is_lead (a ∷ ts) = not (is_continuation a) && all is_continuation ts

-- A character is a byte that continues none, and bytes that continue it.
utf8-is_lead : (c : ℕ) → IsChar c → is_lead (utf8 c) ≡ true
utf8-is_lead c h = elim (Bool-cases (ltb c 0x80)) [
  | inl a ↦ rw a (ground (arith, h))
  | inr a ↦ elim (Bool-cases (ltb c 0x800)) [
    | inl b ↦ rw (a, b) (ground (arith, h))
    | inr b ↦ elim (Bool-cases (ltb c 0x10000)) [
      | inl d ↦ rw (a, b, d) (ground (arith, h))
      | inr d ↦ rw (a, b, d) (ground (arith, h))
    ]
  ]
]

continuation_at-behind :
    (ts rest : Text) (i : ℕ)
    → all is_continuation ts ≡ true
    → continuation_at i (ts ++ rest)
      ≡ (if ltb i (length ts) then true else continuation_at (i - length ts) rest)
unfolding continuation_at
continuation_at-behind [] rest i h =
    let none_below : ltb i 0 ≡ false = ground arith in
    let same : i - 0 ≡ i = omega arith in rw (none_below, same) refl
continuation_at-behind (t ∷ ts) rest zero h =
    let first : ltb 0 (length (t ∷ ts)) ≡ true = ground arith in
    let k : is_continuation t ≡ true = ground arith in rw first k
continuation_at-behind (t ∷ ts) rest (suc i) h =
    let k : all is_continuation ts ≡ true = ground arith in
    let less : ltb i (length ts) ≡ ltb (suc i) (length (t ∷ ts)) = ground arith in
    let same : i - length ts ≡ suc i - length (t ∷ ts) = omega arith in
    continuation_at-behind ts rest i k
    ∙ ap (λ b. if b then true else continuation_at (i - length ts) rest) less
    ∙ ap (λ n. if ltb (suc i) (length (t ∷ ts)) then true else continuation_at n rest) same

continuation_at-lead :
    (bytes rest : Text) (i : ℕ)
    → is_lead bytes ≡ true
    → continuation_at i (bytes ++ rest) ≡ (
        if i == 0
        then false
        else if ltb i (length bytes)
        then true
        else continuation_at (i - length bytes) rest)
unfolding continuation_at
continuation_at-lead [] rest i h = ground arith
continuation_at-lead (a ∷ ts) rest zero h = ground arith
continuation_at-lead (a ∷ ts) rest (suc i) h =
    let k : all is_continuation ts ≡ true = ground arith in
    let later : (suc i == 0) ≡ false = ground arith in
    let less : ltb i (length ts) ≡ ltb (suc i) (length (a ∷ ts)) = ground arith in
    let same : i - length ts ≡ suc i - length (a ∷ ts) = omega arith in
    continuation_at-behind ts rest i k
    ∙ ap (λ b. if b then true else continuation_at (i - length ts) rest) less
    ∙ ap (λ n. if ltb (suc i) (length (a ∷ ts)) then true else continuation_at n rest) same
    ∙ ap
        (λ b.
          if b
          then false
          else if ltb (suc i) (length (a ∷ ts))
          then true
          else continuation_at (suc i - length (a ∷ ts)) rest)
        (sym later)

-- A byte of a text continues a character exactly where none begins.
continuation_at-encode :
    (cs : List ℕ) (i : ℕ)
    → All IsChar cs
    → i < length (encode cs)
    → continuation_at i (encode cs) ≡ not (begins_at i cs)
continuation_at-encode [] i k h = absurd (omega arith)
continuation_at-encode (c ∷ cs) i k h =
    continuation_at-lead (utf8 c) (encode cs) i (utf8-is_lead c k.0)
    ∙ by_place (Bool-cases (i == 0)) (Bool-cases (ltb i (length (utf8 c))))
        (λ j lt. continuation_at-encode cs j k.1 lt)
  where
    by_place :
        ((i == 0) ≡ true) ⊎ ((i == 0) ≡ false)
        → (ltb i (length (utf8 c)) ≡ true) ⊎ (ltb i (length (utf8 c)) ≡ false)
        → ((j : ℕ) → j < length (encode cs) → continuation_at j (encode cs) ≡ not (begins_at j cs))
        → (if i == 0
            then false
            else if ltb i (length (utf8 c))
            then true
            else continuation_at (i - length (utf8 c)) (encode cs))
          ≡ not (begins_at i (c ∷ cs))
    by_place (inl a) b ih = rw a refl
    by_place (inr a) (inl b) ih = rw (a, b) refl
    by_place (inr a) (inr b) ih =
        let sum = length-append (utf8 c) (encode cs) in
        let below : i - length (utf8 c) < length (encode cs) = ground arith in
        rw (a, b) (ih (i - length (utf8 c)) below)

panics-begins_at :
    (cs : List ℕ)
    → All IsChar cs
    → (validate_timestamp (encode cs) ≡ panic)
      ↔ ((19 ≤ length (encode cs)) × (begins_at 10 cs ≡ false))
unfolding validate_timestamp
panics-begins_at cs k = elim (Bool-cases (ltb (length (encode cs)) 19)) [
  | inl s ↦ ground (arith, s)
  | inr l ↦ let e = continuation_at-encode cs 10 k (ground arith) in ground (arith, e, l)
]

-- A date, a space or a `T`, a time to the second, and whatever follows.
abbrev pub template : Text
template = codes "dddd-dd-ddTdd:dd:dd"

abbrev pub fit : ℕ → ℕ → Bool
fit t c = if t == b'd' then is_digit c else if t == b'T' then c == b' ' || c == b'T' else c == t

abbrev pub fits : Text → Text → Bool
fits [] b = true
fits (t ∷ ts) [] = false
fits (t ∷ ts) (c ∷ b) = fit t c && fits ts b

length-fits : (ts b : Text) → fits ts b ≡ true → length ts ≤ length b
length-fits [] b h = ground arith
length-fits (t ∷ ts) [] h = ground arith
length-fits (t ∷ ts) (c ∷ b) h = ground (arith, length-fits ts b)

fits-long :
    (a0 a1 a2 a3 a4 a5 a6 a7 a8 a9 a10 a11 a12 a13 a14 a15 a16 a17 a18 : ℕ) (rest : Text)
    → (validate_timestamp (
          a0 ∷ a1 ∷ a2 ∷ a3 ∷ a4 ∷ a5 ∷ a6 ∷ a7 ∷ a8 ∷ a9 ∷ a10 ∷ a11 ∷ a12 ∷ a13 ∷ a14 ∷ a15 ∷ a16
          ∷ a17 ∷ a18 ∷ rest)
        ≡ valid)
      ↔ (fits template (
            a0 ∷ a1 ∷ a2 ∷ a3 ∷ a4 ∷ a5 ∷ a6 ∷ a7 ∷ a8 ∷ a9 ∷ a10 ∷ a11 ∷ a12 ∷ a13 ∷ a14 ∷ a15
            ∷ a16 ∷ a17 ∷ a18 ∷ rest)
          ≡ true)
unfolding validate_timestamp continuation_at validate_date has_separator is_time
fits-long a0 a1 a2 a3 a4 a5 a6 a7 a8 a9 a10 a11 a12 a13 a14 a15 a16 a17 a18 rest = ground arith

-- A text of fewer bytes.
fits-short :
    (b : Text)
    → ltb (length b) 19 ≡ true
    → (validate_timestamp b ≡ valid) ↔ (fits template b ≡ true)
unfolding validate_timestamp
fits-short b h =
    let small : (fits template b ≡ true) → 19 ≤ length b = length-fits template b in
    ground (arith, h, small)

fits-valid : (b : Text) → (validate_timestamp b ≡ valid) ↔ (fits template b ≡ true)
fits-valid
      (a0 ∷ a1 ∷ a2 ∷ a3 ∷ a4 ∷ a5 ∷ a6 ∷ a7 ∷ a8 ∷ a9 ∷ a10 ∷ a11 ∷ a12 ∷ a13 ∷ a14 ∷ a15 ∷ a16
        ∷ a17 ∷ a18 ∷ rest) =
    fits-long a0 a1 a2 a3 a4 a5 a6 a7 a8 a9 a10 a11 a12 a13 a14 a15 a16 a17 a18 rest
fits-valid b = fits-short b refl

-- On every text, given by its characters: `validate_timestamp` panics exactly where the text has 19
-- bytes or more and no character begins at byte 10, and it accepts exactly the texts that begin with
-- a date of the form yyyy-mm-dd, a space or a T, and a time of the form hh:mm:ss, in ASCII digits.
pub validate_timestamp_panics :
    (cs : List ℕ)
    → All IsChar cs
    → ((validate_timestamp (encode cs) ≡ panic)
        ↔ ((19 ≤ length (encode cs)) × (begins_at 10 cs ≡ false)))
      × ((validate_timestamp (encode cs) ≡ valid) ↔ (fits template (encode cs) ≡ true))
validate_timestamp_panics cs k = (panics-begins_at cs k, fits-valid (encode cs))
