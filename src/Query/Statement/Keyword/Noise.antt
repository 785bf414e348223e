-- ===== src/Query/Statement/Keyword/Noise.antt =====
-- White space and comments before a statement.
use dat.Prelude.{
  ℕ, zero, suc, ◌<◌, ◌≤◌, Bool, true, ◌&&◌, List, [], ◌∷◌, ◌++◌, Text, codes, Option, none, some,
  ◌==◌, length, length-append, all, map, ◌≡◌, refl, ◌∙◌, ap, arith, Bool-cases, inl, inr,
}
use dat.Prelude.Slices.{strip_prefix}
use dat.Query.Statement.Blank.{is_ascii_space}
use dat.Query.Statement.Lexemes.{lacks, stays_open}
use dat.Query.Statement.Keyword.{
  trim_from, after_newline, after_close, resume, noise_round, noise_loop, strip_leading_noise,
  leading_keyword, classify, kind_of, letters, to_upper,
}

-- A white space of one byte, a comment to the end of the line, and one between /* and */.
pub data Noise : Type 0 where
  space : ℕ → Noise
  line_comment block_comment : Text → Noise

abbrev pub put : Noise → Text → Text
put (space c) s = c ∷ s
put (line_comment body) s = b'-' ∷ b'-' ∷ (body ++ b'\n' ∷ s)
put (block_comment body) s = b'/' ∷ b'*' ∷ (body ++ b'*' ∷ b'/' ∷ s)

abbrev pub is_noise : Noise → Bool
is_noise (space c) = is_ascii_space c
is_noise (line_comment body) = lacks b'\n' body
is_noise (block_comment body) = stays_open body

abbrev pub put_all : List Noise → Text → Text
put_all [] s = s
put_all (x ∷ l) s = put x (put_all l s)

length-trim_from : (skip : ℕ) (s : Text) → length (trim_from skip s) ≤ length s
length-trim_from zero [] = omega arith
length-trim_from (suc skip) [] = omega arith
length-trim_from (suc skip) (c ∷ s) = omega (arith, length-trim_from skip s)
length-trim_from zero (c ∷ s) =
    ground (arith, length-trim_from 0 s, length-trim_from 1 s, length-trim_from 2 s)

-- What is left has at most `n` bytes.
abbrev IsWithin : ℕ → Option Text → Type 0
IsWithin n none = Unit
IsWithin n (some r) = length r ≤ n

IsWithin-suc : (n : ℕ) (o : Option Text) → IsWithin n o → IsWithin (suc n) o
IsWithin-suc n none h = tt
IsWithin-suc n (some r) h = omega (arith, h)

after_newline-IsWithin : (c : ℕ) (s : Text) → IsWithin (length s) (after_newline (c ∷ s))
after_newline-IsWithin c [] = elim (Bool-cases (c == b'\n')) [
  | inl e ↦ rw e (omega arith)
  | inr e ↦ rw e tt
]
after_newline-IsWithin c (d ∷ s) = elim (Bool-cases (c == b'\n')) [
  | inl e ↦ rw e (omega arith)
  | inr e ↦ rw e (IsWithin-suc (length s) (after_newline (d ∷ s)) (after_newline-IsWithin d s))
]

after_close-IsWithin : (c : ℕ) (s : Text) → IsWithin (length s) (after_close (c ∷ s))
after_close-IsWithin c [] = tt
after_close-IsWithin c (d ∷ s) = elim (Bool-cases (c == b'*' && d == b'/')) [
  | inl e ↦ rw e (omega arith)
  | inr e ↦ rw e (IsWithin-suc (length s) (after_close (d ∷ s)) (after_close-IsWithin d s))
]

strip_prefix-IsWithin : (prefix s : Text) → IsWithin (length s) (strip_prefix prefix s)
strip_prefix-IsWithin [] s = omega arith
strip_prefix-IsWithin (p ∷ prefix) [] = tt
strip_prefix-IsWithin (p ∷ prefix) (c ∷ s) = elim (Bool-cases (p == c)) [
  | inl e ↦ rw e (IsWithin-suc (length s) (strip_prefix prefix s) (strip_prefix-IsWithin prefix s))
  | inr e ↦ rw e tt
]

-- Two ways to go on, the same for the texts shorter than `n`.
module _ (more more' : Text → Text) (n : ℕ)
    (same : (t : Text) → length t < n → more t ≡ more' t) where
  resume-same : (o : Option Text) (k : ℕ) → k < n → IsWithin k o → resume more o ≡ resume more' o
  resume-same none k e h = refl
  resume-same (some r) k e h = same (trim_from 0 r) (omega (arith, e, h, length-trim_from 0 r))

  newline-same :
      (r : Text) → length r ≤ n → resume more (after_newline r) ≡ resume more' (after_newline r)
  newline-same [] h = refl
  newline-same (c ∷ r) h =
      resume-same (after_newline (c ∷ r)) (length r) h (after_newline-IsWithin c r)

  close-same :
      (r : Text) → length r ≤ n → resume more (after_close r) ≡ resume more' (after_close r)
  close-same [] h = refl
  close-same (c ∷ r) h = resume-same (after_close (c ∷ r)) (length r) h (after_close-IsWithin c r)

  noise_round-same :
      (s : Text) (a b : Option Text)
      → IsWithin n a
      → IsWithin n b
      → noise_round more s a b ≡ noise_round more' s a b
  noise_round-same s (some r) b h k = newline-same r h
  noise_round-same s none (some r) h k = close-same r k
  noise_round-same s none none h k = refl

-- Enough fuel is as good as any.
noise_loop-fuel :
    (f g : ℕ) (s : Text) → length s < f → length s < g → noise_loop f s ≡ noise_loop g s
noise_loop-fuel zero g s h k = absurd (omega (arith, h))
noise_loop-fuel (suc f) zero s h k = absurd (omega (arith, k))
noise_loop-fuel (suc f) (suc g) s h k =
    noise_round-same (noise_loop f) (noise_loop g) (length s)
      (λ t l. noise_loop-fuel f g t (omega (arith, l, h)) (omega (arith, l, k))) s
      (strip_prefix (codes "--") s) (strip_prefix (codes "/*") s)
      (strip_prefix-IsWithin (codes "--") s) (strip_prefix-IsWithin (codes "/*") s)

after_newline-line :
    (body s : Text) → lacks b'\n' body ≡ true → after_newline (body ++ b'\n' ∷ s) ≡ some s
after_newline-line [] s h = refl
after_newline-line (c ∷ body) s h = ground (arith, after_newline-line body s)

after_close-block :
    (body s : Text) → stays_open body ≡ true → after_close (body ++ b'*' ∷ b'/' ∷ s) ≡ some s
after_close-block [] s h = refl
after_close-block (c ∷ []) s h = ground arith
after_close-block (c ∷ d ∷ body) s h = ground (arith, after_close-block (d ∷ body) s)

-- The loop, with the fuel for the text behind the noise.
resume-strip :
    (s : Text) (fuel : ℕ)
    → length s < fuel
    → noise_loop fuel (trim_from 0 s) ≡ strip_leading_noise s
unfolding strip_leading_noise
resume-strip s fuel h =
    noise_loop-fuel fuel (suc (length (trim_from 0 s))) (trim_from 0 s)
      (omega (arith, h, length-trim_from 0 s)) (omega arith)

abbrev stripped : Text → Text
stripped t = noise_loop (suc (length t)) t

trim_dashes : (rest : Text) → trim_from 0 (b'-' ∷ b'-' ∷ rest) ≡ b'-' ∷ b'-' ∷ rest
trim_dashes [] = refl
trim_dashes (c ∷ rest) = refl

trim_opening : (rest : Text) → trim_from 0 (b'/' ∷ b'*' ∷ rest) ≡ b'/' ∷ b'*' ∷ rest
trim_opening [] = refl
trim_opening (c ∷ rest) = refl

behind_longer : (body : Text) (c : ℕ) (s : Text) → length s < suc (suc (length (body ++ c ∷ s)))
behind_longer body c s = omega (arith, length-append body (c ∷ s))

strip_leading_noise-put :
    (x : Noise) (s : Text)
    → is_noise x ≡ true
    → strip_leading_noise (put x s) ≡ strip_leading_noise s
unfolding strip_leading_noise
strip_leading_noise-put (space c) s h = ap stripped (trim_space c s h)
  where
    trim_space : (c : ℕ) (s : Text) → is_ascii_space c ≡ true → trim_from 0 (c ∷ s) ≡ trim_from 0 s
    trim_space c s h = rw h refl
strip_leading_noise-put (line_comment body) s h =
    let rest = body ++ b'\n' ∷ s in
    let fuel = suc (suc (length rest)) in
    ap stripped (trim_dashes rest)
    ∙ ap (resume (noise_loop fuel)) (after_newline-line body s h)
    ∙ resume-strip s fuel (behind_longer body b'\n' s)
strip_leading_noise-put (block_comment body) s h =
    let rest = body ++ b'*' ∷ b'/' ∷ s in
    let fuel = suc (suc (length rest)) in
    ap stripped (trim_opening rest)
    ∙ ap (resume (noise_loop fuel)) (after_close-block body s h)
    ∙ resume-strip s fuel (omega (arith, length-append body (b'*' ∷ b'/' ∷ s)))

strip_all :
    (noise : List Noise) (stmt : Text)
    → all is_noise noise ≡ true
    → strip_leading_noise (put_all noise stmt) ≡ strip_leading_noise stmt
strip_all [] stmt h = refl
strip_all (x ∷ noise) stmt h =
    strip_leading_noise-put x (put_all noise stmt) (ground arith)
    ∙ strip_all noise stmt (ground arith)

-- White space of one byte and closed comments before a statement, any number of them in any order,
-- change neither its leading keyword nor its kind.
pub classify-put_all :
    (noise : List Noise) (stmt : Text)
    → all is_noise noise ≡ true
    → (leading_keyword (put_all noise stmt) ≡ leading_keyword stmt)
      × (classify (put_all noise stmt) ≡ classify stmt)
unfolding leading_keyword classify
classify-put_all noise stmt h =
    let e = strip_all noise stmt h in
    (ap (λ t. map to_upper (letters t)) e, ap (λ t. kind_of (map to_upper (letters t))) e)
