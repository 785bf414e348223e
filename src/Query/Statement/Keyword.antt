-- ===== src/Query/Statement/Keyword.antt =====
-- The leading keyword of a statement, and its kind (crates/dat0-core/src/query/statement.rs).
pub mod Noise
use dat.Prelude.{
  ℕ, zero, suc, Bool, true, false, ◌&&◌, ◌||◌, List, [], ◌∷◌, Text, codes, Option, none, some, ◌==◌,
  leb, ◌-◌, if◌then◌else◌, length, map, any, text_eq, head?,
}
use dat.Prelude.Slices.{strip_prefix}
use dat.Query.Statement.Blank.{is_ascii_space, starts_2, starts_3}

-- `trim_start`, of a text whose first `skip` bytes belong to a white space.
abbrev pub trim_from : ℕ → Text → Text
trim_from skip [] = []
trim_from (suc skip) (c ∷ s) = trim_from skip s
trim_from zero (c ∷ s) =
    let one = trim_from 0 s in
    let two = trim_from 1 s in
    let three = trim_from 2 s in
    if is_ascii_space c
    then one
    else if starts_2 c s
    then two
    else if starts_3 c s
    then three
    else c ∷ s

-- `&rest[nl + 1..]`, with `nl` from `rest.find('\n')`.
abbrev pub after_newline : Text → Option Text
after_newline [] = none
after_newline (c ∷ s) = if c == b'\n' then some s else after_newline s

-- `&rest[end + 2..]`, with `end` from `rest.find("*/")`.
abbrev pub after_close : Text → Option Text
after_close [] = none
after_close (c ∷ []) = none
after_close (c ∷ d ∷ s) = if c == b'*' && d == b'/' then some s else after_close (d ∷ s)

-- `s = ….trim_start()`, or `return ""`, and the rounds after it.
abbrev pub resume : (Text → Text) → Option Text → Text
resume more none = []
resume more (some rest) = more (trim_from 0 rest)

abbrev pub noise_round : (Text → Text) → Text → Option Text → Option Text → Text
noise_round more s (some rest) _ = resume more (after_newline rest)
noise_round more s none (some rest) = resume more (after_close rest)
noise_round more s none none = s

-- The `loop`. A round that goes on takes two bytes or more off the text.
abbrev pub noise_loop : ℕ → Text → Text
noise_loop zero s = s
noise_loop (suc fuel) s =
    noise_round (noise_loop fuel) s (strip_prefix (codes "--") s) (strip_prefix (codes "/*") s)

unfoldable pub strip_leading_noise : Text → Text
strip_leading_noise stmt = let s = trim_from 0 stmt in noise_loop (suc (length s)) s

abbrev is_ascii_alphabetic : ℕ → Bool
is_ascii_alphabetic c = (leb b'a' c && leb c b'z') || (leb b'A' c && leb c b'Z')

abbrev pub letters : Text → Text
letters [] = []
letters (c ∷ s) = if is_ascii_alphabetic c then c ∷ letters s else []

abbrev pub to_upper : ℕ → ℕ
to_upper c = if leb b'a' c && leb c b'z' then c - 32 else c

unfoldable pub leading_keyword : Text → Text
unfolding strip_leading_noise
leading_keyword stmt = map to_upper (letters (strip_leading_noise stmt))

pub data ResultKind : Type 0 where
  result exec : ResultKind

abbrev result_keywords : List Text
result_keywords =
    codes "SELECT"
    ∷ codes "WITH"
    ∷ codes "VALUES"
    ∷ codes "TABLE"
    ∷ codes "FROM"
    ∷ codes "PRAGMA"
    ∷ codes "SHOW"
    ∷ codes "DESCRIBE"
    ∷ codes "DESC"
    ∷ codes "EXPLAIN"
    ∷ codes "SUMMARIZE"
    ∷ []

abbrev pub kind_of : Text → ResultKind
kind_of word = if any (text_eq word) result_keywords then result else exec

unfoldable pub classify : Text → ResultKind
unfolding leading_keyword
classify stmt = kind_of (leading_keyword stmt)
