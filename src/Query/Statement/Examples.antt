-- ===== src/Query/Statement/Examples.antt =====
-- Tests and instances for the console's statements.
use dat.Prelude.{
  ℕ, List, text_eq, [], ◌∷◌, Text, codes, ◌≡◌, refl, arith, length, some, true, get_elem?,
}
use dat.Query.Statement.{Span, split_statements, statement_at, push_span, split_round, normal_round}
use dat.Prelude.Scan.{scan}
use dat.Query.Statement.Blank.{is_blank}
use dat.Query.Statement.Lexemes.{
  Lexeme, semicolon, plain, string, block, Ending, open_line, print, IsLexed, segments, kept,
}
use dat.Query.Statement.Lexemes.Split.{split_statements-print}
use dat.Query.Statement.Lexemes.Total.{split_statements-lexemes}
use dat.Query.Statement.Keyword.{strip_leading_noise, leading_keyword, result, exec, classify}
use dat.Query.Statement.Keyword.Noise.{
  Noise, space, line_comment, block_comment, put_all, classify-put_all,
}
use dat.Query.Statement.Cursor.{statement_at_lem}

abbrev span : ℕ → ℕ → Span
span a b = record { start = a; end = b }

-- A semicolon in a string, one in a comment, and an empty statement.
abbrev buffer : Text
buffer = codes "FROM t WHERE a = ';'; ; SELECT 1 -- no;\n"

split_buffer : split_statements buffer ≡ span 0 20 ∷ span 23 40 ∷ []
unfolding split_statements push_span split_round normal_round scan is_blank
split_buffer = refl

-- A space, U+00A0, U+2003 and U+3000.
blank_wide_spaces : is_blank (32 ∷ 194 ∷ 160 ∷ 226 ∷ 128 ∷ 131 ∷ 227 ∷ 128 ∷ 128 ∷ []) ≡ true
unfolding is_blank
blank_wide_spaces = refl

abbrev lexemes : List Lexeme
lexemes = plain b'x' ∷ string (codes ";") ∷ semicolon ∷ plain b'y' ∷ block (codes "; **") ∷ []

split_statements-print_example :
    split_statements (print lexemes (open_line (codes ";")))
    ≡ kept
        (print lexemes (open_line (codes ";")))
        (segments (length (print lexemes (open_line (codes ";")))) 0 0 lexemes)
split_statements-print_example =
    split_statements-print lexemes (open_line (codes ";"))
      (refl, (refl, (refl, (refl, (refl, refl)))))

split_statements-lexemes_example :
    (ls : List Lexeme) × (e : Ending) × IsLexed ls e
    × (print ls e ≡ buffer)
    × (split_statements buffer ≡ kept buffer (segments (length buffer) 0 0 ls))
split_statements-lexemes_example = split_statements-lexemes buffer

abbrev noise : List Noise
noise = space 10 ∷ line_comment (codes " select") ∷ space 32 ∷ block_comment (codes "* -- *") ∷ []

classified : classify (put_all noise (codes "pragma x")) ≡ result
unfolding classify leading_keyword strip_leading_noise text_eq
classified = refl

-- A statement that begins in a parenthesis has no leading keyword.
parenthesis_exec : classify (codes "(SELECT 1)") ≡ exec
unfolding classify leading_keyword strip_leading_noise text_eq
parenthesis_exec = refl

classify-put_all_example :
    (leading_keyword (put_all noise (codes "pragma x")) ≡ leading_keyword (codes "pragma x"))
    × (classify (put_all noise (codes "pragma x")) ≡ classify (codes "pragma x"))
classify-put_all_example = classify-put_all noise (codes "pragma x") refl

statement_at_lem_example : statement_at buffer 30 ≡ span 23 40
statement_at_lem_example =
    statement_at_lem buffer 30 1 (span 23 40) second (omega arith) (omega arith)
  where
    second : get_elem? (split_statements buffer) 1 ≡ some (span 23 40)
    second = rw split_buffer refl
