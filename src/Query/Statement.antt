-- ===== src/Query/Statement.antt =====
-- Splitting a buffer into statements (crates/dat0-core/src/query/statement.rs). A `;` is one byte of
-- UTF-8, so that the slices between two of them are on character boundaries.
pub mod Blank
pub mod Cuts
pub mod Cursor
pub mod Lexemes
pub mod Keyword
mod Examples
use dat.Prelude.{
  ℕ, ◌+◌, ◌-◌, Bool, true, false, List, [], ◌∷◌, ◌++◌, Text, Option, some, none, ◌==◌, ◌&&◌, leb,
  if◌then◌else◌, take, drop, length, find,
}
use dat.Prelude.Scan.{scan}
use dat.Query.Statement.Blank.{is_blank}

pub record Span : Type 0 where
  pub start : ℕ
  pub end : ℕ

pub data ScanState : Type 0 where
  normal single_quote double_quote line_comment block_comment : ScanState

pub record Splitter : Type 0 where
  pub state : ScanState
  pub spans : List Span
  pub seg_start : ℕ
  pub i : ℕ

-- `sql[start..end]`
abbrev pub slice : Text → ℕ → ℕ → Text
slice sql start end = take (end - start) (drop start sql)

unfoldable pub push_span : Text → List Span → ℕ → ℕ → List Span
push_span sql spans start end =
    if is_blank (slice sql start end)
    then spans
    else spans ++ record { start = start; end = end } ∷ []

-- `next == Some(c)`
abbrev pub follows : Option ℕ → ℕ → Bool
follows none c = false
follows (some d) c = d == c

-- A round ends with `i += 1`, or with `i += 2` where it took the next byte too.
abbrev pub advance : Splitter → ScanState → Splitter × Bool
advance s state = (record s { state = state; i = s.i + 1 }, false)

abbrev pub advance_two : Splitter → ScanState → Splitter × Bool
advance_two s state = (record s { state = state; i = s.i + 2 }, true)

-- The arm of `;`.
abbrev pub cut : Text → Splitter → Splitter × Bool
cut sql s =
    advance (record s { spans = push_span sql s.spans s.seg_start s.i; seg_start = s.i + 1 }) normal

unfoldable pub normal_round : Text → Splitter → ℕ → Option ℕ → Splitter × Bool
normal_round sql s b next =
    if b == b'\''
    then advance s single_quote
    else if b == b'"'
    then advance s double_quote
    else if b == b'-' && follows next b'-'
    then advance_two s line_comment
    else if b == b'/' && follows next b'*'
    then advance_two s block_comment
    else if b == b';'
    then cut sql s
    else advance s normal

unfoldable pub split_round : Text → ScanState → Splitter → ℕ → Option ℕ → Splitter × Bool
unfolding normal_round
split_round sql normal s b next = normal_round sql s b next
split_round sql single_quote s b next = advance s (if b == b'\'' then normal else single_quote)
split_round sql double_quote s b next = advance s (if b == b'"' then normal else double_quote)
split_round sql line_comment s b next = advance s (if b == b'\n' then normal else line_comment)
split_round sql block_comment s b next =
    if b == b'*' && follows next b'/' then advance_two s normal else advance s block_comment

abbrev pub initial : Splitter
initial = record { state = normal; spans = []; seg_start = 0; i = 0 }

abbrev pub finish : Text → Splitter → List Span
finish sql s = push_span sql s.spans s.seg_start (length sql)

unfoldable pub split_statements : Text → List Span
unfolding push_span split_round scan
split_statements sql = finish sql (scan (λ s. split_round sql s.state s) false initial sql)

abbrev pub touches : ℕ → Span → Bool
touches cursor s = leb s.start cursor && leb cursor s.end

abbrev pub last_or : Span → List Span → Span
last_or s [] = s
last_or s (t ∷ l) = last_or t l

-- `for s in &spans { if .. { return *s; } }`, and the last span behind the loop.
abbrev pub first_or_last : Span → List Span → Option Span → Span
first_or_last s l (some t) = t
first_or_last s l none = last_or s l

abbrev pub statement_among : Text → ℕ → List Span → Span
statement_among sql cursor [] = record { start = 0; end = length sql }
statement_among sql cursor (s ∷ l) = first_or_last s l (find (touches cursor) (s ∷ l))

unfoldable pub statement_at : Text → ℕ → Span
unfolding split_statements
statement_at sql cursor = statement_among sql cursor (split_statements sql)
