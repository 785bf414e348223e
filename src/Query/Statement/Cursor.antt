-- ===== src/Query/Statement/Cursor.antt =====
-- The statement under the cursor.
use dat.Prelude.{
  ℕ, zero, suc, ◌+◌, ◌≤◌, ◌<◌, true, false, List, [], ◌∷◌, ◌++◌, Text, some, find, ◌≡◌, sym, ap,
  ◌∙◌, arith, length, get_elem?,
}
use mathlib.Core.Path.{subst}
use mathlib.Core.Option.{some-injective}
use dat.Query.Statement.{
  Span, split_statements, statement_at, statement_among, touches, first_or_last,
}
use dat.Query.Statement.Cuts.{Cut, IsCut, split_statements-IsCut}

-- Spans in order from `n` on, with a byte between each two, and all below `m`.
abbrev pub Apart : ℕ → ℕ → List Span → Type 0
Apart n m [] = n ≤ m
Apart n m (s ∷ l) = (n ≤ s.start) × (s.start ≤ s.end) × (s.end < m) × Apart (s.end + 1) m l

Apart-push :
    (n m e : ℕ) (l : List Span)
    → Apart n m l
    → m ≤ e
    → Apart n (e + 1) (l ++ record { start = m; end = e } ∷ [])
Apart-push n m e [] h k = (h, k, omega arith, omega arith)
Apart-push n m e (s ∷ l) h k = (h.0, h.1, omega (arith, h.2), Apart-push (s.end + 1) m e l h.3 k)

Apart-le : (n m e : ℕ) (l : List Span) → Apart n m l → m ≤ e → Apart n e l
Apart-le n m e [] h k = omega arith
Apart-le n m e (s ∷ l) h k = (h.0, h.1, omega (arith, h.2), Apart-le (s.end + 1) m e l h.3 k)

Apart-Cut : (sql : Text) (n : ℕ) (l : List Span) → Cut sql n l → Apart 0 n l
Apart-Cut sql n l Cut.cut_start = omega arith
Apart-Cut sql n l (Cut.cut_blank {n = m} e c h at b) =
    Apart-le 0 m (e + 1) l (Apart-Cut sql m l c) (omega arith)
Apart-Cut sql n l (Cut.cut_span {n = m} {l = l'} e c h at b) =
    Apart-push 0 m e l' (Apart-Cut sql m l' c) h

Apart-IsCut : (sql : Text) (l : List Span) → IsCut sql l → Apart 0 (length sql + 1) l
Apart-IsCut sql l (IsCut.ends_blank n c h b) =
    Apart-le 0 n (length sql + 1) l (Apart-Cut sql n l c) (omega arith)
Apart-IsCut sql l (IsCut.ends_span n l' c h b e) =
    subst (Apart 0 (length sql + 1)) (sym e)
      (Apart-push 0 n (length sql) l' (Apart-Cut sql n l' c) h)

Apart-start :
    (n m i : ℕ) (l : List Span) (s : Span) → Apart n m l → get_elem? l i ≡ some s → n ≤ s.start
Apart-start n m i [] s h e = ground arith
Apart-start n m zero (t ∷ l) s h e = subst (λ x. n ≤ x.start) (some-injective t s e) h.0
Apart-start n m (suc i) (t ∷ l) s h e =
    omega (arith, h.0, h.1, Apart-start (t.end + 1) m i l s h.3 e)

find-Apart :
    (n m cursor i : ℕ) (l : List Span) (s : Span)
    → Apart n m l
    → get_elem? l i ≡ some s
    → s.start ≤ cursor
    → cursor ≤ s.end
    → find (touches cursor) l ≡ some s
find-Apart n m cursor i [] s h e p q = ground arith
find-Apart n m cursor zero (t ∷ l) s h e p q =
    let same : t ≡ s = some-injective t s e in
    let hit : touches cursor s ≡ true = ground arith in rw (ap (touches cursor) same ∙ hit) e
find-Apart n m cursor (suc i) (t ∷ l) s h e p q =
    let above : t.end + 1 ≤ s.start = Apart-start (t.end + 1) m i l s h.3 e in
    let miss : touches cursor t ≡ false = ground arith in
    rw miss (find-Apart (t.end + 1) m cursor i l s h.3 e p q)

among-find :
    (sql : Text) (cursor : ℕ) (l : List Span) (s : Span)
    → find (touches cursor) l ≡ some s
    → statement_among sql cursor l ≡ s
among-find sql cursor [] s e = ground arith
among-find sql cursor (t ∷ l) s e = ap (first_or_last t l) e

-- The spans are in order, none of them ends before it begins, between each two of them there is a
-- byte that belongs to neither, and none ends behind the text.
pub split_statements-Apart : (sql : Text) → Apart 0 (length sql + 1) (split_statements sql)
split_statements-Apart sql = Apart-IsCut sql (split_statements sql) (split_statements-IsCut sql)

-- A cursor that is within one of the statements, or right behind its last byte, gets that statement.
pub statement_at_lem :
    (sql : Text) (cursor i : ℕ) (s : Span)
    → get_elem? (split_statements sql) i ≡ some s
    → s.start ≤ cursor
    → cursor ≤ s.end
    → statement_at sql cursor ≡ s
unfolding statement_at
statement_at_lem sql cursor i s e p q = among-find sql cursor (split_statements sql) s (
    find-Apart 0 (length sql + 1) cursor i (split_statements sql) s (split_statements-Apart sql) e p
      q)
