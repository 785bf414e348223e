-- ===== src/Query/Statement/Cuts.antt =====
-- What `split_statements` gives: the segments between some of the semicolons.
use dat.Prelude.{
  ℕ, ◌+◌, ◌≤◌, Bool, true, false, List, [], ◌∷◌, ◌++◌, Text, Option, some, ◌==◌, ◌&&◌,
  if◌then◌else◌, ◌≡◌, refl, ap, ◌∙◌, arith, Bool-cases, inl, inr, drop, length, get_elem?, head?,
}
use mathlib.Core.Path.{subst}
use dat.Prelude.Scan.{scan}
use dat.Prelude.Slices.{tail, drop-next, get_elem?-drop}
use dat.Query.Statement.Blank.{is_blank}
use dat.Query.Statement.{
  Span, ScanState, Splitter, slice, push_span, follows, advance, advance_two, cut, normal_round,
  split_round, initial, finish, split_statements, normal, single_quote, double_quote, line_comment,
  block_comment,
}

-- `spans` are the segments of `sql` between its beginning and `n` that are not blank, for a choice of
-- semicolons to cut at, the last one right before `n`.
pub data Cut (sql : Text) : ℕ → List Span → Type 0 where
  cut_start : Cut sql 0 []
  cut_blank :
      {n : ℕ} {l : List Span} (e : ℕ)
      → Cut sql n l
      → n ≤ e
      → get_elem? sql e ≡ some b';'
      → is_blank (slice sql n e) ≡ true
      → Cut sql (e + 1) l
  cut_span :
      {n : ℕ} {l : List Span} (e : ℕ)
      → Cut sql n l
      → n ≤ e
      → get_elem? sql e ≡ some b';'
      → is_blank (slice sql n e) ≡ false
      → Cut sql (e + 1) (l ++ record { start = n; end = e } ∷ [])

-- All of the text: the segment behind the last semicolon belongs to it, where it is not blank.
pub data IsCut (sql : Text) (l : List Span) : Type 0 where
  ends_blank :
      (n : ℕ)
      → Cut sql n l
      → n ≤ length sql
      → is_blank (slice sql n (length sql)) ≡ true
      → IsCut sql l
  ends_span :
      (n : ℕ) (l' : List Span)
      → Cut sql n l'
      → n ≤ length sql
      → is_blank (slice sql n (length sql)) ≡ false
      → l ≡ l' ++ record { start = n; end = length sql } ∷ []
      → IsCut sql l

-- Where a round that took the next byte leaves the text.
abbrev skip : Bool → Text → Text
skip false rest = rest
skip true rest = tail rest

-- Where the scan stands: the cuts so far, and the bytes that are left.
record Stands (sql : Text) (s : Splitter) (rest : Text) : Type 0 where
  cuts : Cut sql s.seg_start s.spans
  behind : s.seg_start ≤ s.i
  inside : s.seg_start ≤ length sql
  here : drop s.i sql ≡ rest

push-Cut :
    (sql : Text) (s : Splitter) (rest : Text)
    → Stands sql s (b';' ∷ rest)
    → Cut sql (s.i + 1) (push_span sql s.spans s.seg_start s.i)
unfolding push_span
push-Cut sql s rest k = elim (Bool-cases (is_blank (slice sql s.seg_start s.i))) [
  | inl t ↦ rw t (cut_blank s.i k.cuts k.behind (get_elem?-drop sql s.i _ rest k.here).0 t)
  | inr f ↦ rw f (cut_span s.i k.cuts k.behind (get_elem?-drop sql s.i _ rest k.here).0 f)
]

pub by_test {ℓ κ} :
    {A : Type ℓ} (P : A → Type κ) (b : Bool) (x y : A)
    → (b ≡ true → P x)
    → (b ≡ false → P y)
    → P (if b then x else y)
by_test P true x y h k = h refl
by_test P false x y h k = k refl

module _ (sql : Text) (s : Splitter) (c : ℕ) (rest : Text) (k : Stands sql s (c ∷ rest)) where
  -- A round may end like this.
  abbrev Follows : Splitter × Bool → Type 0
  Follows (s', taken) = Stands sql s' (skip taken rest)

  next_here : drop (s.i + 1) sql ≡ rest
  next_here = drop-next sql s.i (s.i + 1) (omega arith) ∙ ap tail k.here

  advance-Follows : (st : ScanState) → Follows (advance s st)
  advance-Follows st = record {
    cuts = k.cuts;
    behind = omega (arith, k.behind);
    inside = k.inside;
    here = next_here;
  }

  advance_two-Follows : (st : ScanState) → Follows (advance_two s st)
  advance_two-Follows st = record {
    cuts = k.cuts;
    behind = omega (arith, k.behind);
    inside = k.inside;
    here = drop-next sql (s.i + 1) (s.i + 2) (omega arith) ∙ ap tail next_here;
  }

  cut-Follows : c ≡ b';' → Follows (cut sql s)
  cut-Follows e = record {
    cuts = push-Cut sql s rest (subst (λ d. Stands sql s (d ∷ rest)) e k);
    behind = omega arith;
    inside = omega (arith, (get_elem?-drop sql s.i c rest k.here).1);
    here = next_here;
  }

  normal_round-Follows : (next : Option ℕ) → Follows (normal_round sql s c next)
  unfolding normal_round
  normal_round-Follows next =
      by_test Follows (c == b'\'') _ _ (λ e. advance-Follows single_quote)
        (λ e.
          by_test Follows (c == b'"') _ _ (λ e. advance-Follows double_quote)
            (λ e.
              by_test Follows (c == b'-' && follows next b'-') _ _
                (λ e. advance_two-Follows line_comment)
                (λ e.
                  by_test Follows (c == b'/' && follows next b'*') _ _
                    (λ e. advance_two-Follows block_comment)
                    (λ e.
                      by_test Follows (c == b';') _ _ (λ e. cut-Follows (ground arith))
                        (λ e. advance-Follows normal)))))

  split_round-Follows : (st : ScanState) (next : Option ℕ) → Follows (split_round sql st s c next)
  unfolding split_round
  split_round-Follows normal next = normal_round-Follows next
  split_round-Follows single_quote next = advance-Follows _
  split_round-Follows double_quote next = advance-Follows _
  split_round-Follows line_comment next = advance-Follows _
  split_round-Follows block_comment next =
      by_test Follows (c == b'*' && follows next b'/') _ _ (λ e. advance_two-Follows normal)
        (λ e. advance-Follows block_comment)

scan-Stands :
    (sql : Text) (taken : Bool) (s : Splitter) (rest : Text)
    → Stands sql s (skip taken rest)
    → Stands sql (scan (λ t. split_round sql t.state t) taken s rest) []
unfolding scan
scan-Stands sql true s [] k = k
scan-Stands sql false s [] k = k
scan-Stands sql true s (c ∷ rest) k = scan-Stands sql false s rest k
scan-Stands sql false s (c ∷ rest) k =
    let (s', taken) = split_round sql s.state s c (head? rest) in
    scan-Stands sql taken s' rest (split_round-Follows sql s c rest k s.state (head? rest))

finish-IsCut : (sql : Text) (s : Splitter) → Stands sql s [] → IsCut sql (finish sql s)
unfolding push_span
finish-IsCut sql s k = elim (Bool-cases (is_blank (slice sql s.seg_start (length sql)))) [
  | inl t ↦ rw t (ends_blank s.seg_start k.cuts k.inside t)
  | inr f ↦ rw f (ends_span s.seg_start s.spans k.cuts k.inside f refl)
]

-- The spans are the segments of the text that are not blank, for a cut of it at some of its
-- semicolons.
pub split_statements-IsCut : (sql : Text) → IsCut sql (split_statements sql)
unfolding split_statements
split_statements-IsCut sql = finish-IsCut sql _ (
    scan-Stands sql false initial sql
      (record { cuts = cut_start; behind = omega arith; inside = omega arith; here = refl }))
