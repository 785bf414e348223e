-- ===== src/Grid/Selection/Spans.antt =====
-- The rows and columns that hold a selected cell (`spans`, `selected_rows`, `selected_row_count`,
-- `selected_cols`).
use dat.Prelude.{
  ℕ, zero, suc, ◌+◌, ◌-◌, ◌%◌, ◌^◌, Bool, ◌&&◌, ◌||◌, List, [], ◌∷◌, ◌++◌, leb, ltb, ◌==◌,
  if◌then◌else◌, min, max, map,
}
use mathlib.Core.List.{reverse}
use dat.Grid.Selection.{CellRange, SelectionModel}

abbrev pub Span : Type 0
Span = ℕ × ℕ

abbrev pub row_axis : CellRange → Span
row_axis rg = (rg.r0, rg.r1)

abbrev pub col_axis : CellRange → Span
col_axis rg = (rg.c0, rg.c1)

abbrev pub ordered : Span → Span
ordered (a, b) = (min a b, max a b)

-- The order of pairs.
abbrev pub span_le : Span → Span → Bool
span_le (a, b) (c, d) = ltb a c || (a == c && leb b d)

-- `sort_unstable`: equal pairs are one, so the sorted vector is determined.
unfoldable pub insert_span : Span → List Span → List Span
insert_span s [] = s ∷ []
insert_span s (t ∷ l) = if span_le s t then s ∷ t ∷ l else t ∷ insert_span s l

unfoldable pub sort_spans : List Span → List Span
unfolding insert_span
sort_spans [] = []
sort_spans (s ∷ l) = insert_span s (sort_spans l)

abbrev pub usize_max : ℕ
usize_max = 2 ^ 64 - 1

abbrev pub saturating_add : ℕ → ℕ → ℕ
saturating_add a b = min (a + b) usize_max

-- One round of the loop; the last of the merged spans is the head here.
abbrev pub merge_round : List Span → Span → List Span
merge_round [] (a, b) = (a, b) ∷ []
merge_round ((x, end) ∷ below) (a, b) =
    if leb a (saturating_add end 1) then (x, max end b) ∷ below else (a, b) ∷ (x, end) ∷ below

unfoldable pub merge_spans : List Span → List Span → List Span
merge_spans merged [] = reverse merged
merge_spans merged (s ∷ l) = merge_spans (merge_round merged s) l

unfoldable pub spans : (CellRange → Span) → SelectionModel → List Span
unfolding sort_spans merge_spans
spans axis s = merge_spans [] (sort_spans (map (λ rg. ordered (axis rg)) s.ranges))

abbrev pub up_from : ℕ → ℕ → List ℕ
up_from a zero = []
up_from a (suc n) = a ∷ up_from (a + 1) n

-- `a..=b`
abbrev pub indices : List Span → List ℕ
indices [] = []
indices ((a, b) ∷ l) = up_from a (b + 1 - a) ++ indices l

unfoldable pub selected_rows : SelectionModel → List ℕ
unfolding spans
selected_rows s = indices (spans row_axis s)

unfoldable pub selected_cols : SelectionModel → List ℕ
unfolding spans
selected_cols s = indices (spans col_axis s)

abbrev pub count_from : ℕ → List Span → ℕ
count_from n [] = n
count_from n ((a, b) ∷ l) = count_from (saturating_add n ((b - a + 1) % 2 ^ 64)) l

unfoldable pub selected_row_count : SelectionModel → ℕ
unfolding spans
selected_row_count s = count_from 0 (spans row_axis s)
