-- ===== src/Grid/Selection/Rows.antt =====
-- `selected_rows`, `selected_cols` and `selected_row_count`.
use dat.Prelude.{
  ℕ, zero, suc, ◌+◌, ◌-◌, ◌%◌, ◌^◌, ◌≤◌, ◌<◌, Bool, true, ◌&&◌, List, [], ◌∷◌, ◌++◌, leb, ◌==◌,
  if◌then◌else◌, min, max, map, any, ◌≡◌, refl, ap, ◌∙◌, arith, length, length-append,
}
use dat.Prelude.Predicates.{All}
use dat.Grid.Selection.{CellRange, SelectionModel}
use dat.Grid.Selection.Spans.{
  Span, row_axis, col_axis, ordered, saturating_add, usize_max, up_from, indices, selected_rows,
  selected_cols, count_from, selected_row_count,
}
use dat.Grid.Selection.Merged.{holds, covers, Apart, AllSized, merge_spans-sort}

-- Strictly ascending, from `n` on.
abbrev pub AscendsFrom : ℕ → List ℕ → Type 0
AscendsFrom n [] = Unit
AscendsFrom n (x ∷ l) = (n ≤ x) × AscendsFrom (suc x) l

AscendsFrom-le : (n m : ℕ) (l : List ℕ) → n ≤ m → AscendsFrom m l → AscendsFrom n l
AscendsFrom-le n m [] h k = tt
AscendsFrom-le n m (x ∷ l) h k = (omega arith, k.1)

AscendsFrom-up_from :
    (n a k : ℕ) (l : List ℕ) → n ≤ a → AscendsFrom (a + k) l → AscendsFrom n (up_from a k ++ l)
AscendsFrom-up_from n a zero l h r = AscendsFrom-le n (a + 0) l (omega arith) r
AscendsFrom-up_from n a (suc k) l h r = (
  h,
  AscendsFrom-up_from (suc a) (a + 1) k l (omega arith)
      (AscendsFrom-le (a + 1 + k) (a + suc k) l (omega arith) r),
)

AscendsFrom-indices : (n : ℕ) (l : List Span) → Apart n l → AscendsFrom n (indices l)
AscendsFrom-indices n [] h = tt
AscendsFrom-indices n ((a, b) ∷ l) h = AscendsFrom-up_from n a (b + 1 - a) (indices l) h.0 (
    AscendsFrom-le (a + (b + 1 - a)) (suc b) (indices l) (omega arith)
      (AscendsFrom-indices (suc b) l h.3))

abbrev pub member : ℕ → List ℕ → Bool
member r l = any (λ q. q == r) l

member-up_from :
    (r a k : ℕ) (l : List ℕ)
    → member r (up_from a k ++ l) ≡ (if leb a r && leb (r + 1) (a + k) then true else member r l)
member-up_from r a zero l = ground arith
member-up_from r a (suc k) l = ground (arith, member-up_from r (a + 1) k l)

member-indices : (r n : ℕ) (l : List Span) → Apart n l → member r (indices l) ≡ covers r l
member-indices r n [] h = refl
member-indices r n ((a, b) ∷ l) h =
    ground (arith, member-up_from r a (b + 1 - a) (indices l), member-indices r (suc b) l h.3)

length-up_from : (a k : ℕ) → length (up_from a k) ≡ k
length-up_from a zero = refl
length-up_from a (suc k) = ap suc (length-up_from (a + 1) k)

count_from-indices :
    (n m : ℕ) (l : List Span)
    → n ≤ usize_max
    → Apart m l
    → count_from n l ≡ min (n + length (indices l)) usize_max
count_from-indices n m [] h k = omega arith
count_from-indices n m ((a, b) ∷ l) h k =
    count_from-indices (saturating_add n ((b - a + 1) % 2 ^ 64)) (suc b) l (omega arith) k.3
    ∙ omega (
      arith,
      length-append (up_from a (b + 1 - a)) (indices l),
      length-up_from a (b + 1 - a),
      k.0,
      k.1,
      k.2,
    )

-- Every coordinate fits an `isize`.
abbrev pub IsSized : SelectionModel → Type 0
IsSized s =
    All (λ rg. (rg.r0 < 2 ^ 63) × (rg.r1 < 2 ^ 63) × (rg.c0 < 2 ^ 63) × (rg.c1 < 2 ^ 63)) s.ranges

-- Whether a range reaches into a row, or a column.
abbrev pub row_in : ℕ → CellRange → Bool
row_in r rg = leb (min rg.r0 rg.r1) r && leb r (max rg.r0 rg.r1)

abbrev pub col_in : ℕ → CellRange → Bool
col_in c rg = leb (min rg.c0 rg.c1) c && leb c (max rg.c0 rg.c1)

module _ (axis : CellRange → Span) where
  any-map :
      (r : ℕ) (l : List CellRange)
      → covers r (map (λ rg. ordered (axis rg)) l) ≡ any (λ rg. holds r (ordered (axis rg))) l
  any-map r [] = refl
  any-map r (rg ∷ l) = rw (any-map r l)

rows-sized :
    (l : List CellRange)
    → All (λ rg. (rg.r0 < 2 ^ 63) × (rg.r1 < 2 ^ 63) × (rg.c0 < 2 ^ 63) × (rg.c1 < 2 ^ 63)) l
    → AllSized (map (λ rg. ordered (row_axis rg)) l)
rows-sized [] h = tt
rows-sized (rg ∷ l) h = ((omega arith, omega arith), rows-sized l h.1)

cols-sized :
    (l : List CellRange)
    → All (λ rg. (rg.r0 < 2 ^ 63) × (rg.r1 < 2 ^ 63) × (rg.c0 < 2 ^ 63) × (rg.c1 < 2 ^ 63)) l
    → AllSized (map (λ rg. ordered (col_axis rg)) l)
cols-sized [] h = tt
cols-sized (rg ∷ l) h = ((omega arith, omega arith), cols-sized l h.1)

-- With coordinates below 2^63, `selected_rows` is strictly ascending, so that it names no row
-- twice, and it holds exactly the rows that some range reaches into; `selected_row_count` is its
-- length, cut at the largest `usize`. `selected_cols` is the same for the columns.
pub selected_rows_lem :
    (s : SelectionModel)
    → IsSized s
    → AscendsFrom 0 (selected_rows s)
      × ((r : ℕ) → member r (selected_rows s) ≡ any (row_in r) s.ranges)
      × (selected_row_count s ≡ min (length (selected_rows s)) usize_max)
      × AscendsFrom 0 (selected_cols s)
      × ((c : ℕ) → member c (selected_cols s) ≡ any (col_in c) s.ranges)
unfolding selected_rows selected_cols selected_row_count
selected_rows_lem s h =
    let (apart, same) =
      merge_spans-sort (map (λ rg. ordered (row_axis rg)) s.ranges) (rows-sized s.ranges h) in
    let (apart', same') =
      merge_spans-sort (map (λ rg. ordered (col_axis rg)) s.ranges) (cols-sized s.ranges h) in
    (
      AscendsFrom-indices 0 _ apart,
      λ r. member-indices r 0 _ apart ∙ same r ∙ any-map row_axis r s.ranges,
      count_from-indices 0 0 _ (omega arith) apart ∙ omega arith,
      AscendsFrom-indices 0 _ apart',
      λ c. member-indices c 0 _ apart' ∙ same' c ∙ any-map col_axis c s.ranges,
    )
