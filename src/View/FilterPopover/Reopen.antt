-- ===== src/View/FilterPopover/Reopen.antt =====
-- Opening the popover on a filter and applying it at once.
use dat.Prelude.{
  ℕ, Bool, true, false, ◌&&◌, not, List, [], ◌∷◌, Text, Option, none, some, ◌≡◌, refl, sym, ap, ap₂,
  arith, ◌==◌, all, map, ℤ, text_eq,
}
use mathlib.Core.Bool.{true≢false}
use dat.Prelude.Parsing.{parse_i64, is_i64, parse_i64-decimal_ℤ}
use dat.Engine.Transform.{
  Scalar, bool, int, float, str, date, timestamp, FilterOp, eq, between, in_list, regex, is_empty,
  is_not_empty, is_true, is_false, FilterValue, scalar, range, list, filter,
}
use dat.Engine.Render.Literal.{Host}
use dat.View.Model.{is_nil}
use dat.View.FilterPopover.{
  FloatText, ColumnType, numeric, string, boolean, day, instant, build, compiles, parse_scalar,
  parse_numeric, scalar_to_display, fill, empty_popover, revalidate_regex,
}
use dat.View.Model.Action.{apply_filter}
use dat.View.FilterPopover.Events.{reapplied, press}

-- The text of a float is no `i64` and parses to the float.
abbrev is_float_text : ℕ → Option ℤ → Option ℕ → Bool
is_float_text x none (some y) = x == y
is_float_text x _ _ = false

-- A scalar that a column of the type compares with: an `i64`, or a float whose text is that of no
-- `i64`, in a numeric column, and a scalar of the column's own type in the others.
abbrev pub fits_scalar : FloatText → ColumnType → Scalar → Bool
fits_scalar f numeric (int i) = is_i64 i
fits_scalar f numeric (float x) =
    is_float_text x (parse_i64 (f.display_f64 x)) (f.parse_f64 (f.display_f64 x))
fits_scalar f string (str _) = true
fits_scalar f boolean (bool _) = true
fits_scalar f day (date _) = true
fits_scalar f instant (timestamp _) = true
fits_scalar f _ _ = false

abbrev is_shown : FloatText → Scalar → Bool
is_shown f x = not (is_nil (scalar_to_display f x))

-- A value that the operator takes and the column type fits, with no empty text to compare with.
abbrev pub fits : Host → FloatText → ColumnType → FilterOp → FilterValue → Bool
fits h f ct is_empty FilterValue.none = true
fits h f ct is_not_empty FilterValue.none = true
fits h f ct is_true FilterValue.none = true
fits h f ct is_false FilterValue.none = true
fits h f ct is_empty _ = false
fits h f ct is_not_empty _ = false
fits h f ct is_true _ = false
fits h f ct is_false _ = false
fits h f ct between (range lo hi _) =
    fits_scalar f ct lo && fits_scalar f ct hi && is_shown f lo && is_shown f hi
fits h f ct between _ = false
fits h f ct in_list (list items) = not (is_nil items) && all (fits_scalar f ct) items
fits h f ct in_list _ = false
fits h f ct regex (scalar (str s)) = compiles h s
fits h f ct regex _ = false
fits h f ct _ (scalar x) = fits_scalar f ct x && is_shown f x
fits h f ct _ _ = false

and_both : (a b : Bool) → (a && b) ≡ true → (a ≡ true) × (b ≡ true)
and_both true b r = (refl, r)
and_both false b r = absurd (true≢false (sym r))

module _ (f : FloatText) where
  parse_numeric-float :
      (x : ℕ) (text : Text) (i : Option ℤ) (y : Option ℕ)
      → is_float_text x i y ≡ true
      → parse_numeric text i y ≡ float x
  parse_numeric-float x text none (some y) r = ap float (ground arith)
  parse_numeric-float x text none none r = absurd (true≢false (sym r))
  parse_numeric-float x text (some i) y r = absurd (true≢false (sym r))

  -- What is displayed parses back.
  parse_scalar-scalar_to_display :
      (ct : ColumnType) (x : Scalar)
      → fits_scalar f ct x ≡ true
      → parse_scalar f (scalar_to_display f x) ct ≡ x
  unfolding text_eq
  parse_scalar-scalar_to_display numeric (int i) r = rw (parse_i64-decimal_ℤ i r) refl
  parse_scalar-scalar_to_display numeric (float x) r = parse_numeric-float x _ _ _ r
  parse_scalar-scalar_to_display string (str s) r = refl
  parse_scalar-scalar_to_display boolean (bool true) r = refl
  parse_scalar-scalar_to_display boolean (bool false) r = refl
  parse_scalar-scalar_to_display day (date s) r = refl
  parse_scalar-scalar_to_display instant (timestamp s) r = refl
  parse_scalar-scalar_to_display _ _ r = absurd (true≢false (sym r))

  map_parse-map_display :
      (ct : ColumnType) (items : List Scalar)
      → all (fits_scalar f ct) items ≡ true
      → map (λ t. parse_scalar f t ct) (map (scalar_to_display f) items) ≡ items
  map_parse-map_display ct [] r = refl
  map_parse-map_display ct (x ∷ items) r =
      ap₂ (λ y ys. y ∷ ys) (parse_scalar-scalar_to_display ct x (ground arith))
        (map_parse-map_display ct items (ground arith))

  module _ (h : Host) where
    list-fill :
        (column : Text) (ct : ColumnType) (first : FilterOp) (items : List Scalar)
        → fits h f ct in_list (list items) ≡ true
        → build f (
            revalidate_regex h
              (fill f (empty_popover column ct first) (filter column in_list (list items))))
          ≡ some (filter column in_list (list items))
    unfolding build
    list-fill column ct first [] r = absurd (true≢false (sym r))
    list-fill column ct first (x ∷ items) r = rw (map_parse-map_display ct (x ∷ items) r) refl

    build-fill :
        (column : Text) (ct : ColumnType) (first op : FilterOp) (value : FilterValue)
        → fits h f ct op value ≡ true
        → build f
            (revalidate_regex h (fill f (empty_popover column ct first) (filter column op value)))
          ≡ some (filter column op value)
    unfolding build
    build-fill column ct first is_empty FilterValue.none r = refl
    build-fill column ct first is_not_empty FilterValue.none r = refl
    build-fill column ct first is_true FilterValue.none r = refl
    build-fill column ct first is_false FilterValue.none r = refl
    build-fill column ct first is_empty _ r = absurd (true≢false (sym r))
    build-fill column ct first is_not_empty _ r = absurd (true≢false (sym r))
    build-fill column ct first is_true _ r = absurd (true≢false (sym r))
    build-fill column ct first is_false _ r = absurd (true≢false (sym r))
    build-fill column ct first between (range lo hi i) r =
        let b = and_both _ (is_shown f hi) r in
        let c = and_both _ (is_shown f lo) b.0 in
        let d = and_both (fits_scalar f ct lo) (fits_scalar f ct hi) c.0 in
        rw (c.1, b.1)
          (rw (parse_scalar-scalar_to_display ct lo d.0, parse_scalar-scalar_to_display ct hi d.1)
            refl)
    build-fill column ct first between _ r = absurd (true≢false (sym r))
    build-fill column ct first in_list (list items) r = list-fill column ct first items r
    build-fill column ct first in_list _ r = absurd (true≢false (sym r))
    build-fill column ct first regex (scalar (str s)) r = rw r refl
    build-fill column ct first regex _ r = absurd (true≢false (sym r))
    build-fill column ct first _ (scalar x) r =
        let b = and_both (fits_scalar f ct x) _ r in
        rw b.1 (rw (parse_scalar-scalar_to_display ct x b.0) refl)
    build-fill column ct first _ _ r = absurd (true≢false (sym r))

-- Opening the popover on a filter of the column and pressing Apply hands back that very filter: its
-- scalars print to texts that parse to them, an `i64` by its decimal form. The value is to fit the
-- operator and the column type, a float is to print as no `i64` and parse back, and a scalar or a
-- range is to print no empty text.
pub press-open_popover :
    (h : Host) (f : FloatText) (column : Text) (ct : ColumnType) (op : FilterOp)
    (value : FilterValue)
    → fits h f ct op value ≡ true
    → reapplied h f column ct (filter column op value)
      ≡ some (apply_filter (filter column op value))
unfolding press
press-open_popover h f column numeric op value r =
    rw (build-fill f h column numeric eq op value r) refl
press-open_popover h f column string op value r =
    rw (build-fill f h column string eq op value r) refl
press-open_popover h f column boolean op value r =
    rw (build-fill f h column boolean is_true op value r) refl
press-open_popover h f column day op value r = rw (build-fill f h column day eq op value r) refl
press-open_popover h f column instant op value r =
    rw (build-fill f h column instant eq op value r) refl
