-- ===== src/View/FilterPopover.antt =====
-- The filter popover's state (crates/dat0-core/src/view/filter_popover.rs). Texts are lists of code
-- points.
pub mod Events
pub mod Step
pub mod Apply
pub mod Reopen
mod Examples
use dat.Prelude.{
  ℕ, Bool, true, false, ◌&&◌, ◌||◌, not, List, [], ◌∷◌, Text, codes, Option, none, some, ◌==◌, leb,
  ◌+◌, ◌-◌, if◌then◌else◌, any, text_eq, map, head?, ℤ,
}
use dat.Prelude.Decimal.{decimal_ℤ}
use dat.Prelude.Parsing.{parse_i64}
use dat.Engine.Transform.{
  Scalar, null, bool, int, float, str, date, timestamp, FilterOp, eq, neq, lt, lte, gt, gte,
  between, contains, not_contains, starts_with, ends_with, in_list, regex, is_empty, is_not_empty,
  is_true, is_false, FilterValue, scalar, range, list, Transformation, filter,
}
use dat.Engine.Render.Literal.{Host}
use dat.View.Model.{is_nil}

-- `parse::<f64>` and the `{}` form of an `f64`, which is given by its bits.
pub record FloatText : Type 0 where
  pub parse_f64 : Text → Option ℕ
  pub display_f64 : ℕ → Text

pub data ColumnType : Type 0 where
  numeric string boolean day instant : ColumnType

abbrev to_upper : ℕ → ℕ
to_upper c = if leb b'a' c && leb c b'z' then c - 32 else c

abbrev to_lower : ℕ → ℕ
to_lower c = if leb b'A' c && leb c b'Z' then c + 32 else c

-- `split('(').next()`
abbrev before_paren : Text → Text
before_paren [] = []
before_paren (c ∷ s) = if c == b'(' then [] else c ∷ before_paren s

-- The characters with the Unicode property White_Space.
abbrev is_whitespace : ℕ → Bool
is_whitespace c =
    (leb 9 c && leb c 13)
    || c == 32
    || c == 133
    || c == 160
    || c == 5760
    || (leb 8192 c && leb c 8202)
    || c == 8232
    || c == 8233
    || c == 8239
    || c == 8287
    || c == 12288

abbrev trim_start : Text → Text
trim_start [] = []
trim_start (c ∷ s) = if is_whitespace c then trim_start s else c ∷ s

abbrev trim_end : Text → Text
trim_end [] = []
trim_end (c ∷ s) = let rest = trim_end s in if is_whitespace c && is_nil rest then [] else c ∷ rest

unfoldable pub trim : Text → Text
trim s = trim_end (trim_start s)

abbrev is_one_of : Text → List Text → Bool
is_one_of s names = any (text_eq s) names

abbrev numeric_names : List Text
numeric_names =
    codes "INTEGER"
    ∷ codes "INT"
    ∷ codes "INT4"
    ∷ codes "INT2"
    ∷ codes "INT8"
    ∷ codes "BIGINT"
    ∷ codes "SMALLINT"
    ∷ codes "TINYINT"
    ∷ codes "UBIGINT"
    ∷ codes "UINTEGER"
    ∷ codes "USMALLINT"
    ∷ codes "UTINYINT"
    ∷ codes "HUGEINT"
    ∷ codes "UHUGEINT"
    ∷ codes "FLOAT"
    ∷ codes "REAL"
    ∷ codes "DOUBLE"
    ∷ codes "DECIMAL"
    ∷ codes "NUMERIC"
    ∷ codes "FLOAT4"
    ∷ codes "FLOAT8"
    ∷ []

abbrev timestamp_names : List Text
timestamp_names =
    codes "TIMESTAMP"
    ∷ codes "DATETIME"
    ∷ codes "TIMESTAMP_S"
    ∷ codes "TIMESTAMP_MS"
    ∷ codes "TIMESTAMP_NS"
    ∷ codes "TIMESTAMP WITH TIME ZONE"
    ∷ codes "TIMESTAMPTZ"
    ∷ []

abbrev type_named : Text → ColumnType
type_named base =
    if is_one_of base numeric_names
    then numeric
    else if is_one_of base (codes "BOOLEAN" ∷ codes "BOOL" ∷ [])
    then boolean
    else if text_eq base (codes "DATE")
    then day
    else if is_one_of base timestamp_names
    then instant
    else string

unfoldable pub from_duckdb_type : Text → ColumnType
unfolding trim
from_duckdb_type s = type_named (trim (before_paren (map to_upper s)))

-- In the order of the drop-down list.
abbrev ordered_ops : List FilterOp
ordered_ops = eq ∷ neq ∷ lt ∷ lte ∷ gt ∷ gte ∷ between ∷ in_list ∷ is_empty ∷ is_not_empty ∷ []

abbrev pub supported_ops_for : ColumnType → List FilterOp
supported_ops_for numeric = ordered_ops
supported_ops_for string =
    eq ∷ neq ∷ contains ∷ not_contains ∷ starts_with ∷ ends_with ∷ in_list ∷ regex ∷ is_empty
    ∷ is_not_empty ∷ []
supported_ops_for boolean = is_true ∷ is_false ∷ is_empty ∷ []
supported_ops_for day = ordered_ops
supported_ops_for instant = ordered_ops

pub record FilterPopoverState : Type 0 where
  pub column : Text
  pub column_type : ColumnType
  pub op : FilterOp
  pub value_text : Text
  pub range_lo : Text
  pub range_hi : Text
  pub range_inclusive : Bool
  pub list_values : List Text
  pub regex_valid : Option Bool
  pub pre_populated : Bool

abbrev pub empty_popover : Text → ColumnType → FilterOp → FilterPopoverState
empty_popover column column_type op = record {
  column = column;
  column_type = column_type;
  op = op;
  value_text = [];
  range_lo = [];
  range_hi = [];
  range_inclusive = true;
  list_values = [];
  regex_valid = none;
  pre_populated = false;
}

abbrev new_with : Text → ColumnType → Option FilterOp → Option FilterPopoverState
new_with column column_type none = none
new_with column column_type (some op) = some (empty_popover column column_type op)

-- `none` where the `expect` on the first operator panics.
abbrev pub new : Text → ColumnType → Option FilterPopoverState
new column column_type = new_with column column_type (head? (supported_ops_for column_type))

abbrev pub is_regex : FilterOp → Bool
is_regex regex = true
is_regex _ = false

abbrev pub set_op : FilterPopoverState → FilterOp → FilterPopoverState
set_op s op = if is_regex op then record s { op = op } else record s { op = op; regex_valid = none }

abbrev pub set_value_text : FilterPopoverState → Text → FilterPopoverState
set_value_text s text = record s { value_text = text }

abbrev pub set_range_lo : FilterPopoverState → Text → FilterPopoverState
set_range_lo s text = record s { range_lo = text }

abbrev pub set_range_hi : FilterPopoverState → Text → FilterPopoverState
set_range_hi s text = record s { range_hi = text }

abbrev pub set_range_inclusive : FilterPopoverState → Bool → FilterPopoverState
set_range_inclusive s inclusive = record s { range_inclusive = inclusive }

-- `Regex::new(pattern).is_ok()`
abbrev pub compiles : Host → Text → Bool
compiles h pattern = elim (h.regex_error pattern) [ none ↦ true | some _ ↦ false ]

abbrev pub revalidate_regex : Host → FilterPopoverState → FilterPopoverState
revalidate_regex h s =
    if is_regex s.op
    then record s { regex_valid = some (compiles h s.value_text) }
    else record s { regex_valid = none }

abbrev pub is_some_true : Option Bool → Bool
is_some_true (some true) = true
is_some_true _ = false

-- The `match` of `can_apply` on the operator.
abbrev pub can_apply_op : FilterOp → FilterPopoverState → Bool
can_apply_op is_empty s = true
can_apply_op is_not_empty s = true
can_apply_op is_true s = true
can_apply_op is_false s = true
can_apply_op between s = not (is_nil s.range_lo) && not (is_nil s.range_hi)
can_apply_op in_list s = not (is_nil s.list_values)
can_apply_op regex s = is_some_true s.regex_valid
can_apply_op _ s = not (is_nil s.value_text)

abbrev pub can_apply : FilterPopoverState → Bool
can_apply s = can_apply_op s.op s

abbrev parse_numeric : Text → Option ℤ → Option ℕ → Scalar
parse_numeric text (some i) _ = int i
parse_numeric text none (some f) = float f
parse_numeric text none none = str text

abbrev parse_boolean : Text → Text → Scalar
parse_boolean text lower =
    if is_one_of lower (codes "true" ∷ codes "1" ∷ codes "t" ∷ [])
    then bool true
    else if is_one_of lower (codes "false" ∷ codes "0" ∷ codes "f" ∷ [])
    then bool false
    else str text

abbrev pub parse_scalar : FloatText → Text → ColumnType → Scalar
parse_scalar f text numeric = parse_numeric text (parse_i64 text) (f.parse_f64 text)
parse_scalar f text string = str text
parse_scalar f text boolean = parse_boolean text (map to_lower text)
parse_scalar f text day = date text
parse_scalar f text instant = timestamp text

abbrev pub scalar_to_display : FloatText → Scalar → Text
scalar_to_display f null = codes "NULL"
scalar_to_display f (bool true) = codes "true"
scalar_to_display f (bool false) = codes "false"
scalar_to_display f (int i) = decimal_ℤ i
scalar_to_display f (float x) = f.display_f64 x
scalar_to_display f (str s) = s
scalar_to_display f (date s) = s
scalar_to_display f (timestamp s) = s

-- The `match` of `build` on the operator.
abbrev pub value_of : FloatText → FilterOp → FilterPopoverState → FilterValue
value_of f is_empty s = FilterValue.none
value_of f is_not_empty s = FilterValue.none
value_of f is_true s = FilterValue.none
value_of f is_false s = FilterValue.none
value_of f between s =
    range (parse_scalar f s.range_lo s.column_type) (parse_scalar f s.range_hi s.column_type)
      s.range_inclusive
value_of f in_list s = list (map (λ t. parse_scalar f t s.column_type) s.list_values)
value_of f regex s = scalar (str s.value_text)
value_of f _ s = scalar (parse_scalar f s.value_text s.column_type)

unfoldable pub build : FloatText → FilterPopoverState → Option Transformation
build f s = if can_apply s then some (filter s.column s.op (value_of f s.op s)) else none

abbrev fill_value : FloatText → FilterPopoverState → FilterValue → FilterPopoverState
fill_value f s (scalar x) = record s { value_text = scalar_to_display f x }
fill_value f s (range lo hi inclusive) = record s {
  range_lo = scalar_to_display f lo;
  range_hi = scalar_to_display f hi;
  range_inclusive = inclusive;
}
fill_value f s (list items) = record s { list_values = map (scalar_to_display f) items }
fill_value f s FilterValue.none = s

abbrev pub fill : FloatText → FilterPopoverState → Transformation → FilterPopoverState
fill f s (filter _ op value) = fill_value f (record s { op = op; pre_populated = true }) value
fill f s _ = record s { pre_populated = true }

abbrev pub from_existing :
    FloatText → Text → ColumnType → Transformation → Option FilterPopoverState
from_existing f column column_type existing = elim (new column column_type) [
  | none ↦ none
  | some s ↦ some (fill f s existing)
]
