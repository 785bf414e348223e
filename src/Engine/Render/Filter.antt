-- ===== src/Engine/Render/Filter.antt =====
-- Errors, filters and sort keys as SQL.
use dat.Prelude.{
  Bool, true, false, List, [], ◌∷◌, Text, codes, Option, none, some, concat, join, map, ◌≡◌, refl,
  arith,
}
use dat.Prelude.Results.{Result, ok, err}
use dat.Engine.Transform.{
  null, str, FilterOp, eq, neq, lt, lte, gt, gte, between, contains, not_contains, starts_with,
  ends_with, in_list, regex, is_empty, is_not_empty, is_true, is_false, FilterValue, scalar, range,
  list, asc, desc, SortKey,
}
use dat.Engine.Render.Literal.{Host, quote_ident, escape_single_quote, escape_like, render_scalar}

pub data RenderError : Type 0 where
  empty_in_list : RenderError
  invalid_regex : Text → RenderError
  mismatched_range : Text → RenderError
  unsupported_op_for_type : (op : FilterOp) (value_shape : Text) → RenderError
  empty_edit empty_row_delete : RenderError

unfoldable pub filter_value_shape : FilterValue → Text
filter_value_shape (scalar _) = codes "Scalar"
filter_value_shape (range _ _ _) = codes "Range"
filter_value_shape (list _) = codes "List"
filter_value_shape FilterValue.none = codes "None"

-- `({col} {op} {literal})`
abbrev compared : Text → Text → Text → Result RenderError Text
compared col op literal =
    ok (concat (codes "(" ∷ col ∷ codes " " ∷ op ∷ codes " " ∷ literal ∷ codes ")" ∷ []))

-- `({col} LIKE '{before}{s}{after}' ESCAPE '\')`
abbrev like : Text → Text → Text → Text → Text → Result RenderError Text
like col op before s after = ok (
    concat (
      codes "("
      ∷ col
      ∷ codes " "
      ∷ op
      ∷ codes " '"
      ∷ before
      ∷ escape_like s
      ∷ after
      ∷ codes "' ESCAPE '\\')"
      ∷ []))

abbrev regexp_matches : Text → Text → Option Text → Result RenderError Text
regexp_matches col s (some e) = err (invalid_regex e)
regexp_matches col s none =
    ok (
      concat
        (codes "regexp_matches(" ∷ col ∷ codes ", '" ∷ escape_single_quote s ∷ codes "')" ∷ []))

abbrev between_sql : Text → Text → Text → Bool → Text
between_sql col lo hi true =
    concat (codes "(" ∷ col ∷ codes " BETWEEN " ∷ lo ∷ codes " AND " ∷ hi ∷ codes ")" ∷ [])
between_sql col lo hi false =
    concat
      (codes "(" ∷ col ∷ codes " > " ∷ lo ∷ codes " AND " ∷ col ∷ codes " < " ∷ hi ∷ codes ")" ∷ [])

unfoldable pub render_filter : Host → Text → FilterOp → FilterValue → Result RenderError Text
render_filter h column eq (scalar null) =
    ok (concat (codes "(" ∷ quote_ident column ∷ codes " IS NULL)" ∷ []))
render_filter h column neq (scalar null) =
    ok (concat (codes "(" ∷ quote_ident column ∷ codes " IS NOT NULL)" ∷ []))
render_filter h column eq (scalar s) = compared (quote_ident column) (codes "=") (render_scalar h s)
render_filter h column neq (scalar s) =
    compared (quote_ident column) (codes "<>") (render_scalar h s)
render_filter h column lt (scalar s) = compared (quote_ident column) (codes "<") (render_scalar h s)
render_filter h column lte (scalar s) =
    compared (quote_ident column) (codes "<=") (render_scalar h s)
render_filter h column gt (scalar s) = compared (quote_ident column) (codes ">") (render_scalar h s)
render_filter h column gte (scalar s) =
    compared (quote_ident column) (codes ">=") (render_scalar h s)
render_filter h column between (range lo hi inclusive) =
    ok (between_sql (quote_ident column) (render_scalar h lo) (render_scalar h hi) inclusive)
render_filter h column between _ = err (mismatched_range (codes "expected Range"))
render_filter h column contains (scalar (str s)) =
    like (quote_ident column) (codes "LIKE") (codes "%") s (codes "%")
render_filter h column not_contains (scalar (str s)) =
    like (quote_ident column) (codes "NOT LIKE") (codes "%") s (codes "%")
render_filter h column starts_with (scalar (str s)) =
    like (quote_ident column) (codes "LIKE") [] s (codes "%")
render_filter h column ends_with (scalar (str s)) =
    like (quote_ident column) (codes "LIKE") (codes "%") s []
render_filter h column in_list (list []) = err empty_in_list
render_filter h column in_list (list (i ∷ items)) = ok (
    concat (
      codes "("
      ∷ quote_ident column
      ∷ codes " IN ("
      ∷ join (codes ", ") (map (render_scalar h) (i ∷ items))
      ∷ codes "))"
      ∷ []))
render_filter h column regex (scalar (str s)) =
    regexp_matches (quote_ident column) s (h.regex_error s)
render_filter h column is_empty FilterValue.none =
    ok (concat (codes "(" ∷ quote_ident column ∷ codes " IS NULL)" ∷ []))
render_filter h column is_not_empty FilterValue.none =
    ok (concat (codes "(" ∷ quote_ident column ∷ codes " IS NOT NULL)" ∷ []))
render_filter h column is_true FilterValue.none =
    ok (concat (codes "(" ∷ quote_ident column ∷ codes " = TRUE)" ∷ []))
render_filter h column is_false FilterValue.none =
    ok (concat (codes "(" ∷ quote_ident column ∷ codes " = FALSE)" ∷ []))
render_filter h column op value = err (unsupported_op_for_type op (filter_value_shape value))

unfoldable pub render_sort_key : SortKey → Text
render_sort_key k = concat (
    quote_ident k.column
    ∷ codes " "
    ∷ elim k.direction [ asc ↦ codes "ASC" | desc ↦ codes "DESC" ]
    ∷ [])

unfoldable pub render_sort : List SortKey → Text
unfolding render_sort_key
render_sort keys = join (codes ", ") (map render_sort_key keys)

-- The pairs of an operator and a value that the renderer supports.
unfoldable pub is_supported : Host → FilterOp → FilterValue → Bool
is_supported h between (range _ _ _) = true
is_supported h between _ = false
is_supported h contains (scalar (str _)) = true
is_supported h not_contains (scalar (str _)) = true
is_supported h starts_with (scalar (str _)) = true
is_supported h ends_with (scalar (str _)) = true
is_supported h in_list (list (_ ∷ _)) = true
is_supported h regex (scalar (str s)) = elim (h.regex_error s) [ none ↦ true | some _ ↦ false ]
is_supported h contains _ = false
is_supported h not_contains _ = false
is_supported h starts_with _ = false
is_supported h ends_with _ = false
is_supported h in_list _ = false
is_supported h regex _ = false
is_supported h is_empty FilterValue.none = true
is_supported h is_not_empty FilterValue.none = true
is_supported h is_true FilterValue.none = true
is_supported h is_false FilterValue.none = true
is_supported h is_empty _ = false
is_supported h is_not_empty _ = false
is_supported h is_true _ = false
is_supported h is_false _ = false
is_supported h _ (scalar _) = true
is_supported h _ _ = false

abbrev pub is_ok {ℓ κ} : {E : Type ℓ} {A : Type κ} → Result E A → Bool
is_ok (ok _) = true
is_ok (err _) = false

-- A filter renders exactly when the operator supports the value.
pub is_ok-render_filter :
    (h : Host) (column : Text) (op : FilterOp) (value : FilterValue)
    → is_ok (render_filter h column op value) ≡ is_supported h op value
unfolding render_filter is_supported
is_ok-render_filter h column eq (scalar null) = refl
is_ok-render_filter h column neq (scalar null) = refl
is_ok-render_filter h column in_list (list []) = refl
is_ok-render_filter h column in_list (list (i ∷ items)) = refl
is_ok-render_filter h column regex (scalar (str s)) = ground arith
is_ok-render_filter h column op (scalar null) = ground arith
is_ok-render_filter h column op (scalar s) = ground arith
is_ok-render_filter h column op value = ground arith
