-- ===== src/View/FilterPopover/Step.antt =====
-- What every event keeps of the popover's state, and what it makes of a built filter.
use dat.Prelude.{
  ℕ, Bool, true, false, List, [], ◌∷◌, Text, Option, none, some, ◌≡◌, refl, sym, arith, zero, suc,
  get_elem?, if◌then◌else◌, all, map, not, Bool-cases, inl, inr, Option-cases,
}
use mathlib.Core.Path.{subst}
use mathlib.Core.Option.{some-injective, none-ne-some}
use mathlib.Core.Bool.{true≢false}
use dat.Engine.Transform.{
  str, FilterOp, contains, not_contains, starts_with, ends_with, in_list, regex, scalar, list,
}
use dat.Engine.Render.Literal.{Host}
use dat.Engine.Render.Filter.{is_supported}
use dat.View.Model.{is_nil}
use dat.View.FilterPopover.{
  FloatText, ColumnType, numeric, string, boolean, day, instant, FilterPopoverState,
  revalidate_regex, supported_ops_for, set_op, is_regex, can_apply_op, value_of, compiles,
  is_some_true, parse_scalar,
}
use dat.View.FilterPopover.Events.{
  PopoverEvent, pick_op, type_value, type_range_lo, type_range_hi, check_inclusive, toggle_chip,
  enter_value, handle, handle_all,
}

abbrev is_string : ColumnType → Bool
is_string string = true
is_string _ = false

abbrev is_text_op : FilterOp → Bool
is_text_op contains = true
is_text_op not_contains = true
is_text_op starts_with = true
is_text_op ends_with = true
is_text_op regex = true
is_text_op _ = false

-- The operators on texts and the regular expressions are for columns of texts.
abbrev pub suits : ColumnType → FilterOp → Bool
suits ct op = if is_text_op op then is_string ct else true

-- The regex flag is the one of the operator and the text, and the operator suits the column.
pub record IsInStep (h : Host) (s : FilterPopoverState) : Type 0 where
  pub suited : suits s.column_type s.op ≡ true
  pub checked : s.regex_valid ≡ (if is_regex s.op then some (compiles h s.value_text) else none)

parse_scalar_string :
    (f : FloatText) (text : Text) (ct : ColumnType)
    → is_string ct ≡ true
    → parse_scalar f text ct ≡ str text
parse_scalar_string f text string o = refl
parse_scalar_string f text numeric o = absurd (true≢false (sym o))
parse_scalar_string f text boolean o = absurd (true≢false (sym o))
parse_scalar_string f text day o = absurd (true≢false (sym o))
parse_scalar_string f text instant o = absurd (true≢false (sym o))

compiles-is_supported :
    (h : Host) (text : Text)
    → compiles h text ≡ true
    → is_supported h regex (scalar (str text)) ≡ true
unfolding is_supported
compiles-is_supported h text c = c

is_some_true-some : (b : Bool) (o : Option Bool) → o ≡ some b → is_some_true o ≡ true → b ≡ true
is_some_true-some b none e t = absurd (true≢false (sym t))
is_some_true-some b (some true) e t = sym (some-injective true b e)
is_some_true-some b (some false) e t = absurd (true≢false (sym t))

list-is_supported :
    (h : Host) (f : FloatText) (ct : ColumnType) (values : List Text)
    → not (is_nil values) ≡ true
    → is_supported h in_list (list (map (λ t. parse_scalar f t ct) values)) ≡ true
unfolding is_supported
list-is_supported h f ct [] c = absurd (true≢false (sym c))
list-is_supported h f ct (v ∷ values) c = refl

-- What `build` builds renders.
pub value_of-is_supported :
    (h : Host) (f : FloatText) (op : FilterOp) (s : FilterPopoverState)
    → suits s.column_type op ≡ true
    → s.regex_valid ≡ (if is_regex op then some (compiles h s.value_text) else none)
    → can_apply_op op s ≡ true
    → is_supported h op (value_of f op s) ≡ true
unfolding is_supported
value_of-is_supported h f regex s o r c =
    compiles-is_supported h s.value_text
      (is_some_true-some (compiles h s.value_text) s.regex_valid r c)
value_of-is_supported h f in_list s o r c = list-is_supported h f s.column_type s.list_values c
value_of-is_supported h f contains s o r c =
    rw (parse_scalar_string f s.value_text s.column_type o) refl
value_of-is_supported h f not_contains s o r c =
    rw (parse_scalar_string f s.value_text s.column_type o) refl
value_of-is_supported h f starts_with s o r c =
    rw (parse_scalar_string f s.value_text s.column_type o) refl
value_of-is_supported h f ends_with s o r c =
    rw (parse_scalar_string f s.value_text s.column_type o) refl
value_of-is_supported h f _ s o r c = refl

all_suit : (ct : ColumnType) → all (suits ct) (supported_ops_for ct) ≡ true
all_suit numeric = refl
all_suit string = refl
all_suit boolean = refl
all_suit day = refl
all_suit instant = refl

-- What the popover shows at a position of its list suits the column.
pick_suits :
    {A : Type 0} (p : A → Bool) (ops : List A) (i : ℕ) (op : A)
    → all p ops ≡ true
    → get_elem? ops i ≡ some op
    → p op ≡ true
pick_suits p [] i op a e = absurd (none-ne-some op e)
pick_suits p (o ∷ ops) zero op a e = subst (λ x. p x ≡ true) (some-injective o op e) (ground arith)
pick_suits p (o ∷ ops) (suc i) op a e = pick_suits p ops i op (ground arith) e

module _ (h : Host) where
  pub revalidate_regex-IsInStep :
      (s : FilterPopoverState) → suits s.column_type s.op ≡ true → IsInStep h (revalidate_regex h s)
  revalidate_regex-IsInStep s o = elim (Bool-cases (is_regex s.op)) [
    | inl e ↦ rw e (record { suited = o; checked = rw e refl })
    | inr e ↦ rw e (record { suited = o; checked = rw e refl })
  ]

  -- A picked operator, with the flag computed again.
  picked-IsInStep :
      (s : FilterPopoverState) (op : FilterOp)
      → suits s.column_type op ≡ true
      → IsInStep h (revalidate_regex h (set_op s op))
  picked-IsInStep s op o = elim (Bool-cases (is_regex op)) [
    | inl r ↦ rw r (revalidate_regex-IsInStep (record s { op = op }) o)
    | inr r ↦ rw r (revalidate_regex-IsInStep (record s { op = op; regex_valid = none }) o)
  ]

  typed-IsInStep :
      (s : FilterPopoverState) (t : Text) → IsInStep h s → IsInStep h (handle h s (type_value t))
  unfolding handle
  typed-IsInStep s t k = elim (Bool-cases (is_regex s.op)) [
    | inl e ↦ rw e (record { suited = k.suited; checked = rw e refl })
    | inr e ↦ rw e (record { suited = k.suited; checked = rw e (rw e at k.checked) })
  ]

  handle-IsInStep :
      (s : FilterPopoverState) (e : PopoverEvent) → IsInStep h s → IsInStep h (handle h s e)
  unfolding handle
  handle-IsInStep s (pick_op i) k =
      elim (Option-cases (get_elem? (supported_ops_for s.column_type) i)) [
        | inl e ↦ rw e k
        | inr (op, e) ↦ rw e (
            picked-IsInStep s op (
              pick_suits (suits s.column_type) (supported_ops_for s.column_type) i op
                (all_suit s.column_type) e))
      ]
  handle-IsInStep s (type_value t) k = typed-IsInStep s t k
  handle-IsInStep s (type_range_lo t) k = record { suited = k.suited; checked = k.checked }
  handle-IsInStep s (type_range_hi t) k = record { suited = k.suited; checked = k.checked }
  handle-IsInStep s (check_inclusive b) k = record { suited = k.suited; checked = k.checked }
  handle-IsInStep s (toggle_chip v) k = record { suited = k.suited; checked = k.checked }
  handle-IsInStep s (enter_value t) k = record { suited = k.suited; checked = k.checked }

  pub handle_all-IsInStep :
      (s : FilterPopoverState) (events : List PopoverEvent)
      → IsInStep h s
      → IsInStep h (handle_all h s events)
  handle_all-IsInStep s [] k = k
  handle_all-IsInStep s (e ∷ events) k =
      handle_all-IsInStep (handle h s e) events (handle-IsInStep s e k)
