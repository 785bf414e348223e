-- ===== src/View/FilterPopover/Examples.antt =====
-- Tests and instances for the filter popover.
use dat.Prelude.{List, [], ◌∷◌, codes, none, some, ◌≡◌, refl, pos, text_eq}
use dat.Prelude.Decimal.{decimal_ℤ, decimal, digits, parse_digits}
use dat.Prelude.Parsing.{parse_i64}
use dat.Engine.Transform.{int, str, gt, scalar, filter}
use dat.View.Model.Calls.{find_filter_for}
use dat.View.Model.Action.{apply_filter}
use dat.View.Model.Stacks.{KeepsMaybe}
use dat.View.Model.Examples.{host, qty, filtered, filtered-IsValid}
use dat.View.FilterPopover.{
  FloatText, numeric, string, instant, from_duckdb_type, parse_scalar, trim,
}
use dat.View.FilterPopover.Events.{
  PopoverEvent, pick_op, type_value, apply_button, funnel_session, reapplied,
}
use dat.View.FilterPopover.Apply.{funnel_session-IsValid}
use dat.View.FilterPopover.Reopen.{press-open_popover}

-- Every float prints as "0.5" and nothing parses as a float.
abbrev float_text : FloatText
float_text = record { parse_f64 = λ _. none; display_f64 = λ _. codes "0.5" }

decimal_type : from_duckdb_type (codes "decimal(18,4)") ≡ numeric
unfolding from_duckdb_type text_eq trim
decimal_type = refl

zoned_type : from_duckdb_type (codes "Timestamp with time zone") ≡ instant
unfolding from_duckdb_type text_eq trim
zoned_type = refl

list_type : from_duckdb_type (codes "VARCHAR[]") ≡ string
unfolding from_duckdb_type text_eq trim
list_type = refl

signed_value : parse_scalar float_text (codes "+12") numeric ≡ int (pos 12)
unfolding parse_i64 parse_digits
signed_value = refl

-- One more than the largest `i64`.
overflowing_value :
    parse_scalar float_text (codes "9223372036854775808") numeric
    ≡ str (codes "9223372036854775808")
unfolding parse_i64 parse_digits
overflowing_value = refl

abbrev more_than_5 : List PopoverEvent
more_than_5 = pick_op 4 ∷ type_value (codes "5") ∷ []

funnel_session-IsValid_example :
    KeepsMaybe host (funnel_session host float_text filtered qty numeric more_than_5 apply_button)
unfolding find_filter_for text_eq
funnel_session-IsValid_example =
    funnel_session-IsValid host float_text filtered qty numeric more_than_5 apply_button
      filtered-IsValid refl

press-open_popover_example :
    reapplied host float_text qty numeric (filter qty gt (scalar (int (pos 5))))
    ≡ some (apply_filter (filter qty gt (scalar (int (pos 5)))))
unfolding decimal_ℤ decimal digits
press-open_popover_example =
    press-open_popover host float_text qty numeric gt (scalar (int (pos 5))) refl
