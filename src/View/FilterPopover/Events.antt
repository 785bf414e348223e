-- ===== src/View/FilterPopover/Events.antt =====
-- What the user does to an open popover, from the handlers of crates/dat0-ui/src/components/
-- filter_popover.rs.
use dat.Prelude.{
  ℕ, Bool, List, [], ◌∷◌, ◌++◌, Text, Option, none, some, get_elem?, erase_idx, position, text_eq,
  any, if◌then◌else◌,
}
use dat.Engine.Transform.{FilterOp, Transformation}
use dat.Engine.Render.Literal.{Host}
use dat.View.Model.{ViewModel, ViewChange, is_nil}
use dat.View.Model.Calls.{find_filter_for}
use dat.View.Model.Action.{PopoverOutcome, apply_filter, cancel, clear_column, route_outcome}
use dat.View.FilterPopover.{
  FloatText, ColumnType, FilterPopoverState, new, from_existing, revalidate_regex,
  supported_ops_for, set_op, set_value_text, set_range_lo, set_range_hi, set_range_inclusive,
  is_regex, build, trim,
}

-- `new` or `from_existing`.
abbrev pub open_from :
    FloatText → Text → ColumnType → Option Transformation → Option FilterPopoverState
open_from f column column_type (some t) = from_existing f column column_type t
open_from f column column_type none = new column column_type

abbrev pub validated : Host → Option FilterPopoverState → Option FilterPopoverState
validated h none = none
validated h (some s) = some (revalidate_regex h s)

-- The popover as it is mounted.
abbrev pub open_popover :
    Host → FloatText → Text → ColumnType → Option Transformation → Option FilterPopoverState
open_popover h f column column_type existing = validated h (open_from f column column_type existing)

pub data PopoverEvent : Type 0 where
  pick_op : ℕ → PopoverEvent
  type_value type_range_lo type_range_hi : Text → PopoverEvent
  check_inclusive : Bool → PopoverEvent
  toggle_chip enter_value : Text → PopoverEvent

-- The drop-down list hands over a position of `supported_ops_for`.
abbrev pick : Host → FilterPopoverState → Option FilterOp → FilterPopoverState
pick h s none = s
pick h s (some op) = revalidate_regex h (set_op s op)

abbrev type_text : Host → FilterPopoverState → FilterPopoverState
type_text h s = if is_regex s.op then revalidate_regex h s else s

abbrev toggled : List Text → Text → Option ℕ → List Text
toggled values v (some i) = erase_idx values i
toggled values v none = values ++ v ∷ []

abbrev entered : List Text → Text → List Text
entered values v =
    if is_nil v then values else if any (text_eq v) values then values else values ++ v ∷ []

unfoldable pub handle : Host → FilterPopoverState → PopoverEvent → FilterPopoverState
unfolding trim
handle h s (pick_op i) = pick h s (get_elem? (supported_ops_for s.column_type) i)
handle h s (type_value t) = type_text h (set_value_text s t)
handle h s (type_range_lo t) = set_range_lo s t
handle h s (type_range_hi t) = set_range_hi s t
handle h s (check_inclusive b) = set_range_inclusive s b
handle h s (toggle_chip v) = record s {
  list_values = toggled s.list_values v (position (text_eq v) s.list_values);
}
handle h s (enter_value t) = record s { list_values = entered s.list_values (trim t) }

abbrev pub handle_all : Host → FilterPopoverState → List PopoverEvent → FilterPopoverState
handle_all h s [] = s
handle_all h s (e ∷ rest) = handle_all h (handle h s e) rest

pub data Button : Type 0 where
  apply_button cancel_button clear_button : Button

abbrev applied : Option Transformation → Option PopoverOutcome
applied none = none
applied (some t) = some (apply_filter t)

-- The outcome that a button hands to the caller, `none` when Apply builds nothing.
unfoldable pub press : FloatText → FilterPopoverState → Button → Option PopoverOutcome
press f s apply_button = applied (build f s)
press f s cancel_button = some cancel
press f s clear_button = some (clear_column s.column s.pre_populated)

abbrev applied_at_once : FloatText → Option FilterPopoverState → Option PopoverOutcome
applied_at_once f none = none
applied_at_once f (some s) = press f s apply_button

-- Open on a filter, and press Apply.
abbrev pub reapplied : Host → FloatText → Text → ColumnType → Transformation → Option PopoverOutcome
reapplied h f column column_type t =
    applied_at_once f (open_popover h f column column_type (some t))

abbrev pub route_pressed :
    Host → ViewModel → Option PopoverOutcome → Option (ViewModel × Option ViewChange)
route_pressed h vm none = some (vm, none)
route_pressed h vm (some o) = route_outcome h vm o

abbrev pub used :
    Host
    → FloatText
    → ViewModel
    → List PopoverEvent
    → Button
    → Option FilterPopoverState
    → Option (ViewModel × Option ViewChange)
used h f vm events button none = none
used h f vm events button (some s) = route_pressed h vm (press f (handle_all h s events) button)

-- One visit to a column's popover: opened on the column's filter (`open_funnel` of
-- crates/dat0-ui/src/components/grid/views.rs), used, and left by a button (`funnel_outcome`),
-- with no other call on the model in between.
abbrev pub funnel_session :
    Host
    → FloatText
    → ViewModel
    → Text
    → ColumnType
    → List PopoverEvent
    → Button
    → Option (ViewModel × Option ViewChange)
funnel_session h f vm column column_type events button =
    used h f vm events button (open_popover h f column column_type (find_filter_for vm column))
