-- ===== src/View/FilterPopover/Apply.antt =====
-- A popover session on a view model.
use dat.Prelude.{Bool, true, List, Text, Option, none, some, ◌≡◌, refl, Bool-cases, inl, inr}
use dat.Engine.Transform.{eq, is_true, FilterValue, scalar, range, list, Transformation, filter}
use dat.Engine.Render.Literal.{Host}
use dat.Engine.Render.Success.{is_renderable}
use dat.View.Model.{ViewModel}
use dat.View.Model.Calls.{find_filter_for}
use dat.View.Model.Action.{apply_filter, cancel, clear_column, Action, act}
use dat.View.Model.Stacks.{IsValid, KeepsMaybe}
use dat.View.Model.Valid.{act-IsValid}
use dat.View.FilterPopover.{
  FloatText, ColumnType, numeric, string, boolean, day, instant, FilterPopoverState, new,
  revalidate_regex, build, can_apply, value_of, fill, from_existing, empty_popover,
}
use dat.View.FilterPopover.Events.{
  open_from, PopoverEvent, handle_all, Button, apply_button, cancel_button, clear_button, press,
  route_pressed, funnel_session, used, validated,
}
use dat.View.FilterPopover.Step.{
  suits, IsInStep, revalidate_regex-IsInStep, handle_all-IsInStep, value_of-is_supported,
}

-- The column's filter, if it has one, suits the column's type.
abbrev pub filter_suits : ColumnType → Option Transformation → Bool
filter_suits ct (some (filter _ op _)) = suits ct op
filter_suits ct _ = true

-- A popover that opens, with an operator that suits the column.
abbrev Opens : Option FilterPopoverState → Type 0
Opens none = ⊥
Opens (some s) = suits s.column_type s.op ≡ true

new-Opens : (column : Text) (ct : ColumnType) → Opens (new column ct)
new-Opens column numeric = refl
new-Opens column string = refl
new-Opens column boolean = refl
new-Opens column day = refl
new-Opens column instant = refl

module _ (h : Host) (f : FloatText) where
  fill-suits :
      (s : FilterPopoverState) (t : Transformation)
      → suits s.column_type s.op ≡ true
      → filter_suits s.column_type (some t) ≡ true
      → Opens (some (fill f s t))
  fill-suits s (filter _ op (scalar x)) k r = r
  fill-suits s (filter _ op (range lo hi i)) k r = r
  fill-suits s (filter _ op (list xs)) k r = r
  fill-suits s (filter _ op FilterValue.none) k r = r
  fill-suits s _ k r = k

  from_existing-Opens :
      (column : Text) (ct : ColumnType) (t : Transformation)
      → filter_suits ct (some t) ≡ true
      → Opens (from_existing f column ct t)
  from_existing-Opens column numeric t r = fill-suits (empty_popover column numeric eq) t refl r
  from_existing-Opens column string t r = fill-suits (empty_popover column string eq) t refl r
  from_existing-Opens column boolean t r =
      fill-suits (empty_popover column boolean is_true) t refl r
  from_existing-Opens column day t r = fill-suits (empty_popover column day eq) t refl r
  from_existing-Opens column instant t r = fill-suits (empty_popover column instant eq) t refl r

  open_from-Opens :
      (column : Text) (ct : ColumnType) (existing : Option Transformation)
      → filter_suits ct existing ≡ true
      → Opens (open_from f column ct existing)
  open_from-Opens column ct none r = new-Opens column ct
  open_from-Opens column ct (some t) r = from_existing-Opens column ct t r

  module _ (vm : ViewModel) (v : IsValid h vm) where
    -- Whatever the state in step, its buttons hand the model something it may take.
    press-Keeps :
        (s : FilterPopoverState) (b : Button)
        → IsInStep h s
        → KeepsMaybe h (route_pressed h vm (press f s b))
    unfolding press build is_renderable act
    press-Keeps s cancel_button k = act-IsValid h vm (Action.route cancel) v tt
    press-Keeps s clear_button k =
        act-IsValid h vm (Action.route (clear_column s.column s.pre_populated)) v tt
    press-Keeps s apply_button k = elim (Bool-cases (can_apply s)) [
      | inl c ↦ rw c (
          act-IsValid h vm (Action.route (apply_filter (filter s.column s.op (value_of f s.op s))))
            v (value_of-is_supported h f s.op s k.suited k.checked c))
      | inr c ↦ rw c v
    ]

    opened-Keeps :
        (o : Option FilterPopoverState) (events : List PopoverEvent) (b : Button)
        → Opens o
        → KeepsMaybe h (used h f vm events b (validated h o))
    opened-Keeps none events b k = elim k [ ]
    opened-Keeps (some s) events b k =
        press-Keeps (handle_all h (revalidate_regex h s) events) b
          (handle_all-IsInStep h (revalidate_regex h s) events (revalidate_regex-IsInStep h s k))

-- From a valid view model, whatever the user does in the popover of a column and whichever button
-- ends it, opened on the column's filter or on none, the call on the model returns and leaves a
-- valid model: what Apply builds always renders. The filter the column has, if any, is to have an
-- operator that suits the column's type.
pub funnel_session-IsValid :
    (h : Host) (f : FloatText) (vm : ViewModel) (column : Text) (ct : ColumnType)
    (events : List PopoverEvent) (button : Button)
    → IsValid h vm
    → filter_suits ct (find_filter_for vm column) ≡ true
    → KeepsMaybe h (funnel_session h f vm column ct events button)
funnel_session-IsValid h f vm column ct events button v r =
    opened-Keeps h f vm v (open_from f column ct (find_filter_for vm column)) events button
      (open_from-Opens h f column ct (find_filter_for vm column) r)
