-- ===== src/View/Model.antt =====
-- `ViewModel` (crates/dat0-core/src/view/model.rs). The two history stacks grow at the end in the
-- source and at the head here. A method gives `none` where the `expect` on the SQL panics.
pub mod Regenerate
pub mod Calls
pub mod Action
pub mod Stacks
pub mod Valid
pub mod Undo
pub mod Upsert
pub mod Examples
use dat.Prelude.{
  ℕ, zero, suc, ◌+◌, ◌-◌, ◌%◌, ◌^◌, Bool, true, false, ◌&&◌, ◌||◌, List, [], ◌∷◌, ◌++◌, Text, codes,
  concat, Option, none, some, ltb, leb, ◌==◌, if◌then◌else◌, length, take, set, erase_idx, position,
  any, text_eq, min, find,
}
use dat.Prelude.Decimal.{decimal}
use dat.Prelude.Results.{Result, ok, err}
use dat.Engine.Transform.{RowKey, CellEdit, SortKey, Transformation, filter, sort, edit, row_delete}
use dat.Engine.Render.Literal.{Host}
use dat.Engine.Render.Filter.{RenderError}
use dat.Engine.Render.Compile.{compile_view_sql}

abbrev pub history_cap : ℕ
history_cap = 200

pub record ViewModel : Type 0 where
  pub tab_id : Text
  pub base_table : Text
  pub present : List Transformation
  pub past : List (List Transformation)
  pub future : List (List Transformation)
  pub active_view : Option Text
  pub active_view_sql : Option Text
  pub nonce_seq : ℕ

pub record ViewChange : Type 0 where
  pub new_active_view : Option Text
  pub previous_active_view : Option Text
  pub sql : Option Text

abbrev pub is_some {ℓ} : {A : Type ℓ} → Option A → Bool
is_some none = false
is_some (some _) = true

abbrev pub is_nil {ℓ} : {A : Type ℓ} → List A → Bool
is_nil [] = true
is_nil (_ ∷ _) = false

abbrev pub is_display_only : ViewChange → Bool
is_display_only c = is_some c.new_active_view && (if is_some c.sql then false else true)

abbrev pub new : Text → Text → ViewModel
new tab_id base_table = record {
  tab_id = tab_id;
  base_table = base_table;
  present = [];
  past = [];
  future = [];
  active_view = none;
  active_view_sql = none;
  nonce_seq = 0;
}

abbrev pub can_undo : ViewModel → Bool
can_undo vm = if is_nil vm.past then false else true

abbrev pub can_redo : ViewModel → Bool
can_redo vm = if is_nil vm.future then false else true

-- `char::is_ascii_alphanumeric`, or `_`
unfoldable pub is_name_byte : ℕ → Bool
is_name_byte c =
    (leb b'0' c && leb c b'9')
    || (leb b'A' c && leb c b'Z')
    || (leb b'a' c && leb c b'z')
    || c == b'_'

unfoldable pub sanitize_for_view_name : Text → Text
sanitize_for_view_name [] = []
sanitize_for_view_name (c ∷ id) =
    if is_name_byte c then c ∷ sanitize_for_view_name id else sanitize_for_view_name id

unfoldable pub view_name : Text → ℕ → Text
view_name tab_id n =
    concat (codes "v_" ∷ sanitize_for_view_name tab_id ∷ codes "_" ∷ decimal n ∷ [])

-- `a.as_deref() == Some(b)`
abbrev pub holds : Option Text → Text → Bool
holds none b = false
holds (some a) b = text_eq a b

abbrev pub Outcome : Type 0
Outcome = Option (ViewModel × ViewChange)

-- The end of `regenerate_view`, with the compiled SQL.
unfoldable pub bind_sql : ViewModel → Text → ViewModel × ViewChange
bind_sql vm body_sql =
    if is_some vm.active_view && holds vm.active_view_sql body_sql
    then (vm, record { new_active_view = vm.active_view; previous_active_view = none; sql = none })
    else let nonce = (vm.nonce_seq + 1) % 2 ^ 32 in
      let new_name = view_name vm.tab_id nonce in
      (
        record vm {
          active_view = some new_name;
          active_view_sql = some body_sql;
          nonce_seq = nonce;
        },
        record {
          new_active_view = some new_name;
          previous_active_view = vm.active_view;
          sql = some body_sql;
        },
      )

abbrev bind_result : ViewModel → Result RenderError Text → Outcome
bind_result vm (ok body_sql) = some (bind_sql vm body_sql)
bind_result vm (err _) = none

unfoldable pub regenerate_view : Host → ViewModel → Outcome
regenerate_view h vm =
    if is_nil vm.present
    then some (
      record vm { active_view = none; active_view_sql = none },
      record { new_active_view = none; previous_active_view = vm.active_view; sql = none },
    )
    else bind_result vm (compile_view_sql h vm.base_table vm.present)

-- The oldest snapshots are the last ones here.
unfoldable pub evict : List (List Transformation) → List (List Transformation)
evict past =
    if ltb history_cap (length past)
    then (let overflow = length past - history_cap in take (length past - overflow) past)
    else past

unfoldable pub checkpoint : ViewModel → ViewModel
unfolding evict
checkpoint vm = record vm { past = evict (vm.present ∷ vm.past); future = [] }
