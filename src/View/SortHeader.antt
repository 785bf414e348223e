-- ===== src/View/SortHeader.antt =====
-- Clicks on the sort zone of a header (crates/dat0-core/src/view/sort_header.rs).
pub mod Cycle
mod Examples
use dat.Prelude.{
  ℕ, ◌+◌, List, [], ◌∷◌, ◌++◌, Text, Option, some, none, Bool, text_eq, position, get_elem?, set,
  erase_idx,
}
use dat.Engine.Transform.{SortKey, SortDirection, asc, desc}

pub record ActiveSort : Type 0 where
  pub keys : List SortKey

abbrev pub is_on : Text → SortKey → Bool
is_on column k = text_eq k.column column

abbrev pub key : Text → SortDirection → SortKey
key column d = record { column = column; direction = d }

abbrev pub rank_of : ℕ → Option SortKey → Option (ℕ × SortDirection)
rank_of i none = none
rank_of i (some k) = some (i + 1, k.direction)

abbrev pub ranked : List SortKey → Option ℕ → Option (ℕ × SortDirection)
ranked keys none = none
ranked keys (some i) = rank_of i (get_elem? keys i)

-- The rank counts from 1.
unfoldable pub find_key : ActiveSort → Text → Option (ℕ × SortDirection)
find_key s column = ranked s.keys (position (is_on column) s.keys)

-- The new keys, from the direction that `find` gave.
abbrev pub sole : Text → Option (ℕ × SortDirection) → List SortKey
sole column none = key column asc ∷ []
sole column (some (i, asc)) = key column desc ∷ []
sole column (some (i, desc)) = []

unfoldable pub sort_click : ActiveSort → Text → ActiveSort
unfolding find_key
sort_click s column = record { keys = sole column (find_key s column) }

abbrev pub turn_to : List SortKey → ℕ → SortKey → SortDirection → List SortKey
turn_to keys idx k asc = set keys idx (record k { direction = desc })
turn_to keys idx k desc = erase_idx keys idx

-- The key at a rank, turned or removed. The index is one that `position` gave, so that it is in range.
abbrev pub turn : List SortKey → ℕ → Option SortKey → List SortKey
turn keys idx none = keys
turn keys idx (some k) = turn_to keys idx k k.direction

abbrev pub shift_at : List SortKey → Text → Option ℕ → List SortKey
shift_at keys column none = keys ++ key column asc ∷ []
shift_at keys column (some idx) = turn keys idx (get_elem? keys idx)

unfoldable pub shift_click : ActiveSort → Text → ActiveSort
shift_click s column = record { keys = shift_at s.keys column (position (is_on column) s.keys) }
