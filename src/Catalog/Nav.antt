-- ===== src/Catalog/Nav.antt =====
-- The visible rows of the catalog and the keys that move within them
-- (crates/dat0-core/src/catalog/nav.rs). The set of collapsed parents is a list.
pub mod Families
pub mod Range
pub mod Parents
mod Examples
use dat.Prelude.{
  ℕ, ◌+◌, ◌-◌, Bool, true, false, not, List, [], ◌∷◌, ◌++◌, Text, codes, Option, none, some, map,
  ltb, ◌==◌, ◌||◌, if◌then◌else◌, length, take, get_elem?, any, text_eq,
}
use dat.View.Model.Calls.{rposition}
use dat.Catalog.Tree.{CatalogNode, PackageNode, CatalogTree}

abbrev files_section : Text
files_section = codes "Files"

abbrev connections_section : Text
connections_section = codes "Connections"

abbrev packages_section : Text
packages_section = codes "Packages"

pub data RowKind : Type 0 where
  parent : (alias : Text) (expanded : Bool) (n_children : ℕ) → RowKind
  leaf : (name : Text) (depth : ℕ) → RowKind
  package_row : (name path : Text) → RowKind

pub record CatalogRow : Type 0 where
  pub section : Text
  pub kind : RowKind

abbrev pub row : Text → RowKind → CatalogRow
row section kind = record { section = section; kind = kind }

abbrev pub child_row : Text → Text → CatalogRow
child_row section c = row section (leaf c 1)

abbrev pub parent_rows : Text → Text → List Text → Bool → List CatalogRow
parent_rows section alias children true =
    row section (parent alias true (length children)) ∷ map (child_row section) children
parent_rows section alias children false = row section (parent alias false (length children)) ∷ []

-- One round of the loop over the nodes of a section.
abbrev pub node_rows : List Text → Text → Text → List Text → List CatalogRow
node_rows collapsed section name [] = row section (leaf name 0) ∷ []
node_rows collapsed section name (c ∷ children) =
    parent_rows section name (c ∷ children) (not (any (text_eq name) collapsed))

abbrev pub section_rows : List Text → Text → List CatalogNode → List CatalogRow
section_rows collapsed section [] = []
section_rows collapsed section (n ∷ nodes) =
    node_rows collapsed section n.name n.children ++ section_rows collapsed section nodes

abbrev pub package_row_of : PackageNode → CatalogRow
package_row_of p = row packages_section (package_row p.name p.path)

unfoldable pub visible_rows : CatalogTree → List Text → List CatalogRow
visible_rows tree collapsed =
    section_rows collapsed files_section tree.files
    ++ (section_rows collapsed connections_section tree.connections
        ++ map package_row_of tree.packages)

pub data NavAction : Type 0 where
  move : ℕ → NavAction
  toggle open_table : Text → NavAction
  nothing : NavAction

abbrev pub is_parent : CatalogRow → Bool
is_parent r = elim r.kind [ parent _ _ _ ↦ true | leaf _ _ ↦ false | package_row _ _ ↦ false ]

abbrev pub move_to : Option ℕ → NavAction
move_to (some p) = move p
move_to none = nothing

abbrev pub right_at : RowKind → ℕ → NavAction
right_at (parent alias false _) active = toggle alias
right_at (parent _ true _) active = move (active + 1)
right_at (leaf _ _) active = nothing
right_at (package_row _ _) active = nothing

abbrev pub left_at : List CatalogRow → RowKind → ℕ → NavAction
left_at rows (parent alias true _) active = toggle alias
left_at rows (leaf _ depth) active =
    if depth == 1 then move_to (rposition is_parent (take active rows)) else nothing
left_at rows _ active = nothing

abbrev pub enter_at : RowKind → NavAction
enter_at (parent alias _ _) = toggle alias
enter_at (leaf name _) = open_table name
enter_at (package_row _ _) = nothing

abbrev pub down_at : ℕ → ℕ → NavAction
down_at count active = if ltb (active + 1) count then move (active + 1) else nothing

abbrev pub up_at : ℕ → NavAction
up_at active = if ltb 0 active then move (active - 1) else nothing

-- The `match` on the key.
abbrev pub nav_at : List CatalogRow → ℕ → Text → Option CatalogRow → NavAction
nav_at rows active key none = nothing
nav_at rows active key (some r) =
    if text_eq key (codes "down")
    then down_at (length rows) active
    else if text_eq key (codes "up")
    then up_at active
    else if text_eq key (codes "right")
    then right_at r.kind active
    else if text_eq key (codes "left")
    then left_at rows r.kind active
    else if text_eq key (codes "enter") || text_eq key (codes "space")
    then enter_at r.kind
    else nothing

unfoldable pub tree_nav : List CatalogRow → ℕ → Text → NavAction
tree_nav rows active key = nav_at rows active key (get_elem? rows active)

abbrev path_of : Option CatalogRow → Option Text
path_of none = none
path_of (some r) = elim r.kind [
  | parent _ _ _ ↦ none
  | leaf _ _ ↦ none
  | package_row _ path ↦ some path
]

unfoldable pub package_activation : List CatalogRow → ℕ → Text → Option Text
package_activation rows active key =
    if text_eq key (codes "enter") || text_eq key (codes "space")
    then path_of (get_elem? rows active)
    else none
