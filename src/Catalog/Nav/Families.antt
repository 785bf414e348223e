-- ===== src/Catalog/Nav/Families.antt =====
-- An expanded parent stands right before its children, of which it has one or more.
use dat.Prelude.{
  ℕ, zero, suc, ◌<◌, Bool, true, false, List, [], ◌∷◌, ◌++◌, Text, some, map, ◌==◌, if◌then◌else◌,
  length, get_elem?, drop, ◌≡◌, refl, sym, arith, Bool-cases, inl, inr,
}
use mathlib.Core.Bool.{true≢false}
use mathlib.Core.Option.{some-injective, none-ne-some}
use mathlib.Core.Path.{subst}
use dat.Catalog.Tree.{CatalogNode, PackageNode, CatalogTree}
use dat.Catalog.Nav.{
  RowKind, parent, leaf, package_row, CatalogRow, child_row, parent_rows, node_rows, section_rows,
  package_row_of, visible_rows,
}

abbrev pub is_child : CatalogRow → Bool
is_child r = elim r.kind [
  | parent _ _ _ ↦ false
  | leaf _ depth ↦ depth == 1
  | package_row _ _ ↦ false
]

-- The first `n` rows are children.
abbrev pub leads : ℕ → List CatalogRow → Bool
leads zero rows = true
leads (suc n) [] = false
leads (suc n) (r ∷ rows) = if is_child r then leads n rows else false

-- What an expanded parent asks of the rows after it.
abbrev pub HasFamily : RowKind → List CatalogRow → Type 0
HasFamily (parent _ true n) rows = (0 < n) × (leads n rows ≡ true)
HasFamily _ rows = Unit

abbrev pub HasFamilies : List CatalogRow → Type 0
HasFamilies [] = Unit
HasFamilies (r ∷ rows) = HasFamily r.kind rows × HasFamilies rows

leads-append :
    (n : ℕ) (rows more : List CatalogRow) → leads n rows ≡ true → leads n (rows ++ more) ≡ true
leads-append zero rows more h = refl
leads-append (suc n) [] more h = absurd (true≢false (sym h))
leads-append (suc n) (r ∷ rows) more h = elim (Bool-cases (is_child r)) [
  | inl c ↦ rw c (leads-append n rows more (rw c at h))
  | inr c ↦ absurd (true≢false (sym (rw c at h)))
]

HasFamily-append :
    (k : RowKind) (rows more : List CatalogRow) → HasFamily k rows → HasFamily k (rows ++ more)
HasFamily-append (parent _ true n) rows more h = (h.0, leads-append n rows more h.1)
HasFamily-append (parent _ false n) rows more h = tt
HasFamily-append (leaf _ _) rows more h = tt
HasFamily-append (package_row _ _) rows more h = tt

HasFamilies-append :
    (rows more : List CatalogRow) → HasFamilies rows → HasFamilies more → HasFamilies (rows ++ more)
HasFamilies-append [] more h k = k
HasFamilies-append (r ∷ rows) more h k =
    (HasFamily-append r.kind rows more h.0, HasFamilies-append rows more h.1 k)

children-HasFamilies :
    (section : Text) (children : List Text) → HasFamilies (map (child_row section) children)
children-HasFamilies section [] = tt
children-HasFamilies section (c ∷ children) = (tt, children-HasFamilies section children)

leads-children :
    (section : Text) (children : List Text)
    → leads (length children) (map (child_row section) children) ≡ true
leads-children section [] = refl
leads-children section (c ∷ children) = leads-children section children

parent_rows-HasFamilies :
    (section alias : Text) (c : Text) (children : List Text) (expanded : Bool)
    → HasFamilies (parent_rows section alias (c ∷ children) expanded)
parent_rows-HasFamilies section alias c children true = (
  (omega arith, leads-children section (c ∷ children)),
  children-HasFamilies section (c ∷ children),
)
parent_rows-HasFamilies section alias c children false = (tt, tt)

node_rows-HasFamilies :
    (collapsed : List Text) (section name : Text) (children : List Text)
    → HasFamilies (node_rows collapsed section name children)
node_rows-HasFamilies collapsed section name [] = (tt, tt)
node_rows-HasFamilies collapsed section name (c ∷ children) =
    parent_rows-HasFamilies section name c children _

section_rows-HasFamilies :
    (collapsed : List Text) (section : Text) (nodes : List CatalogNode)
    → HasFamilies (section_rows collapsed section nodes)
section_rows-HasFamilies collapsed section [] = tt
section_rows-HasFamilies collapsed section (n ∷ nodes) =
    HasFamilies-append _ _ (node_rows-HasFamilies collapsed section n.name n.children)
      (section_rows-HasFamilies collapsed section nodes)

packages-HasFamilies : (packages : List PackageNode) → HasFamilies (map package_row_of packages)
packages-HasFamilies [] = tt
packages-HasFamilies (p ∷ packages) = (tt, packages-HasFamilies packages)

pub visible_rows-HasFamilies :
    (tree : CatalogTree) (collapsed : List Text) → HasFamilies (visible_rows tree collapsed)
unfolding visible_rows
visible_rows-HasFamilies tree collapsed =
    HasFamilies-append _ _ (section_rows-HasFamilies collapsed _ tree.files) (
      HasFamilies-append _ _ (section_rows-HasFamilies collapsed _ tree.connections)
        (packages-HasFamilies tree.packages))

-- The family of the parent at a position.
pub HasFamily-at :
    (rows : List CatalogRow) (p : ℕ) (r : CatalogRow)
    → HasFamilies rows
    → get_elem? rows p ≡ some r
    → HasFamily r.kind (drop (suc p) rows)
HasFamily-at [] p r h e = absurd (none-ne-some r e)
HasFamily-at (x ∷ rows) zero r h e =
    subst (λ (y : CatalogRow). HasFamily y.kind rows) (some-injective x r e) h.0
HasFamily-at (x ∷ rows) (suc p) r h e = HasFamily-at rows p r h.1 e
