-- ===== src/Catalog/Nav/Examples.antt =====
-- Tests and instances for the catalog's rows and keys.
use dat.Prelude.{List, [], ◌∷◌, Text, codes, some, ◌≡◌, ◌<◌, refl, length, text_eq, arith}
use dat.Catalog.Tree.{CatalogNode, CatalogTree}
use dat.Catalog.Nav.{visible_rows, move, toggle, open_table, tree_nav, package_activation}
use dat.Catalog.Nav.Range.{tree_nav-in_range}
use dat.Catalog.Nav.Parents.{tree_nav-family}

abbrev node : Text → List Text → CatalogNode
node name children = record { name = name; schema = []; children = children }

-- Two attachments with tables, a table of its own, and a package.
abbrev tree : CatalogTree
tree = record {
  files = node (codes "sq") (codes "a" ∷ codes "b" ∷ []) ∷ node (codes "t") [] ∷ [];
  connections = node (codes "md") (codes "c" ∷ []) ∷ [];
  packages = record { name = codes "run.dat0"; path = codes "/tmp/run.dat0" } ∷ [];
}

all_rows : length (visible_rows tree []) ≡ 7
unfolding visible_rows text_eq
all_rows = refl

collapsed_rows : length (visible_rows tree (codes "sq" ∷ [])) ≡ 5
unfolding visible_rows text_eq
collapsed_rows = refl

enter_opens : tree_nav (visible_rows tree []) 2 (codes "enter") ≡ open_table (codes "b")
unfolding tree_nav visible_rows text_eq
enter_opens = refl

collapsed_opens :
    tree_nav (visible_rows tree (codes "sq" ∷ [])) 0 (codes "right") ≡ toggle (codes "sq")
unfolding tree_nav visible_rows text_eq
collapsed_opens = refl

package_opens :
    package_activation (visible_rows tree []) 6 (codes "space") ≡ some (codes "/tmp/run.dat0")
unfolding package_activation visible_rows text_eq
package_opens = refl

tree_nav-in_range_example : 5 < length (visible_rows tree [])
unfolding tree_nav visible_rows text_eq
tree_nav-in_range_example = tree_nav-in_range tree [] 4 (codes "right") 5 refl

tree_nav-family_example :
    (tree_nav (visible_rows tree []) 0 (codes "right") ≡ move 1)
    × (tree_nav (visible_rows tree []) 2 (codes "left") ≡ move 0)
unfolding visible_rows text_eq
tree_nav-family_example =
    tree_nav-family tree [] 0 2 2 (codes "Files") (codes "sq") refl (omega arith) (omega arith)
