-- ===== src/Catalog/Tree.antt =====
-- The three groups of the catalog (crates/dat0-core/src/catalog/tree.rs). A path is a text.
pub mod Shown
pub mod Filtered
mod Examples
use dat.Prelude.{
  Bool, true, false, Text, text_eq, Option, none, some, List, [], ◌∷◌, ◌++◌, all, map, ◌||◌,
  if◌then◌else◌,
}
use dat.Prelude.Slices.{strip_prefix}
use dat.Prelude.Sorting.{text_leb, sort_by}
use dat.Engine.Tables.{TableInfo, TableOrigin, file, derived, attached}

pub record CatalogNode : Type 0 where
  pub name : Text
  pub schema : Text
  pub children : List Text

pub record PackageNode : Type 0 where
  pub name : Text
  pub path : Text

pub record CatalogTree : Type 0 where
  pub files : List CatalogNode
  pub connections : List CatalogNode
  pub packages : List PackageNode

-- The leaves so far, and the aliases with their tables, in the order of their first table.
pub record Grouped : Type 0 where
  pub leaves : List CatalogNode
  pub attaches : List (Text × List Text)

abbrev pub push_attach : Text → Text → List (Text × List Text) → List (Text × List Text)
push_attach alias name [] = (alias, name ∷ []) ∷ []
push_attach alias name ((a, kids) ∷ l) =
    let rest = push_attach alias name l in
    if text_eq a alias then (a, kids ++ name ∷ []) ∷ l else (a, kids) ∷ rest

abbrev pub leaf : TableInfo → CatalogNode
leaf ti = record { name = ti.name; schema = ti.schema; children = [] }

unfoldable pub group_table : TableInfo → TableOrigin → Grouped → Grouped
group_table ti (file _) g = record g { leaves = g.leaves ++ leaf ti ∷ [] }
group_table ti (derived _) g = record g { leaves = g.leaves ++ leaf ti ∷ [] }
group_table ti (attached alias _) g = record g { attaches = push_attach alias ti.name g.attaches }

unfoldable pub group_tables : List TableInfo → Grouped → Grouped
unfolding group_table
group_tables [] g = g
group_tables (ti ∷ l) g = group_tables l (group_table ti ti.origin g)

abbrev pub connection : Text × List Text → CatalogNode
connection (alias, kids) = record { name = alias; schema = []; children = sort_by text_leb kids }

abbrev pub by_name : CatalogNode → CatalogNode → Bool
by_name a b = text_leb a.name b.name

abbrev pub no_tables : Grouped
no_tables = record { leaves = []; attaches = [] }

unfoldable pub build_tree : List TableInfo → CatalogTree
unfolding group_tables
build_tree tables =
    let g = group_tables tables no_tables in
    record {
      files = sort_by by_name g.leaves;
      connections = sort_by by_name (map connection g.attaches);
      packages = [];
    }

unfoldable pub with_packages : CatalogTree → List PackageNode → CatalogTree
with_packages t packages = record t { packages = sort_by (λ a b. text_leb a.name b.name) packages }

-- `lc.contains(tok)`
abbrev pub is_prefix : Option Text → Bool
is_prefix none = false
is_prefix (some _) = true

abbrev pub contains_text : Text → Text → Bool
contains_text tok [] = is_prefix (strip_prefix tok [])
contains_text tok (c ∷ s) = is_prefix (strip_prefix tok (c ∷ s)) || contains_text tok s

abbrev pub retain : {A : Type 0} → (A → Bool) → List A → List A
retain p [] = []
retain p (x ∷ l) = let rest = retain p l in if p x then x ∷ rest else rest

-- `keep`: none where the node goes, otherwise the node that stays.
abbrev pub keep_children : CatalogNode → List Text → Option CatalogNode
keep_children n [] = none
keep_children n (c ∷ kids) = some (record n { children = c ∷ kids })

abbrev pub keep_parent : (Text → Bool) → CatalogNode → List Text → Option CatalogNode
keep_parent matches n [] = if matches n.name then some n else none
keep_parent matches n (c ∷ kids) =
    if matches n.name then some n else keep_children n (retain matches (c ∷ kids))

unfoldable pub keep : (Text → Bool) → CatalogNode → Option CatalogNode
keep matches n = keep_parent matches n n.children

abbrev pub with_kept : Option CatalogNode → List CatalogNode → List CatalogNode
with_kept none l = l
with_kept (some n) l = n ∷ l

-- `retain_mut(keep)`
abbrev pub retain_mut : (CatalogNode → Option CatalogNode) → List CatalogNode → List CatalogNode
retain_mut k [] = []
retain_mut k (n ∷ l) = with_kept (k n) (retain_mut k l)

-- `str::to_lowercase` and `str::split_whitespace`, which read the Unicode tables.
module _ (to_lowercase : Text → Text) (split_whitespace : Text → List Text) where
  abbrev pub matches_all : List Text → Text → Bool
  matches_all toks name = all (λ t. contains_text t (to_lowercase name)) toks

  unfoldable pub filter_by : CatalogTree → List Text → CatalogTree
  unfolding keep
  filter_by t [] = t
  filter_by t (tok ∷ toks) = record {
    files = retain_mut (keep (matches_all (tok ∷ toks))) t.files;
    connections = retain_mut (keep (matches_all (tok ∷ toks))) t.connections;
    packages = retain (λ p. matches_all (tok ∷ toks) p.name) t.packages;
  }

  unfoldable pub filter_tree : CatalogTree → Text → CatalogTree
  unfolding filter_by
  filter_tree t query = filter_by t (map to_lowercase (split_whitespace query))
