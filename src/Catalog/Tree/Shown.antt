-- ===== src/Catalog/Tree/Shown.antt =====
-- The tables that the catalog shows.
use dat.Prelude.{
  ℕ, ◌+◌, Text, text_eq, text_eq_iff, Option, none, some, List, [], ◌∷◌, ◌++◌, map, ◌≡◌, refl, ◌∙◌,
  ap, ap₂, inl, inr, arith, Bool-cases,
}
use dat.Prelude.Sorting.{weigh, weigh-sort_by, text_leb}
use dat.Engine.Tables.{TableInfo, TableOrigin, file, derived, attached}
use dat.Catalog.Tree.{
  CatalogNode, CatalogTree, Grouped, push_attach, leaf, group_table, group_tables, connection,
  by_name, no_tables, build_tree,
}

-- A table in the catalog: the alias of its connection, where it has one, and its name.
abbrev pub Row : Type 0
Row = Option Text × Text

abbrev pub rows_of : CatalogNode → List Row
rows_of n = map (λ c. (some n.name, c)) n.children

abbrev pub connection_rows : List CatalogNode → List Row
connection_rows [] = []
connection_rows (n ∷ l) = rows_of n ++ connection_rows l

abbrev pub shown : CatalogTree → List Row
shown t = map (λ n. (none, n.name)) t.files ++ connection_rows t.connections

-- Where the engine has the table.
abbrev pub place_of : Text → TableOrigin → Row
place_of name (file _) = (none, name)
place_of name (derived _) = (none, name)
place_of name (attached alias _) = (some alias, name)

abbrev pub place : TableInfo → Row
place ti = place_of ti.name ti.origin

module _ {A : Type 0} where
  pub weigh-append : (w : A → ℕ) (xs ys : List A) → weigh w (xs ++ ys) ≡ weigh w xs + weigh w ys
  weigh-append w [] ys = omega arith
  weigh-append w (x ∷ xs) ys = let e = weigh-append w xs ys in omega arith

  weigh-map :
      {B : Type 0} (w : B → ℕ) (f : A → B) (l : List A) → weigh w (map f l) ≡ weigh (λ x. w (f x)) l
  weigh-map w f [] = refl
  weigh-map w f (x ∷ l) = ap (λ n. w (f x) + n) (weigh-map w f l)

  pub weigh-same : (w v : A → ℕ) → ((x : A) → w x ≡ v x) → (l : List A) → weigh w l ≡ weigh v l
  weigh-same w v k [] = refl
  weigh-same w v k (x ∷ l) = ap₂ (λ m n. m + n) (k x) (weigh-same w v k l)

module _ (w : Row → ℕ) where
  -- What the rows of a connection weigh.
  abbrev pub attach_weight : Text × List Text → ℕ
  attach_weight (alias, kids) = weigh (λ c. w (some alias, c)) kids

  connection_rows-weigh :
      (l : List CatalogNode)
      → weigh w (connection_rows l) ≡ weigh (λ n. attach_weight (n.name, n.children)) l
  connection_rows-weigh [] = refl
  connection_rows-weigh (n ∷ l) =
      weigh-append w (rows_of n) (connection_rows l)
      ∙ ap₂ (λ a b. a + b) (weigh-map w (λ c. (some n.name, c)) n.children)
          (connection_rows-weigh l)

  pub shown-weigh :
      (t : CatalogTree)
      → weigh w (shown t)
        ≡ weigh (λ n. w (none, n.name)) t.files
          + weigh (λ n. attach_weight (n.name, n.children)) t.connections
  shown-weigh t =
      weigh-append w (map (λ n. (none, n.name)) t.files) (connection_rows t.connections)
      ∙ ap₂ (λ a b. a + b) (weigh-map w (λ n. (none, n.name)) t.files)
          (connection_rows-weigh t.connections)

  push_attach-weigh :
      (alias name : Text) (l : List (Text × List Text))
      → weigh attach_weight (push_attach alias name l)
        ≡ weigh attach_weight l + w (some alias, name)
  push_attach-weigh alias name [] = omega arith
  push_attach-weigh alias name ((a, kids) ∷ l) = elim (Bool-cases (text_eq a alias)) [
    | inl e ↦
        let q = (text_eq_iff a alias).0 e in
        let s = weigh-append (λ c. w (some a, c)) kids (name ∷ []) in
        let r : w (some a, name) ≡ w (some alias, name) = ap (λ t. w (some t, name)) q in
        rw e (omega arith)
    | inr f ↦ let s = push_attach-weigh alias name l in rw f (omega arith)
  ]

  abbrev group_weight : Grouped → ℕ
  group_weight g = weigh (λ n. w (none, n.name)) g.leaves + weigh attach_weight g.attaches

  group_table-weigh :
      (ti : TableInfo) (origin : TableOrigin) (g : Grouped)
      → group_weight (group_table ti origin g) ≡ group_weight g + w (place_of ti.name origin)
  unfolding group_table
  group_table-weigh ti (file _) g =
      let s = weigh-append (λ n. w (none, n.name)) g.leaves (leaf ti ∷ []) in omega arith
  group_table-weigh ti (derived _) g =
      let s = weigh-append (λ n. w (none, n.name)) g.leaves (leaf ti ∷ []) in omega arith
  group_table-weigh ti (attached alias _) g =
      let s = push_attach-weigh alias ti.name g.attaches in omega arith

  group_tables-weigh :
      (l : List TableInfo) (g : Grouped)
      → group_weight (group_tables l g) ≡ group_weight g + weigh w (map place l)
  unfolding group_tables
  group_tables-weigh [] g = omega arith
  group_tables-weigh (ti ∷ l) g =
      let one = group_table-weigh ti ti.origin g in
      let rest = group_tables-weigh l (group_table ti ti.origin g) in omega arith

  connection-weigh :
      (x : Text × List Text)
      → attach_weight ((connection x).name, (connection x).children) ≡ attach_weight x
  connection-weigh (alias, kids) = weigh-sort_by text_leb (λ c. w (some alias, c)) kids

  pub build_tree-weigh :
      (tables : List TableInfo) → weigh w (shown (build_tree tables)) ≡ weigh w (map place tables)
  unfolding build_tree
  build_tree-weigh tables =
      let g = group_tables tables no_tables in
      let all_rows = group_tables-weigh tables no_tables in
      let files = weigh-sort_by by_name (λ n. w (none, n.name)) g.leaves in
      let conns =
        weigh-sort_by by_name (λ n. attach_weight (n.name, n.children))
          (map connection g.attaches) in
      let mapped = weigh-map (λ n. attach_weight (n.name, n.children)) connection g.attaches in
      let sorted =
        weigh-same (λ x. attach_weight ((connection x).name, (connection x).children)) attach_weight
          connection-weigh g.attaches in
      shown-weigh (build_tree tables)
      ∙ ap₂ (λ a b. a + b) files (conns ∙ mapped ∙ sorted)
      ∙ all_rows
      ∙ omega arith
