-- ===== src/Catalog/Tree/Filtered.antt =====
-- The tables that the filter leaves in the catalog.
use dat.Prelude.{
  ℕ, ◌+◌, Bool, true, false, ◌&&◌, Text, Option, none, some, List, [], ◌∷◌, map, if◌then◌else◌, ◌≡◌,
  refl, sym, ◌∙◌, ap, ap₂, inl, inr, arith, Bool-cases,
}
use dat.Prelude.Sorting.{weigh, count_by, weigh-sort_by}
use dat.Engine.Tables.{TableInfo, TableOrigin, file, derived, attached}
use dat.Catalog.Tree.{
  CatalogNode, CatalogTree, Grouped, leaf, group_table, group_tables, by_name, no_tables,
  build_tree, retain, keep, keep_children, with_kept, retain_mut, matches_all, filter_by,
  filter_tree,
}
use dat.Catalog.Tree.Shown.{
  Row, shown, place, weigh-append, weigh-same, attach_weight, shown-weigh, build_tree-weigh,
}

-- A row stays where its own name or its connection's alias matches.
abbrev pub row_matches : (Text → Bool) → Row → Bool
row_matches matches (none, name) = matches name
row_matches matches (some alias, name) = if matches alias then true else matches name

abbrev not_leaf : List Text → ℕ
not_leaf [] = 0
not_leaf (_ ∷ _) = 1

-- How many nodes have children.
abbrev parents_among : List CatalogNode → ℕ
parents_among l = weigh (λ n. not_leaf n.children) l

group_table-leaves :
    (ti : TableInfo) (origin : TableOrigin) (g : Grouped)
    → parents_among g.leaves ≡ 0
    → parents_among (group_table ti origin g).leaves ≡ 0
unfolding group_table
group_table-leaves ti (file _) g k =
    let s = weigh-append (λ n. not_leaf n.children) g.leaves (leaf ti ∷ []) in omega arith
group_table-leaves ti (derived _) g k =
    let s = weigh-append (λ n. not_leaf n.children) g.leaves (leaf ti ∷ []) in omega arith
group_table-leaves ti (attached alias _) g k = k

group_tables-leaves :
    (l : List TableInfo) (g : Grouped)
    → parents_among g.leaves ≡ 0
    → parents_among (group_tables l g).leaves ≡ 0
unfolding group_tables
group_tables-leaves [] g k = k
group_tables-leaves (ti ∷ l) g k =
    group_tables-leaves l (group_table ti ti.origin g) (group_table-leaves ti ti.origin g k)

build_tree-leaves : (tables : List TableInfo) → parents_among (build_tree tables).files ≡ 0
unfolding build_tree
build_tree-leaves tables =
    weigh-sort_by by_name (λ n. not_leaf n.children) (group_tables tables no_tables).leaves
    ∙ group_tables-leaves tables no_tables refl

abbrev kept_weight : (CatalogNode → ℕ) → Option CatalogNode → ℕ
kept_weight w none = 0
kept_weight w (some n) = w n

with_kept-weigh :
    (w : CatalogNode → ℕ) (o : Option CatalogNode) (l : List CatalogNode)
    → weigh w (with_kept o l) ≡ kept_weight w o + weigh w l
with_kept-weigh w none l = omega arith
with_kept-weigh w (some n) l = refl

retain_mut-weigh :
    (w : CatalogNode → ℕ) (k : CatalogNode → Option CatalogNode) (l : List CatalogNode)
    → weigh w (retain_mut k l) ≡ weigh (λ n. kept_weight w (k n)) l
retain_mut-weigh w k [] = refl
retain_mut-weigh w k (n ∷ l) =
    with_kept-weigh w (k n) (retain_mut k l)
    ∙ ap (λ m. kept_weight w (k n) + m) (retain_mut-weigh w k l)

retain-weigh :
    (w : Text → ℕ) (p : Text → Bool) (l : List Text)
    → weigh w (retain p l) ≡ weigh (λ c. if p c then w c else 0) l
retain-weigh w p [] = refl
retain-weigh w p (c ∷ l) =
    let s = retain-weigh w p l in
    elim (Bool-cases (p c)) [ inl e ↦ rw e (omega arith) | inr f ↦ rw f (omega arith) ]

module _ (matches : Text → Bool) (p : Row → Bool) where
  abbrev tested : Row → ℕ
  tested r = if p r then 1 else 0

  abbrev matched : Row → ℕ
  matched r = if p r && row_matches matches r then 1 else 0

  keep_children-weigh :
      (name schema : Text) (kids kids' : List Text)
      → kept_weight
          (λ n. attach_weight tested (n.name, n.children))
          (keep_children (record { name = name; schema = schema; children = kids' }) kids)
        ≡ attach_weight tested (name, kids)
  keep_children-weigh name schema [] kids' = refl
  keep_children-weigh name schema (c ∷ kids) kids' = refl

  matched-alias :
      (name c : Text) → matches name ≡ true → tested (some name, c) ≡ matched (some name, c)
  matched-alias name c e = ground arith

  matched-child :
      (name c : Text)
      → matches name ≡ false
      → (if matches c then tested (some name, c) else 0) ≡ matched (some name, c)
  matched-child name c f = ground arith

  keep-weigh :
      (name schema : Text) (kids : List Text)
      → kept_weight
          (λ n. attach_weight tested (n.name, n.children))
          (keep matches (record { name = name; schema = schema; children = kids }))
        ≡ attach_weight matched (name, kids)
  unfolding keep
  keep-weigh name schema [] = elim (Bool-cases (matches name)) [
    | inl e ↦ rw e refl
    | inr f ↦ rw f refl
  ]
  keep-weigh name schema (c ∷ kids) = elim (Bool-cases (matches name)) [
    | inl e ↦
        ap
          (λ b.
            kept_weight (λ n. attach_weight tested (n.name, n.children))
              (if b
                then some (record { name = name; schema = schema; children = c ∷ kids })
                else keep_children (record { name = name; schema = schema; children = c ∷ kids })
                    (retain matches (c ∷ kids))))
          e
        ∙ weigh-same (λ t. tested (some name, t)) (λ t. matched (some name, t))
            (λ t. matched-alias name t e) (c ∷ kids)
    | inr f ↦
        ap
          (λ b.
            kept_weight (λ n. attach_weight tested (n.name, n.children))
              (if b
                then some (record { name = name; schema = schema; children = c ∷ kids })
                else keep_children (record { name = name; schema = schema; children = c ∷ kids })
                    (retain matches (c ∷ kids))))
          f
        ∙ keep_children-weigh name schema (retain matches (c ∷ kids)) (c ∷ kids)
        ∙ retain-weigh (λ t. tested (some name, t)) matches (c ∷ kids)
        ∙ weigh-same (λ t. if matches t then tested (some name, t) else 0)
            (λ t. matched (some name, t)) (λ t. matched-child name t f) (c ∷ kids)
  ]

  keep_leaf-weigh :
      (name schema : Text) (kids : List Text)
      → not_leaf kids ≡ 0
      → kept_weight
          (λ n. tested (none, n.name))
          (keep matches (record { name = name; schema = schema; children = kids }))
        ≡ matched (none, name)
  unfolding keep
  keep_leaf-weigh name schema [] k = elim (Bool-cases (matches name)) [
    | inl e ↦ rw e (ground (arith, e))
    | inr f ↦ rw f (ground (arith, f))
  ]
  keep_leaf-weigh name schema (c ∷ kids) k = absurd (omega arith)

  files-weigh :
      (l : List CatalogNode)
      → parents_among l ≡ 0
      → weigh (λ n. kept_weight (λ n. tested (none, n.name)) (keep matches n)) l
        ≡ weigh (λ n. matched (none, n.name)) l
  files-weigh [] k = refl
  files-weigh (n ∷ l) k =
      ap₂ (λ a b. a + b) (keep_leaf-weigh n.name n.schema n.children (omega arith))
        (files-weigh l (omega arith))

  filtered-weigh :
      (t t' : CatalogTree)
      → parents_among t.files ≡ 0
      → t'.files ≡ retain_mut (keep matches) t.files
      → t'.connections ≡ retain_mut (keep matches) t.connections
      → count_by p (shown t') ≡ count_by (λ r. p r && row_matches matches r) (shown t)
  filtered-weigh t t' k e e' =
      shown-weigh tested t'
      ∙ ap₂ (λ a b. a + b)
          (ap (weigh (λ n. tested (none, n.name))) e
            ∙ retain_mut-weigh (λ n. tested (none, n.name)) (keep matches) t.files
            ∙ files-weigh t.files k)
          (ap (weigh (λ n. attach_weight tested (n.name, n.children))) e'
            ∙ retain_mut-weigh (λ n. attach_weight tested (n.name, n.children)) (keep matches)
                t.connections
            ∙ weigh-same
                (λ n. kept_weight (λ n. attach_weight tested (n.name, n.children)) (keep matches n))
                (λ n. attach_weight matched (n.name, n.children))
                (λ n. keep-weigh n.name n.schema n.children) t.connections)
      ∙ sym (shown-weigh matched t)

module _ (to_lowercase : Text → Text) (split_whitespace : Text → List Text) where
  row_matches-all : (r : Row) → row_matches (matches_all to_lowercase split_whitespace []) r ≡ true
  row_matches-all (none, name) = refl
  row_matches-all (some alias, name) = refl

  filter_by-weigh :
      (p : Row → Bool) (t : CatalogTree) (toks : List Text)
      → parents_among t.files ≡ 0
      → count_by p (shown (filter_by to_lowercase split_whitespace t toks))
        ≡ count_by
            (λ r. p r && row_matches (matches_all to_lowercase split_whitespace toks) r)
            (shown t)
  unfolding filter_by
  filter_by-weigh p t [] k =
      weigh-same (λ r. if p r then 1 else 0)
        (λ r. if p r && row_matches (matches_all to_lowercase split_whitespace []) r then 1 else 0)
        (λ r. ground (arith, row_matches-all r)) (shown t)
  filter_by-weigh p t (tok ∷ toks) k =
      filtered-weigh (matches_all to_lowercase split_whitespace (tok ∷ toks)) p t
        (filter_by to_lowercase split_whitespace t (tok ∷ toks)) k refl refl

  -- Whatever the tables and the query: after the filter, the tree that is built of the tables shows
  -- each table as often as the engine lists it where all tokens of the query are in its name, or in
  -- the alias of its connection, and not at all where they are not; it shows a table under the alias
  -- of its connection, and one without a connection among the files. So it does, for every test of
  -- alias and name, with the tables that pass the test.
  pub filter_tree-build_tree :
      (tables : List TableInfo) (query : Text) (p : Row → Bool)
      → count_by p (shown (filter_tree to_lowercase split_whitespace (build_tree tables) query))
        ≡ count_by
            (λ r.
              p r
              && row_matches
                  (matches_all to_lowercase split_whitespace
                    (map to_lowercase (split_whitespace query)))
                  r)
            (map place tables)
  unfolding filter_tree
  filter_tree-build_tree tables query p =
      let toks = map to_lowercase (split_whitespace query) in
      filter_by-weigh p (build_tree tables) toks (build_tree-leaves tables)
      ∙ build_tree-weigh
          (λ r.
            if p r && row_matches (matches_all to_lowercase split_whitespace toks) r then 1 else 0)
          tables
