-- ===== src/Format/Replay/Examples.antt =====
-- Tests and instances for the order of the derived tables.
use dat.Prelude.{
  ℕ, ◌<◌, List, [], ◌∷◌, Text, codes, Option, some, none, true, ◌≡◌, refl, sym, arith, text_eq, map,
  ◌-◌,
}
use mathlib.Core.Bool.{true≢false}
use dat.Prelude.Results.{ok, err}
use dat.Prelude.Predicates.{All}
use dat.Format.Model.{RecipeTable, Derivation, TableKind, base_table, derived_table}
use dat.Format.Replay.{
  topo_order_derived, derived_values, derived_edges, edges, derived_parents, indegree_of,
  children_of, seeds, topo_loop, visit_kids, has_text, is_derived_kind,
}
use dat.Format.Replay.Loop.{name_of}
use dat.Format.Replay.Arranged.{Rearranged}
use dat.Format.Replay.Recipe.{has_derived}
use dat.Format.Replay.Complete.{IsSorted}
use dat.Format.Replay.Sorted.{topo_order_derived_lem, topo_order_derived_total}

abbrev table : Text → TableKind → Option Derivation → RecipeTable
table name kind derivation = record {
  id = name;
  name = name;
  kind = kind;
  schema = [];
  row_count = 0;
  data_path = name;
  source_ref = none;
  derivation = derivation;
}

abbrev from : List Text → Option Derivation
from parents = some (Derivation.sql (codes "..") parents)

abbrev a : Text
a = codes "a"

abbrev b : Text
b = codes "b"

abbrev c : Text
c = codes "c"

-- `a` is made of the base table and of `b` and `c`, `b` of `c`.
abbrev recipe : List RecipeTable
recipe =
    table a derived_table (from (b ∷ c ∷ codes "base" ∷ []))
    ∷ table (codes "base") base_table none
    ∷ table b derived_table (from (c ∷ []))
    ∷ table c derived_table (from (codes "base" ∷ []))
    ∷ []

abbrev loop : List RecipeTable
loop = table a derived_table (from (b ∷ [])) ∷ table b derived_table (from (a ∷ [])) ∷ []

same_order : {l : List RecipeTable} → Rearranged l l
same_order {l = []} = Rearranged.empty
same_order {l = t ∷ l} = Rearranged.keep same_order

abbrev sorted : List RecipeTable
sorted =
    table c derived_table (from (codes "base" ∷ []))
    ∷ table b derived_table (from (c ∷ []))
    ∷ table a derived_table (from (b ∷ c ∷ codes "base" ∷ []))
    ∷ []

recipe_sorted : topo_order_derived (λ l. l) recipe ≡ ok sorted
unfolding topo_order_derived derived_values derived_edges edges derived_parents indegree_of
    children_of seeds topo_loop visit_kids text_eq
recipe_sorted = refl

cycle_refused : topo_order_derived (λ l. l) loop ≡ err (codes "recipe derivation graph has a cycle")
unfolding topo_order_derived derived_values derived_edges edges derived_parents indegree_of
    children_of seeds topo_loop visit_kids text_eq
cycle_refused = refl

topo_order_derived_lem_example :
    IsSorted recipe [] sorted
    × ((n : Text) → has_text (map name_of sorted) n ≡ has_derived recipe n)
topo_order_derived_lem_example =
    topo_order_derived_lem (λ l. l) (λ l. same_order) recipe sorted recipe_sorted

abbrev height : Text → ℕ
height [] = 0
height (n ∷ _) = 100 - n

recipe_grows :
    All
      (λ t.
        is_derived_kind t.kind ≡ true
        → All (λ p. has_derived recipe p ≡ true → height p < height t.name) (derived_parents t))
      recipe
unfolding derived_parents text_eq
recipe_grows = (
  λ _. ((λ _. omega arith), ((λ _. omega arith), ((λ _. omega arith), tt))),
  (λ _. tt, (λ _. ((λ _. omega arith), tt), (λ _. ((λ h. absurd (true≢false (sym h))), tt), tt))),
)

topo_order_derived_total_example :
    (l : List RecipeTable) × (topo_order_derived (λ l. l) recipe ≡ ok l)
topo_order_derived_total_example =
    topo_order_derived_total (λ l. l) (λ l. same_order) recipe height recipe_grows
