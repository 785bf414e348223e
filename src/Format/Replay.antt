-- ===== src/Format/Replay.antt =====
-- The order in which a package's derived tables are made again (crates/dat0-format/src/replay.rs).
-- A `HashMap` goes through its entries in no fixed order: `arrange` is that order.
pub mod Counts
pub mod Edges
pub mod Loop
pub mod Order
pub mod Arranged
pub mod Recipe
pub mod Complete
pub mod Sorted
mod Examples
use dat.Prelude.{
  ℕ, zero, suc, ◌+◌, ◌-◌, ◌^◌, Bool, true, false, List, [], ◌∷◌, ◌++◌, Text, codes, Option, some,
  none, ◌==◌, ◌&&◌, not, if◌then◌else◌, length, any, find, map, text_eq,
}
use dat.Prelude.Results.{Result, ok, err}
use dat.Format.Model.{RecipeTable, Derivation, TableKind, base_table, derived_table}

abbrev pub has_text : List Text → Text → Bool
has_text l x = any (λ y. text_eq y x) l

-- `derived_parents`
abbrev pub parents_of : Option Derivation → List Text
parents_of none = []
parents_of (some (Derivation.sql _ parents)) = parents
parents_of (some (Derivation.transform parent _)) = parent ∷ []

unfoldable pub derived_parents : RecipeTable → List Text
derived_parents t = parents_of t.derivation

abbrev pub is_derived_kind : TableKind → Bool
is_derived_kind base_table = false
is_derived_kind derived_table = true

abbrev pub has_table : List RecipeTable → Text → Bool
has_table l name = any (λ t. text_eq t.name name) l

-- The values of the map from names to derived tables: of two tables of one name the last one stays.
unfoldable pub derived_values : List RecipeTable → List RecipeTable
derived_values [] = []
derived_values (t ∷ tables) =
    let rest = derived_values tables in
    if is_derived_kind t.kind && not (has_table rest t.name) then t ∷ rest else rest

-- The pairs (parent, child) that the two nested loops visit: the parents that are derived themselves.
unfoldable pub derived_edges : List RecipeTable → Text → List Text → List (Text × Text)
derived_edges derived name [] = []
derived_edges derived name (parent ∷ parents) =
    let rest = derived_edges derived name parents in
    if has_table derived parent then (parent, name) ∷ rest else rest

unfoldable pub edges : List RecipeTable → List RecipeTable → List (Text × Text)
unfolding derived_edges derived_parents
edges derived [] = []
edges derived (t ∷ tables) =
    derived_edges derived t.name (derived_parents t) ++ edges derived tables

-- `*indegree += 1` on one name, and `children.entry(parent).or_default().push(name)`.
abbrev pub count_in : (Text → ℕ) → List (Text × Text) → Text → ℕ
count_in indegree [] n = indegree n
count_in indegree ((parent, name) ∷ es) n =
    count_in (λ m. if text_eq m name then indegree m + 1 else indegree m) es n

abbrev pub children_in : (Text → List Text) → List (Text × Text) → Text → List Text
children_in children [] p = children p
children_in children ((parent, name) ∷ es) p =
    children_in (λ q. if text_eq q parent then children q ++ name ∷ [] else children q) es p

unfoldable pub indegree_of : List (Text × Text) → Text → ℕ
indegree_of es = count_in (λ _. 0) es

unfoldable pub children_of : List (Text × Text) → Text → List Text
children_of es = children_in (λ _. []) es

-- The names of the derived tables without a derived parent, in the order of the recipe.
unfoldable pub seeds : (Text → ℕ) → List RecipeTable → List Text
seeds indegree [] = []
seeds indegree (t ∷ tables) =
    let rest = seeds indegree tables in
    if is_derived_kind t.kind && indegree t.name == 0 then t.name ∷ rest else rest

-- `*d -= 1` wraps.
abbrev pub decrement : ℕ → ℕ
decrement zero = 2 ^ 64 - 1
decrement (suc n) = n

abbrev pub lower : (Text → ℕ) → Text → Text → ℕ
lower indegree kid n = if text_eq n kid then decrement (indegree n) else indegree n

-- The loop over the children of a table: the indegrees, and the children pushed onto the queue.
unfoldable pub visit_kids : (Text → ℕ) → List Text → (Text → ℕ) × List Text
visit_kids indegree [] = (indegree, [])
visit_kids indegree (kid ∷ kids) =
    let (after, pushed) = visit_kids (lower indegree kid) kids in
    (after, if decrement (indegree kid) == 0 then kid ∷ pushed else pushed)

-- `derived[name]`, pushed.
abbrev pub push_table : List RecipeTable → Option RecipeTable → List RecipeTable
push_table ordered none = ordered
push_table ordered (some t) = ordered ++ t ∷ []

-- The loop over the queue. It goes on while the queue has names; `fresh` bounds how many more names
-- it can see for the first time.
unfoldable pub topo_loop :
    List RecipeTable
    → (Text → List Text)
    → ℕ
    → (Text → ℕ)
    → List Text
    → List Text
    → List RecipeTable
    → List RecipeTable
unfolding visit_kids
topo_loop derived children fresh indegree [] seen ordered = ordered
topo_loop derived children zero indegree (name ∷ queue) seen ordered = elim (has_text seen name) [
  | true ↦ topo_loop derived children zero indegree queue seen ordered
  | false ↦ ordered
]
topo_loop derived children (suc fresh) indegree (name ∷ queue) seen ordered =
    elim (has_text seen name) [
      | true ↦ topo_loop derived children (suc fresh) indegree queue seen ordered
      | false ↦
          topo_loop derived children fresh (visit_kids indegree (children name)).0
            (queue ++ (visit_kids indegree (children name)).1) (seen ++ name ∷ [])
            (push_table ordered (find (λ t. text_eq t.name name) derived))
    ]

abbrev pub order_derived : List RecipeTable → List RecipeTable → List RecipeTable
order_derived derived tables =
    let es = edges derived derived in
    topo_loop derived (children_of es) (length derived) (indegree_of es)
      (seeds (indegree_of es) tables) [] []

-- The error is a text of its own.
unfoldable pub topo_order_derived :
    (List RecipeTable → List RecipeTable) → List RecipeTable → Result Text (List RecipeTable)
topo_order_derived arrange tables =
    let derived = arrange (derived_values tables) in
    let ordered = order_derived derived tables in
    if length ordered == length derived
    then ok ordered
    else err (codes "recipe derivation graph has a cycle")
