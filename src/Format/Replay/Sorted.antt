-- ===== src/Format/Replay/Sorted.antt =====
-- `topo_order_derived` sorts the derived tables of a recipe.
use dat.Prelude.{
  ℕ, ◌<◌, Bool, true, false, List, [], Text, if◌then◌else◌, ◌==◌, map, length, ◌≡◌, refl, sym, ap,
  ◌∙◌, arith,
}
use mathlib.Core.Path.{subst}
use mathlib.Core.Bool.{true≢false}
use dat.Prelude.Results.{Result, ok, err}
use dat.Prelude.Predicates.{All}
use dat.Format.Model.{RecipeTable}
use dat.Format.Replay.{
  has_text, derived_parents, is_derived_kind, derived_values, order_derived, topo_order_derived,
}
use dat.Format.Replay.Loop.{name_of}
use dat.Format.Replay.Arranged.{Rearranged, All-Rearranged}
use dat.Format.Replay.Recipe.{has_derived, All-derived_values, All-edges, All-imply}
use dat.Format.Replay.Complete.{
  IsSorted, same_names, IsSorted-ParentsFirst, same_text, total_order, order-Done,
}

abbrev order_or_nil : Result Text (List RecipeTable) → List RecipeTable
order_or_nil (ok l) = l
order_or_nil (err _) = []

abbrev is_order : Result Text (List RecipeTable) → Bool
is_order (ok _) = true
is_order (err _) = false

decided :
    (b : Bool) (l ordered : List RecipeTable) (message : Text)
    → (if b then ok l else err message) ≡ ok ordered
    → (b ≡ true) × (l ≡ ordered)
decided true l ordered message e = (refl, ap order_or_nil e)
decided false l ordered message e = absurd (true≢false (sym (ap is_order e)))

-- For any order of the map's entries: where an order is given, it has each derived table's name once,
-- no other name, and the derived parents of each table before it.
pub topo_order_derived_lem :
    (arrange : List RecipeTable → List RecipeTable)
    → ((l : List RecipeTable) → Rearranged (arrange l) l)
    → (tables ordered : List RecipeTable) → topo_order_derived arrange tables ≡ ok ordered
    → IsSorted tables [] ordered
      × ((n : Text) → has_text (map name_of ordered) n ≡ has_derived tables n)
unfolding topo_order_derived
topo_order_derived_lem arrange h tables ordered e =
    let derived = arrange (derived_values tables) in
    let arranged = h (derived_values tables) in
    let done = order-Done tables derived arranged in
    let (b, same) =
      decided (length (order_derived derived tables) == length derived) _ ordered _ e in
    let (fresh, indegree, seen, i) = done in
    subst
      (λ l. IsSorted tables [] l × ((n : Text) → has_text (map name_of l) n ≡ has_derived tables n))
      same
      (
        IsSorted-ParentsFirst tables derived arranged [] _ i.first,
        λ n. same_text tables derived arranged _ n done (ground arith),
      )

-- For any order of the map's entries: where a rank of the names grows from each derived parent to its
-- table, so that there is no cycle, an order is given.
pub topo_order_derived_total :
    (arrange : List RecipeTable → List RecipeTable)
    → ((l : List RecipeTable) → Rearranged (arrange l) l)
    → (tables : List RecipeTable) (rank : Text → ℕ)
    → All
        (λ t.
          is_derived_kind t.kind ≡ true
          → All (λ p. has_derived tables p ≡ true → rank p < rank t.name) (derived_parents t))
        tables
    → (ordered : List RecipeTable) × (topo_order_derived arrange tables ≡ ok ordered)
unfolding topo_order_derived
topo_order_derived_total arrange h tables rank grows =
    let derived = arrange (derived_values tables) in
    let arranged = h (derived_values tables) in
    let complete =
      total_order tables derived arranged rank
        (All-edges derived (λ e. rank e.0 < rank e.1) derived
          (All-imply derived _ _
            (λ (t : RecipeTable) k.
              All-imply derived _ _
                (λ p below there. below (sym (same_names tables derived arranged p) ∙ there))
                (derived_parents t) k)
            derived (All-Rearranged _ arranged (All-derived_values _ tables grows))))
        _ (order-Done tables derived arranged) in
    let test : (length (order_derived derived tables) == length derived) ≡ true =
      ground (arith, complete) in
    (order_derived derived tables, rw test refl)
