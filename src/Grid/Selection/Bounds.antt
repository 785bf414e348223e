-- ===== src/Grid/Selection/Bounds.antt =====
-- `bounds` is the smallest range that covers the selection.
use dat.Prelude.{◌≤◌, List, [], ◌∷◌, Option, none, some, ◌≡◌, refl, arith, inl, inr, ◌⊎◌}
use dat.Prelude.Predicates.{All}
use dat.Grid.Selection.{CellRange, SelectionModel, normal, join, widen, bounds_from, bounds}

-- Within, for ranges in normal form.
pub record Within (a b : CellRange) : Type 0 where
  pub top : b.r0 ≤ a.r0
  pub left : b.c0 ≤ a.c0
  pub bottom : a.r1 ≤ b.r1
  pub right : a.c1 ≤ b.c1

abbrev WithinAcc : Option CellRange → CellRange → Type 0
WithinAcc none b = Unit
WithinAcc (some a) b = Within a b

abbrev IsCover : Option CellRange → List CellRange → CellRange → Type 0
IsCover acc l b = WithinAcc acc b × All (λ rg. Within (normal rg) b) l

bounds_from-some :
    (a : CellRange) (l : List CellRange) → (b : CellRange) × (bounds_from (some a) l ≡ some b)
bounds_from-some a [] = (a, refl)
bounds_from-some a (rg ∷ l) = bounds_from-some (widen (some a) rg) l

-- The fold covers what it started from and every range.
bounds_from-IsCover :
    (a : CellRange) (l : List CellRange) (b : CellRange)
    → bounds_from (some a) l ≡ some b
    → IsCover (some a) l b
bounds_from-IsCover a [] b e = (ground arith, tt)
bounds_from-IsCover a (rg ∷ l) b e =
    let (acc, rest) = bounds_from-IsCover (join a (normal rg)) l b e in
    (omega arith, (omega arith, rest))

-- It is within every range that covers those.
bounds_from-least :
    (a : CellRange) (l : List CellRange) (b d : CellRange)
    → bounds_from (some a) l ≡ some b
    → IsCover (some a) l d
    → Within b d
bounds_from-least a [] b d e h = ground arith
bounds_from-least a (rg ∷ l) b d e h =
    bounds_from-least (join a (normal rg)) l b d e (omega arith, h.1.1)

-- `bounds` gives nothing for an empty selection; for any other it gives a range that every range
-- of the selection lies within, and that lies within every range with that property.
pub bounds-least :
    (s : SelectionModel)
    → ((s.ranges ≡ []) × (bounds s ≡ none))
      ⊎ ((b : CellRange) × (bounds s ≡ some b)
          × All (λ rg. Within (normal rg) b) s.ranges
          × ((d : CellRange) → All (λ rg. Within (normal rg) d) s.ranges → Within b d))
unfolding bounds
bounds-least s = by_ranges s.ranges
  where
    by_ranges :
        (l : List CellRange)
        → ((l ≡ []) × (bounds_from none l ≡ none))
          ⊎ ((b : CellRange) × (bounds_from none l ≡ some b)
              × All (λ rg. Within (normal rg) b) l
              × ((d : CellRange) → All (λ rg. Within (normal rg) d) l → Within b d))
    by_ranges [] = inl (refl, refl)
    by_ranges (rg ∷ l) =
        let (b, e) = bounds_from-some (normal rg) l in
        inr (
          b,
          e,
          bounds_from-IsCover (normal rg) l b e,
          λ d h. bounds_from-least (normal rg) l b d e h,
        )
