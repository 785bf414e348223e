-- ===== src/Catalog/Nav/Range.antt =====
-- No key leads out of the rows.
use dat.Prelude.{
  ℕ, zero, suc, ◌+◌, ◌<◌, ◌≤◌, ◌==◌, Bool, true, false, ◌||◌, List, [], ◌∷◌, Text, codes, Option,
  none, some, ltb, if◌then◌else◌, length, take, drop, get_elem?, text_eq, ◌≡◌, refl, sym, arith,
  Bool-cases, inl, inr, length-take,
}
use mathlib.Core.Bool.{true≢false}
use mathlib.Core.Option.{some-injective, none-ne-some}
use mathlib.Core.Path.{subst}
use dat.View.Model.Calls.{rposition, or_here}
use dat.Catalog.Tree.{CatalogTree}
use dat.Catalog.Nav.{
  RowKind, parent, leaf, package_row, CatalogRow, visible_rows, NavAction, move, nothing, is_parent,
  move_to, right_at, left_at, enter_at, down_at, up_at, nav_at, tree_nav,
}
use dat.Catalog.Nav.Families.{
  is_child, leads, HasFamily, HasFamilies, HasFamily-at, visible_rows-HasFamilies,
}

get_elem?-length {ℓ} :
    {A : Type ℓ} (xs : List A) (i : ℕ) (x : A) → get_elem? xs i ≡ some x → i < length xs
get_elem?-length [] i x e = absurd (none-ne-some x e)
get_elem?-length (y ∷ xs) zero x e = omega arith
get_elem?-length (y ∷ xs) (suc i) x e = omega (arith, get_elem?-length xs i x e)

leads-length : (n : ℕ) (rows : List CatalogRow) → leads n rows ≡ true → n ≤ length rows
leads-length zero rows h = omega arith
leads-length (suc n) [] h = absurd (true≢false (sym h))
leads-length (suc n) (r ∷ rows) h = elim (Bool-cases (is_child r)) [
  | inl c ↦ omega (arith, leads-length n rows (rw c at h))
  | inr c ↦ absurd (true≢false (sym (rw c at h)))
]

length-drop-suc :
    {A : Type 0} (xs : List A) (p : ℕ) → 0 < length (drop (suc p) xs) → p + 1 < length xs
length-drop-suc [] p h = omega (arith, h)
length-drop-suc (x ∷ xs) zero h = omega (arith, h)
length-drop-suc (x ∷ xs) (suc p) h = omega (arith, length-drop-suc xs p h)

or_here-lt :
    (o : Option ℕ) (n i : ℕ) (b : Bool)
    → ((j : ℕ) → o ≡ some j → j < n)
    → or_here o b ≡ some i
    → i < suc n
or_here-lt (some j) n i b k e = omega (arith, k j refl, some-injective (suc j) i e)
or_here-lt none n i true k e = omega (arith, some-injective 0 i e)
or_here-lt none n i false k e = absurd (none-ne-some i e)

rposition-lt :
    {A : Type 0} (q : A → Bool) (xs : List A) (i : ℕ) → rposition q xs ≡ some i → i < length xs
rposition-lt q [] i e = absurd (none-ne-some i e)
rposition-lt q (x ∷ xs) i e =
    or_here-lt (rposition q xs) (length xs) i (q x) (λ j k. rposition-lt q xs j k) e

-- A move stays within `n` rows.
abbrev IsWithin : ℕ → NavAction → Type 0
IsWithin n (move i) = i < n
IsWithin n _ = Unit

module _ (rows : List CatalogRow) (f : HasFamilies rows) (active : ℕ) (r : CatalogRow)
    (e : get_elem? rows active ≡ some r) where
  down-IsWithin : IsWithin (length rows) (down_at (length rows) active)
  down-IsWithin = elim (Bool-cases (ltb (active + 1) (length rows))) [
    | inl h ↦ rw h (ground arith)
    | inr h ↦ rw h tt
  ]

  up-IsWithin : IsWithin (length rows) (up_at active)
  up-IsWithin = elim (Bool-cases (ltb 0 active)) [
    | inl h ↦ rw h (omega (arith, get_elem?-length rows active r e))
    | inr h ↦ rw h tt
  ]

  right-IsWithin :
      (k : RowKind)
      → HasFamily k (drop (suc active) rows)
      → IsWithin (length rows) (right_at k active)
  right-IsWithin (parent alias true n) h =
      length-drop-suc rows active (omega (arith, h.0, leads-length n (drop (suc active) rows) h.1))
  right-IsWithin (parent alias false n) h = tt
  right-IsWithin (leaf _ _) h = tt
  right-IsWithin (package_row _ _) h = tt

  move_to-IsWithin :
      (o : Option ℕ)
      → rposition is_parent (take active rows) ≡ o
      → IsWithin (length rows) (move_to o)
  move_to-IsWithin none h = tt
  move_to-IsWithin (some i) h =
      omega (arith, rposition-lt is_parent (take active rows) i h, length-take active rows)

  left-IsWithin : (k : RowKind) → IsWithin (length rows) (left_at rows k active)
  left-IsWithin (parent alias true n) = tt
  left-IsWithin (parent alias false n) = tt
  left-IsWithin (leaf name depth) = elim (Bool-cases (depth == 1)) [
    | inl h ↦ rw h (move_to-IsWithin _ refl)
    | inr h ↦ rw h tt
  ]
  left-IsWithin (package_row _ _) = tt

  enter-IsWithin : (k : RowKind) → IsWithin (length rows) (enter_at k)
  enter-IsWithin (parent _ _ _) = tt
  enter-IsWithin (leaf _ _) = tt
  enter-IsWithin (package_row _ _) = tt

  chosen-IsWithin :
      (is_down is_up is_right is_left is_enter : Bool)
      → IsWithin (length rows) (
          if is_down
          then down_at (length rows) active
          else if is_up
          then up_at active
          else if is_right
          then right_at r.kind active
          else if is_left
          then left_at rows r.kind active
          else if is_enter
          then enter_at r.kind
          else nothing)
  chosen-IsWithin true _ _ _ _ = down-IsWithin
  chosen-IsWithin false true _ _ _ = up-IsWithin
  chosen-IsWithin false false true _ _ = right-IsWithin r.kind (HasFamily-at rows active r f e)
  chosen-IsWithin false false false true _ = left-IsWithin r.kind
  chosen-IsWithin false false false false true = enter-IsWithin r.kind
  chosen-IsWithin false false false false false = tt

nav_at-IsWithin :
    (rows : List CatalogRow) (active : ℕ) (key : Text) (o : Option CatalogRow)
    → HasFamilies rows
    → get_elem? rows active ≡ o
    → IsWithin (length rows) (nav_at rows active key o)
nav_at-IsWithin rows active key none f e = tt
nav_at-IsWithin rows active key (some r) f e =
    chosen-IsWithin rows f active r e (text_eq key (codes "down")) (text_eq key (codes "up"))
      (text_eq key (codes "right")) (text_eq key (codes "left"))
      (text_eq key (codes "enter") || text_eq key (codes "space"))

-- Whatever the key and the active row, a move of the keyboard leads to a visible row.
pub tree_nav-in_range :
    (tree : CatalogTree) (collapsed : List Text) (active : ℕ) (key : Text) (i : ℕ)
    → tree_nav (visible_rows tree collapsed) active key ≡ move i
    → i < length (visible_rows tree collapsed)
unfolding tree_nav
tree_nav-in_range tree collapsed active key i e =
    subst (IsWithin (length (visible_rows tree collapsed))) e (
      nav_at-IsWithin (visible_rows tree collapsed) active key _
        (visible_rows-HasFamilies tree collapsed) refl)
