-- ===== src/Catalog/Nav/Parents.antt =====
-- Between a parent and its children.
use dat.Prelude.{
  ℕ, zero, suc, ◌+◌, ◌<◌, ◌≤◌, true, false, List, [], ◌∷◌, Text, codes, none, some, take, drop,
  get_elem?, text_eq, ◌≡◌, refl, sym, ap, arith, Bool-cases, inl, inr,
}
use mathlib.Core.Bool.{true≢false}
use mathlib.Core.Option.{some-injective, none-ne-some}
use dat.View.Model.Calls.{rposition}
use dat.Catalog.Tree.{CatalogTree}
use dat.Catalog.Nav.{
  RowKind, parent, leaf, package_row, CatalogRow, row, visible_rows, move, is_parent, left_at,
  tree_nav,
}
use dat.Catalog.Nav.Families.{is_child, leads, HasFamily-at, visible_rows-HasFamilies}

child_lem :
    (section : Text) (k : RowKind)
    → is_child (row section k) ≡ true
    → (is_parent (row section k) ≡ false) × ((name : Text) × (k ≡ leaf name 1))
child_lem section (leaf name depth) c = (refl, (name, ap (leaf name) (ground arith)))
child_lem section (parent _ _ _) c = absurd (true≢false (sym c))
child_lem section (package_row _ _) c = absurd (true≢false (sym c))

-- Among children there is no parent.
rposition-leads :
    (n j : ℕ) (rows : List CatalogRow)
    → leads n rows ≡ true
    → j ≤ n
    → rposition is_parent (take j rows) ≡ none
rposition-leads n zero rows h l = refl
rposition-leads n (suc j) [] h l = refl
rposition-leads zero (suc j) (r ∷ rows) h l = absurd (omega (arith, l))
rposition-leads (suc n) (suc j) (r ∷ rows) h l = elim (Bool-cases (is_child r)) [
  | inl c ↦
      rw (rposition-leads n j rows (rw c at h) (omega (arith, l)), (child_lem r.section r.kind c).0)
        refl
  | inr c ↦ absurd (true≢false (sym (rw c at h)))
]

-- The last parent before the rows of a family is theirs.
rposition-family :
    (rows : List CatalogRow) (p k n : ℕ) (r : CatalogRow)
    → get_elem? rows p ≡ some r
    → is_parent r ≡ true
    → leads n (drop (suc p) rows) ≡ true
    → p ≤ k
    → k ≤ p + n
    → rposition is_parent (take (suc k) rows) ≡ some p
rposition-family [] p k n r e q h lo hi = absurd (none-ne-some r e)
rposition-family (x ∷ rows) zero k n r e q h lo hi =
    rw (rposition-leads n k rows h (omega (arith, hi)), some-injective x r e, q) refl
rposition-family (x ∷ rows) (suc p) zero n r e q h lo hi = absurd (omega (arith, lo))
rposition-family (x ∷ rows) (suc p) (suc k) n r e q h lo hi =
    rw (rposition-family rows p k n r e q h (omega (arith, lo)) (omega (arith, hi))) refl

in_lead :
    (n j : ℕ) (rows : List CatalogRow)
    → leads n rows ≡ true
    → j < n
    → (r : CatalogRow) × (get_elem? rows j ≡ some r) × (is_child r ≡ true)
in_lead zero j rows h l = absurd (omega (arith, l))
in_lead (suc n) j [] h l = absurd (true≢false (sym h))
in_lead (suc n) zero (r ∷ rows) h l = elim (Bool-cases (is_child r)) [
  | inl c ↦ (r, refl, c)
  | inr c ↦ absurd (true≢false (sym (rw c at h)))
]
in_lead (suc n) (suc j) (r ∷ rows) h l = elim (Bool-cases (is_child r)) [
  | inl c ↦ in_lead n j rows (rw c at h) (omega (arith, l))
  | inr c ↦ absurd (true≢false (sym (rw c at h)))
]

-- The rows of a family are children.
family-get_elem? :
    (rows : List CatalogRow) (p k n : ℕ)
    → leads n (drop (suc p) rows) ≡ true
    → p ≤ k
    → k < p + n
    → (r : CatalogRow) × (get_elem? rows (suc k) ≡ some r) × (is_child r ≡ true)
family-get_elem? [] p k zero h lo hi = absurd (omega (arith, lo, hi))
family-get_elem? [] p k (suc n) h lo hi = absurd (true≢false (sym h))
family-get_elem? (x ∷ rows) zero k n h lo hi = in_lead n k rows h (omega (arith, hi))
family-get_elem? (x ∷ rows) (suc p) zero n h lo hi = absurd (omega (arith, lo))
family-get_elem? (x ∷ rows) (suc p) (suc k) n h lo hi =
    family-get_elem? rows p k n h (omega (arith, lo)) (omega (arith, hi))

left_child :
    (rows : List CatalogRow) (p k : ℕ) (r : CatalogRow)
    → get_elem? rows (suc k) ≡ some r
    → is_child r ≡ true
    → rposition is_parent (take (suc k) rows) ≡ some p
    → tree_nav rows (suc k) (codes "left") ≡ move p
unfolding tree_nav text_eq
left_child rows p k r e c q = rw e (left_leaf r.kind (child_lem r.section r.kind c).1)
  where
    left_leaf :
        (kind : RowKind)
        → ((name : Text) × (kind ≡ leaf name 1))
        → left_at rows kind (suc k) ≡ move p
    left_leaf kind (name, l) = rw (l, q) refl

-- On an expanded parent, the right arrow goes to its first child; and from each of its children, as
-- many as the parent counts, all of them visible, the left arrow comes back to it.
pub tree_nav-family :
    (tree : CatalogTree) (collapsed : List Text) (p k n : ℕ) (section alias : Text)
    → get_elem? (visible_rows tree collapsed) p ≡ some (row section (parent alias true n))
    → p < k
    → k ≤ p + n
    → (tree_nav (visible_rows tree collapsed) p (codes "right") ≡ move (p + 1))
      × (tree_nav (visible_rows tree collapsed) k (codes "left") ≡ move p)
unfolding tree_nav text_eq
tree_nav-family tree collapsed p zero n section alias e lo hi = absurd (omega (arith, lo))
tree_nav-family tree collapsed p (suc k) n section alias e lo hi =
    let rows = visible_rows tree collapsed in
    let f =
      HasFamily-at rows p (row section (parent alias true n))
        (visible_rows-HasFamilies tree collapsed) e in
    let (r, e', c) = family-get_elem? rows p k n f.1 (omega (arith, lo)) (omega (arith, hi)) in
    (
      rw e refl,
      left_child rows p k r e' c
          (rposition-family rows p k n _ e refl f.1 (omega (arith, lo)) (omega (arith, hi))),
    )
