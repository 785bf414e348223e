-- ===== src/View/Columns/Fold.antt =====
-- Which columns the fold shows.
use dat.Prelude.{
  Bool, true, false, List, [], ◌∷◌, ◌++◌, Text, ◌&&◌, ◌||◌, if◌then◌else◌, any, find, map, text_eq,
  text_eq_iff, not, ◌≡◌, refl, sym, ap, ◌∙◌, arith, Bool-cases, inl, inr,
}
use dat.Engine.Transform.{
  ProjectionColumn, Transformation, rename, delete_column, reorder, filter, sort, edit, row_delete,
}
use dat.View.Columns.{
  has_source, has_text, rename_column, push_found, pick, keep_one, keep_rest, reorder_columns,
  fold_step, fold_ops, without, projected, fold_columns,
}

any-append {ℓ} : {A : Type ℓ} (p : A → Bool) (l r : List A) → any p (l ++ r) ≡ (any p l || any p r)
any-append p [] r = refl
any-append p (x ∷ l) r = ground (arith, any-append p l r)

has_source-rename_column :
    (column to x : Text) (cols : List ProjectionColumn)
    → has_source (rename_column column to cols) x ≡ has_source cols x
unfolding rename_column
has_source-rename_column column to x [] = refl
has_source-rename_column column to x (c ∷ cols) = elim (Bool-cases (text_eq c.source column)) [
  | inl t ↦ rw t refl
  | inr f ↦ rw f (rw (has_source-rename_column column to x cols) refl)
]

-- A column with another source makes no difference.
other_source :
    (src x : Text) (c : ProjectionColumn) (cols : List ProjectionColumn)
    → text_eq c.source src ≡ false
    → (text_eq src x && has_source cols x) ≡ (text_eq src x && has_source (c ∷ cols) x)
other_source src x c cols f = elim (Bool-cases (text_eq src x)) [
  | inl t ↦
      let miss : text_eq c.source x ≡ false =
        ap (text_eq c.source) (sym ((text_eq_iff src x).0 t)) ∙ f in
      ground arith
  | inr g ↦ ground arith
]

-- A column that is found has the source that was looked for.
has_source-push_found :
    (next : List ProjectionColumn) (src x : Text) (cols : List ProjectionColumn)
    → has_source (push_found next (find (λ c. text_eq c.source src) cols)) x
      ≡ (has_source next x || (text_eq src x && has_source cols x))
has_source-push_found next src x [] = ground arith
has_source-push_found next src x (c ∷ cols) = elim (Bool-cases (text_eq c.source src)) [
  | inl t ↦
      let same : text_eq src x ≡ text_eq c.source x =
        ap (λ s. text_eq s x) (sym ((text_eq_iff c.source src).0 t)) in
      let pushed : has_source (next ++ c ∷ []) x ≡ (has_source next x || has_source (c ∷ []) x) =
        any-append (λ d. text_eq d.source x) next (c ∷ []) in
      rw t (pushed ∙ ground arith)
  | inr f ↦ rw f (
      has_source-push_found next src x cols
      ∙ ap (λ b. has_source next x || b) (other_source src x c cols f))
]

has_source-pick :
    (cols next : List ProjectionColumn) (columns : List Text) (x : Text)
    → has_source (pick cols next columns) x
      ≡ (has_source next x || (has_text columns x && has_source cols x))
unfolding pick
has_source-pick cols next [] x = ground arith
has_source-pick cols next (src ∷ columns) x =
    has_source-pick cols (push_found next (find (λ c. text_eq c.source src) cols)) columns x
    ∙ ap (λ b. b || (has_text columns x && has_source cols x))
        (has_source-push_found next src x cols)
    ∙ ground arith

-- One round over the columns that the new order leaves out.
kept_round :
    (columns : List Text) (next : List ProjectionColumn) (c : ProjectionColumn) (x : Text)
    → has_source (keep_one columns next c) x
      ≡ (has_source next x || (not (has_text columns x) && text_eq c.source x))
kept_round columns next c x = elim (Bool-cases (text_eq c.source x)) [
  | inl t ↦
      let same = (text_eq_iff c.source x).0 t in
      let names : has_text columns c.source ≡ has_text columns x = ap (has_text columns) same in
      let nexts : has_source next c.source ≡ has_source next x = ap (has_source next) same in
      rw (names, nexts) (by_pushed t)
  | inr f ↦ by_other f
]
  where
    pushed : has_source (next ++ c ∷ []) x ≡ (has_source next x || has_source (c ∷ []) x)
    pushed = any-append (λ d. text_eq d.source x) next (c ∷ [])

    by_pushed :
        text_eq c.source x ≡ true
        → has_source
            (if not (has_text columns x) && not (has_source next x) then next ++ c ∷ [] else next)
            x
          ≡ (has_source next x || (not (has_text columns x) && text_eq c.source x))
    by_pushed t = elim (Bool-cases (not (has_text columns x) && not (has_source next x))) [
      | inl a ↦ rw a (pushed ∙ ground arith)
      | inr b ↦ rw b (ground arith)
    ]

    by_other :
        text_eq c.source x ≡ false
        → has_source (keep_one columns next c) x
          ≡ (has_source next x || (not (has_text columns x) && text_eq c.source x))
    by_other f =
        elim (Bool-cases (not (has_text columns c.source) && not (has_source next c.source))) [
          | inl a ↦ rw a (pushed ∙ ground arith)
          | inr b ↦ rw b (ground arith)
        ]

has_source-keep_rest :
    (columns : List Text) (next cols : List ProjectionColumn) (x : Text)
    → has_source (keep_rest columns next cols) x
      ≡ (has_source next x || (not (has_text columns x) && has_source cols x))
unfolding keep_rest
has_source-keep_rest columns next [] x = ground arith
has_source-keep_rest columns next (c ∷ cols) x =
    has_source-keep_rest columns (keep_one columns next c) cols x
    ∙ ap (λ b. b || (not (has_text columns x) && has_source cols x)) (kept_round columns next c x)
    ∙ ground arith

has_source-reorder_columns :
    (columns : List Text) (cols : List ProjectionColumn) (x : Text)
    → has_source (reorder_columns columns cols) x ≡ has_source cols x
unfolding reorder_columns
has_source-reorder_columns columns cols x =
    has_source-keep_rest columns (pick cols [] columns) cols x
    ∙ ap (λ b. b || (not (has_text columns x) && has_source cols x))
        (has_source-pick cols [] columns x)
    ∙ ground arith

-- Whether some transformation deletes the column.
abbrev pub deletes : Text → Transformation → Bool
deletes x (delete_column columns) = has_text columns x
deletes x (filter column op value) = false
deletes x (sort keys) = false
deletes x (edit edits) = false
deletes x (row_delete keys) = false
deletes x (reorder columns) = false
deletes x (rename column to) = false

fold_step_lem :
    (cols : List ProjectionColumn) (deleted : List Text) (op : Transformation) (x : Text)
    → (has_source (fold_step (cols, deleted) op).0 x ≡ has_source cols x)
      × (has_text (fold_step (cols, deleted) op).1 x ≡ (has_text deleted x || deletes x op))
unfolding fold_step
fold_step_lem cols deleted (delete_column columns) x =
    (refl, any-append (λ d. text_eq d x) deleted columns)
fold_step_lem cols deleted (filter column op value) x = (refl, ground arith)
fold_step_lem cols deleted (sort keys) x = (refl, ground arith)
fold_step_lem cols deleted (edit edits) x = (refl, ground arith)
fold_step_lem cols deleted (row_delete keys) x = (refl, ground arith)
fold_step_lem cols deleted (reorder columns) x =
    (has_source-reorder_columns columns cols x, ground arith)
fold_step_lem cols deleted (rename column to) x =
    (has_source-rename_column column to x cols, ground arith)

fold_ops_lem :
    (cols : List ProjectionColumn) (deleted : List Text) (ops : List Transformation) (x : Text)
    → (has_source (fold_ops (cols, deleted) ops).0 x ≡ has_source cols x)
      × (has_text (fold_ops (cols, deleted) ops).1 x ≡ (has_text deleted x || any (deletes x) ops))
unfolding fold_ops
fold_ops_lem cols deleted [] x = (refl, ground arith)
fold_ops_lem cols deleted (op ∷ ops) x =
    let (cols', deleted') = fold_step (cols, deleted) op in
    let (a, b) = fold_ops_lem cols' deleted' ops x in
    let (c, d) = fold_step_lem cols deleted op x in
    (a ∙ c, b ∙ ap (λ t. t || any (deletes x) ops) d ∙ ground arith)

has_source-without :
    (deleted : List Text) (cols : List ProjectionColumn) (x : Text)
    → has_source (without deleted cols) x ≡ (has_source cols x && not (has_text deleted x))
unfolding without
has_source-without deleted [] x = ground arith
has_source-without deleted (c ∷ cols) x = elim (Bool-cases (text_eq c.source x)) [
  | inl t ↦
      let names : has_text deleted c.source ≡ has_text deleted x =
        ap (has_text deleted) ((text_eq_iff c.source x).0 t) in
      elim (Bool-cases (has_text deleted x)) [
        | inl a ↦ rw (names ∙ a) (has_source-without deleted cols x ∙ ground arith)
        | inr b ↦ rw (names ∙ b) (ground arith)
      ]
  | inr f ↦ elim (Bool-cases (has_text deleted c.source)) [
    | inl a ↦ rw a (has_source-without deleted cols x ∙ ground arith)
    | inr b ↦ rw b (ground (arith, has_source-without deleted cols x))
  ]
]

has_source-projected :
    (base : List Text) (x : Text) → has_source (map projected base) x ≡ has_text base x
has_source-projected [] x = refl
has_source-projected (s ∷ base) x = rw (has_source-projected base x) refl

-- Whatever the renames and the reorders, also one that leaves columns out, names some twice or names
-- unknown ones, the fold shows exactly the base columns that no transformation deletes.
pub has_source-fold_columns :
    (base : List Text) (ops : List Transformation) (x : Text)
    → has_source (fold_columns base ops) x ≡ (has_text base x && not (any (deletes x) ops))
unfolding fold_columns
has_source-fold_columns base ops x =
    let (cols, deleted) = fold_ops (map projected base, []) ops in
    let (a, b) = fold_ops_lem (map projected base) [] ops x in
    has_source-without deleted cols x ∙ rw (a, b, has_source-projected base x) refl
