-- ===== src/Engine/Render/Order.antt =====
-- What of a stack the SQL does not depend on.
use dat.Prelude.{
  Bool, true, false, List, [], ◌∷◌, Text, ◌≡◌, refl, if◌then◌else◌, inl, inr, ◌++◌, any, Option,
  some, ◌∙◌, sym, ◌⊎◌,
}
use dat.Prelude.Results.{Result, ok, err, ◌>>=◌}
use dat.Engine.Transform.{
  Transformation, filter, sort, edit, row_delete, reorder, rename, delete_column, SortKey,
}
use dat.Engine.Transform.Replay.{retain, is_rowid_keyed}
use dat.Engine.Render.Literal.{Host}
use dat.Engine.Render.Filter.{RenderError, render_filter}
use dat.Engine.Render.Compile.{Clauses, no_clauses, add_clause, add_clauses, compile_view_sql}

result_cases :
    (r : Result RenderError Text) → ((t : Text) × (r ≡ ok t)) ⊎ ((e : RenderError) × (r ≡ err e))
result_cases (ok t) = inl (t, refl)
result_cases (err e) = inr (e, refl)

-- The transformations that change what is shown and not the data.
abbrev pub is_projection : Transformation → Bool
is_projection (reorder _) = true
is_projection (rename _ _) = true
is_projection (delete_column _) = true
is_projection _ = false

abbrev pub is_sort : Transformation → Bool
is_sort (sort _) = true
is_sort _ = false

abbrev pub is_data : Transformation → Bool
is_data op = if is_projection op then false else true

bind_congr :
    (r : Result RenderError Clauses) (f g : Clauses → Result RenderError Clauses)
    → ((s : Clauses) → f s ≡ g s)
    → (r >>= f) ≡ (r >>= g)
bind_congr (ok s) f g e = e s
bind_congr (err x) f g e = refl

add_clauses-data :
    (h : Host) (ops : List Transformation) (s : Clauses)
    → add_clauses h s ops ≡ add_clauses h s (retain is_data ops)
unfolding add_clauses add_clause
add_clauses-data h [] s = refl
add_clauses-data h (reorder _ ∷ ops) s = add_clauses-data h ops s
add_clauses-data h (rename _ _ ∷ ops) s = add_clauses-data h ops s
add_clauses-data h (delete_column _ ∷ ops) s = add_clauses-data h ops s
add_clauses-data h (filter c o v ∷ ops) s =
    bind_congr (add_clause h s (filter c o v)) (λ s'. add_clauses h s' ops)
      (λ s'. add_clauses h s' (retain is_data ops)) (add_clauses-data h ops)
add_clauses-data h (op ∷ ops) s =
    bind_congr (add_clause h s op) (λ s'. add_clauses h s' ops)
      (λ s'. add_clauses h s' (retain is_data ops)) (add_clauses-data h ops)

-- Column reordering, renaming and hiding never change the SQL of the view: with all of them taken
-- out of the stack, it compiles to the same SQL, or to the same error.
pub compile_view_sql-data :
    (h : Host) (base : Text) (ops : List Transformation)
    → compile_view_sql h base ops ≡ compile_view_sql h base (retain is_data ops)
unfolding compile_view_sql
compile_view_sql-data h base ops = rw (add_clauses-data h ops no_clauses)

bind_bind :
    (r : Result RenderError Clauses) (f g : Clauses → Result RenderError Clauses)
    → ((r >>= f) >>= g) ≡ (r >>= λ s. f s >>= g)
bind_bind (ok s) f g = refl
bind_bind (err x) f g = refl

add_clauses-append :
    (h : Host) (xs ys : List Transformation) (s : Clauses)
    → add_clauses h s (xs ++ ys) ≡ (add_clauses h s xs >>= λ s'. add_clauses h s' ys)
unfolding add_clauses
add_clauses-append h [] ys s = refl
add_clauses-append h (op ∷ xs) ys s =
    bind_congr (add_clause h s op) (λ s'. add_clauses h s' (xs ++ ys))
      (λ s'. add_clauses h s' xs >>= λ s'. add_clauses h s' ys) (add_clauses-append h xs ys)
    ∙ sym (bind_bind (add_clause h s op) (λ s'. add_clauses h s' xs) (λ s'. add_clauses h s' ys))

-- A sort further on overrides the one that the loop has met.
add_clauses-sort :
    (h : Host) (ys : List Transformation) (s : Clauses) (keys : Option (List SortKey))
    → any is_sort ys ≡ true
    → add_clauses h (record s { sort = keys }) ys ≡ add_clauses h s ys
unfolding add_clauses add_clause
add_clauses-sort h [] s keys e = cc
add_clauses-sort h (sort k ∷ ys) s keys e = refl
add_clauses-sort h (filter c o v ∷ ys) s keys e = elim (result_cases (render_filter h c o v)) [
  | inl (sql, p) ↦ rw p (add_clauses-sort h ys _ keys e)
  | inr (x, p) ↦ rw p
]
add_clauses-sort h (edit [] ∷ ys) s keys e = refl
add_clauses-sort h (edit (c ∷ cells) ∷ ys) s keys e = add_clauses-sort h ys _ keys e
add_clauses-sort h (row_delete [] ∷ ys) s keys e = refl
add_clauses-sort h (row_delete (r ∷ rows) ∷ ys) s keys e = add_clauses-sort h ys _ keys e
add_clauses-sort h (reorder _ ∷ ys) s keys e = add_clauses-sort h ys s keys e
add_clauses-sort h (rename _ _ ∷ ys) s keys e = add_clauses-sort h ys s keys e
add_clauses-sort h (delete_column _ ∷ ys) s keys e = add_clauses-sort h ys s keys e

-- Only the last sort of a stack counts: one that has another behind it can be taken out, and the
-- stack compiles to the same SQL, or to the same error.
pub compile_view_sql-sort :
    (h : Host) (base : Text) (xs : List Transformation) (keys : List SortKey)
    (ys : List Transformation)
    → any is_sort ys ≡ true
    → compile_view_sql h base (xs ++ sort keys ∷ ys) ≡ compile_view_sql h base (xs ++ ys)
unfolding compile_view_sql
compile_view_sql-sort h base xs keys ys e =
    rw (add_clauses-append h xs (sort keys ∷ ys) no_clauses, add_clauses-append h xs ys no_clauses)
      (rw (
        bind_congr (add_clauses h no_clauses xs) (λ s. add_clauses h s (sort keys ∷ ys))
          (λ s. add_clauses h s ys)
          (λ s. unfold add_clauses add_clause in add_clauses-sort h ys s (some keys) e)))

abbrev pub column_keyed : Transformation → Bool
column_keyed op = if is_rowid_keyed op then false else true

abbrev NoOverlay : Result RenderError Clauses → Type 0
NoOverlay (ok s) = (s.edits ≡ []) × (s.delete_ids ≡ [])
NoOverlay (err _) = Unit

add_clauses-NoOverlay :
    (h : Host) (ops : List Transformation) (s : Clauses)
    → NoOverlay (ok s)
    → NoOverlay (add_clauses h s (retain column_keyed ops))
unfolding add_clauses add_clause
add_clauses-NoOverlay h [] s n = n
add_clauses-NoOverlay h (edit _ ∷ ops) s n = add_clauses-NoOverlay h ops s n
add_clauses-NoOverlay h (row_delete _ ∷ ops) s n = add_clauses-NoOverlay h ops s n
add_clauses-NoOverlay h (sort _ ∷ ops) s n = add_clauses-NoOverlay h ops _ n
add_clauses-NoOverlay h (filter c o v ∷ ops) s n = elim (result_cases (render_filter h c o v)) [
  | inl (sql, p) ↦ rw p (add_clauses-NoOverlay h ops _ n)
  | inr (x, p) ↦ rw p tt
]
add_clauses-NoOverlay h (reorder _ ∷ ops) s n = add_clauses-NoOverlay h ops s n
add_clauses-NoOverlay h (rename _ _ ∷ ops) s n = add_clauses-NoOverlay h ops s n
add_clauses-NoOverlay h (delete_column _ ∷ ops) s n = add_clauses-NoOverlay h ops s n
