-- ===== src/Engine/Render/Success.antt =====
-- When a stack of transformations compiles.
use dat.Prelude.{Bool, true, false, List, [], ◌∷◌, Text, ◌≡◌, refl, arith, if◌then◌else◌, all}
use dat.Prelude.Results.{Result, ok, err, ◌>>=◌}
use dat.Engine.Transform.{
  Transformation, filter, sort, edit, row_delete, reorder, rename, delete_column,
}
use dat.Engine.Render.Literal.{Host}
use dat.Engine.Render.Filter.{RenderError, is_supported, is_ok, is_ok-render_filter}
use dat.Engine.Render.Compile.{Clauses, no_clauses, add_clause, add_clauses, compile_view_sql}

-- What a caller must check of a transformation before it may be compiled.
unfoldable pub is_renderable : Host → Transformation → Bool
is_renderable h (filter column op value) = is_supported h op value
is_renderable h (edit []) = false
is_renderable h (row_delete []) = false
is_renderable h (edit (_ ∷ _)) = true
is_renderable h (row_delete (_ ∷ _)) = true
is_renderable h (sort _) = true
is_renderable h (reorder _) = true
is_renderable h (rename _ _) = true
is_renderable h (delete_column _) = true

is_ok-add_clause :
    (h : Host) (s : Clauses) (op : Transformation) → is_ok (add_clause h s op) ≡ is_renderable h op
unfolding add_clause is_renderable
is_ok-add_clause h s (filter column op value) =
    ground (arith, is_ok-render_filter h column op value)
is_ok-add_clause h s (edit []) = refl
is_ok-add_clause h s (edit (_ ∷ _)) = refl
is_ok-add_clause h s (row_delete []) = refl
is_ok-add_clause h s (row_delete (_ ∷ _)) = refl
is_ok-add_clause h s _ = refl

is_ok-bind :
    (r : Result RenderError Clauses) (f : Clauses → Result RenderError Clauses) (b c : Bool)
    → is_ok r ≡ b
    → ((s : Clauses) → is_ok (f s) ≡ c)
    → is_ok (r >>= f) ≡ (if b then c else false)
is_ok-bind (ok s) f b c p q = rw (← p) (q s)
is_ok-bind (err e) f b c p q = rw (← p)

is_ok-add_clauses :
    (h : Host) (ops : List Transformation) (s : Clauses)
    → is_ok (add_clauses h s ops) ≡ all (is_renderable h) ops
unfolding add_clauses
is_ok-add_clauses h [] s = refl
is_ok-add_clauses h (op ∷ ops) s =
    is_ok-bind (add_clause h s op) (λ s'. add_clauses h s' ops) (is_renderable h op)
      (all (is_renderable h) ops) (is_ok-add_clause h s op) (is_ok-add_clauses h ops)

-- A stack compiles exactly when each of its transformations is renderable, whatever their order
-- and whatever the base table.
pub is_ok-compile_view_sql :
    (h : Host) (base : Text) (ops : List Transformation)
    → is_ok (compile_view_sql h base ops) ≡ all (is_renderable h) ops
unfolding compile_view_sql
is_ok-compile_view_sql h base ops = ground (arith, is_ok-add_clauses h ops no_clauses)
