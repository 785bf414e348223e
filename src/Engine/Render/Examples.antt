-- ===== src/Engine/Render/Examples.antt =====
-- Tests and instances for the renderer.
use dat.Prelude.{List, [], ◌∷◌, ◌++◌, ◌≡◌, refl, Text, codes, pos, none, some, all, text_eq}
use dat.Prelude.Results.{ok}
use dat.Prelude.Decimal.{decimal, decimal_ℤ}
use dat.Engine.Transform.{
  Transformation, filter, sort, edit, row_delete, rename, surrogate, null, int, str, desc, eq,
  scalar, SortKey, CellEdit,
}
use dat.Engine.Transform.Replay.{retain}
use dat.Engine.Render.Literal.{Host, double, quote_ident, render_scalar, escape_single_quote}
use dat.Engine.Render.Filter.{is_ok, render_filter, render_sort}
use dat.Engine.Render.Quoting.{read_ident, read_string, quote_round_trip}
use dat.Engine.Render.Overlay.{
  cell_value, upsert_all, upsert, upsert_column, render_replace, last_write, cell_value-upsert_all,
}
use dat.Engine.Render.Compile.{compile_view_sql, add_clauses, add_clause, assemble}
use dat.Engine.Render.Success.{is_renderable, is_ok-compile_view_sql}
use dat.Engine.Render.Order.{is_data, compile_view_sql-data, compile_view_sql-sort}

abbrev pub host : Host
host = record { debug_f64 = λ _. codes "0.5"; regex_error = λ _. none }

abbrev name : Text
name = codes "it's \"x\""

quote_round_trip_example :
    (quote_ident name ++ codes " IS" ≡ b'"' ∷ (double b'"' name ++ b'"' ∷ codes " IS"))
    × (read_ident (double b'"' name ++ b'"' ∷ codes " IS") ≡ some (name, codes " IS"))
    × ((body : Text) × (render_scalar host (str name) ++ codes " IS" ≡ b'\'' ∷ body)
        × (read_string body ≡ some (name, codes " IS")))
quote_round_trip_example = quote_round_trip host name (codes " IS") (λ e. cc) (λ e. cc)

abbrev set_a : CellEdit
set_a = record { row = surrogate (pos 4); column = codes "a"; value = int (pos 5) }

abbrev set_b : CellEdit
set_b = record { row = surrogate (pos 4); column = codes "b"; value = str (codes "o'k") }

abbrev by_a : SortKey
by_a = record { column = codes "a"; direction = desc }

abbrev stack : List Transformation
stack =
    filter (codes "a") eq (scalar null)
    ∷ sort (by_a ∷ [])
    ∷ edit (set_a ∷ set_b ∷ [])
    ∷ rename (codes "a") (codes "z")
    ∷ row_delete (surrogate (pos 9) ∷ [])
    ∷ []

cell_value-upsert_all_example :
    cell_value (upsert_all host [] (set_a ∷ set_b ∷ set_a ∷ [])) (codes "a") (pos 4)
    ≡ last_write host
        (set_a ∷ set_b ∷ set_a ∷ [])
        (codes "a")
        (pos 4)
        (cell_value [] (codes "a") (pos 4))
cell_value-upsert_all_example =
    cell_value-upsert_all host [] (set_a ∷ set_b ∷ set_a ∷ []) (codes "a") (pos 4)

is_ok-compile_view_sql_example :
    is_ok (compile_view_sql host (codes "t") stack) ≡ all (is_renderable host) stack
is_ok-compile_view_sql_example = is_ok-compile_view_sql host (codes "t") stack

compile_view_sql-data_example :
    compile_view_sql host (codes "t") stack
    ≡ compile_view_sql host (codes "t") (retain is_data stack)
compile_view_sql-data_example = compile_view_sql-data host (codes "t") stack

compile_view_sql-sort_example :
    compile_view_sql host (codes "t") (stack ++ sort [] ∷ stack)
    ≡ compile_view_sql host (codes "t") (stack ++ stack)
compile_view_sql-sort_example = compile_view_sql-sort host (codes "t") stack [] stack refl

compile_overlay :
    compile_view_sql host (codes "t") stack
    ≡ ok (
        codes
          "SELECT * FROM (SELECT * REPLACE (CASE WHEN __dat0_rowid = 4 THEN 5 ELSE \"a\" END AS \"a\", CASE WHEN __dat0_rowid = 4 THEN 'o''k' ELSE \"b\" END AS \"b\") FROM t WHERE __dat0_rowid NOT IN (9)) WHERE (\"a\" IS NULL) ORDER BY \"a\" DESC")
unfolding compile_view_sql add_clauses add_clause render_filter quote_ident double upsert_all upsert
    upsert_column render_scalar escape_single_quote assemble render_sort text_eq decimal_ℤ decimal
    render_replace
compile_overlay = refl
