-- ===== src/Engine/Transform/Replay.antt =====
-- What `split_replayable` keeps and drops.
use dat.Prelude.{
  ◌+◌, ◌≡◌, Bool, true, false, List, [], ◌∷◌, ◌++◌, arith, length, if◌then◌else◌, append-nil,
  append_assoc,
}
use dat.Engine.Transform.{
  Transformation, filter, edit, row_delete, ReplaySplit, split_step, split_loop, split_replayable,
}

-- The transformations that name rows by the surrogate column.
abbrev pub is_edit : Transformation → Bool
is_edit (edit _) = true
is_edit _ = false

abbrev pub is_row_delete : Transformation → Bool
is_row_delete (row_delete _) = true
is_row_delete _ = false

abbrev pub is_rowid_keyed : Transformation → Bool
is_rowid_keyed op = if is_edit op then true else is_row_delete op

abbrev pub retain : (Transformation → Bool) → List Transformation → List Transformation
retain p [] = []
retain p (op ∷ ops) = if p op then op ∷ retain p ops else retain p ops

abbrev pub column_keyed : Transformation → Bool
column_keyed op = if is_rowid_keyed op then false else true

split_loop_lem :
    (s : ReplaySplit) (ops : List Transformation)
    → ((split_loop s ops).replayable ≡ s.replayable ++ retain column_keyed ops)
      × ((split_loop s ops).dropped_edits ≡ s.dropped_edits + length (retain is_edit ops))
      × ((split_loop s ops).dropped_deletes ≡ s.dropped_deletes + length (retain is_row_delete ops))
split_loop_lem s [] = (rw append-nil, omega arith, omega arith)
split_loop_lem s (edit c ∷ ops) =
    let (a, b, c) = split_loop_lem (split_step s (edit c)) ops in (a, omega arith, c)
split_loop_lem s (row_delete c ∷ ops) =
    let (a, b, c) = split_loop_lem (split_step s (row_delete c)) ops in (a, b, omega arith)
split_loop_lem s (filter c o v ∷ ops) =
    let (a, b, c) = split_loop_lem (split_step s (filter c o v)) ops in (rw append_assoc at a, b, c)
split_loop_lem s (op ∷ ops) =
    let (a, b, c) = split_loop_lem (split_step s op) ops in (rw append_assoc at a, b, c)

-- `split_replayable` keeps, in their order, exactly the transformations that are neither an edit
-- nor a row delete, and counts those two apart.
pub split_replayable-eq-retain :
    (ops : List Transformation)
    → ((split_replayable ops).replayable ≡ retain column_keyed ops)
      × ((split_replayable ops).dropped_edits ≡ length (retain is_edit ops))
      × ((split_replayable ops).dropped_deletes ≡ length (retain is_row_delete ops))
unfolding split_replayable
split_replayable-eq-retain ops =
    let (a, b, c) =
      split_loop_lem (record { replayable = []; dropped_edits = 0; dropped_deletes = 0 }) ops in
    (a, omega arith, omega arith)
