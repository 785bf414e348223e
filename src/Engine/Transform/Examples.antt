-- ===== src/Engine/Transform/Examples.antt =====
-- Tests and instances for the transformations.
use dat.Prelude.{ℕ, false, arith, List, [], ◌∷◌, ◌≡◌, ◌↔◌, ◌≤◌, refl, true, codes, pos, length}
use dat.Engine.Transform.{
  Transformation, sort, edit, row_delete, rename, surrogate, null, split_replayable, has_dropped,
}
use dat.Engine.Transform.Dates.{
  validate_date, validate_timestamp, valid, panic, continuation_at, has_separator, is_time,
}
use dat.Engine.Transform.Boundary.{encode, begins_at, fits, template, validate_timestamp_panics}

abbrev stack : List Transformation
stack =
    rename (codes "a") (codes "b")
    ∷ edit (record { row = surrogate (pos 1); column = codes "a"; value = null } ∷ [])
    ∷ row_delete (surrogate (pos 7) ∷ [])
    ∷ sort []
    ∷ []

split_replayable_drops : has_dropped (split_replayable stack) ≡ true
unfolding split_replayable
split_replayable_drops = refl

-- "2026-01-0é 12:30:00", where é takes two bytes.
abbrev split_character : List ℕ
split_character = codes "2026-01-0é 12:30:00"

validate_timestamp_panics_example :
    ((validate_timestamp (encode split_character) ≡ panic)
      ↔ ((19 ≤ length (encode split_character)) × (begins_at 10 split_character ≡ false)))
    × ((validate_timestamp (encode split_character) ≡ valid)
        ↔ (fits template (encode split_character) ≡ true))
validate_timestamp_panics_example = validate_timestamp_panics split_character (ground arith)

panics_on_split_character : validate_timestamp (encode split_character) ≡ panic
unfolding validate_timestamp continuation_at
panics_on_split_character = refl

accepts_timestamp : validate_timestamp (codes "2026-05-30 12:30:00") ≡ valid
unfolding validate_timestamp continuation_at validate_date has_separator is_time
accepts_timestamp = refl
