-- ===== src/View/SortHeader/Cycle.antt =====
-- The cycle of clicks, and what it leaves alone.
use dat.Prelude.{
  ℕ, suc, List, [], ◌∷◌, Text, Option, some, none, true, false, text_eq, text_eq_iff, position,
  behind, get_elem?, any, if◌then◌else◌, ◌≡◌, refl, ap, ◌∙◌, arith, Bool-cases, inl, inr,
}
use dat.Engine.Transform.{SortKey, SortDirection, asc, desc}
use dat.View.SortHeader.{ActiveSort, is_on, key, shift_at, turn, turn_to, shift_click}

-- The keys of the other columns, in order.
abbrev pub others : Text → List SortKey → List SortKey
others column [] = []
others column (k ∷ keys) = if is_on column k then others column keys else k ∷ others column keys

-- A key on the column, one click further.
abbrev turned : SortKey → SortDirection → List SortKey → List SortKey
turned k asc keys = record k { direction = desc } ∷ keys
turned k desc keys = keys

cycled : Text → List SortKey → List SortKey
cycled column [] = key column asc ∷ []
cycled column (k ∷ keys) =
    let rest = cycled column keys in if is_on column k then turned k k.direction keys else k ∷ rest

turn_to-first :
    (k : SortKey) (keys : List SortKey) (d : SortDirection)
    → turn_to (k ∷ keys) 0 k d ≡ turned k d keys
turn_to-first k keys asc = refl
turn_to-first k keys desc = refl

turn-behind :
    (k : SortKey) (keys : List SortKey) (i : ℕ) (o : Option SortKey)
    → turn (k ∷ keys) (suc i) o ≡ k ∷ turn keys i o
turn-behind k keys i none = refl
turn-behind k keys i (some j) = by_direction j.direction
  where
    by_direction : (d : SortDirection) → turn_to (k ∷ keys) (suc i) j d ≡ k ∷ turn_to keys i j d
    by_direction asc = refl
    by_direction desc = refl

shift_at-behind :
    (column : Text) (k : SortKey) (keys : List SortKey) (o : Option ℕ)
    → shift_at (k ∷ keys) column (behind o) ≡ k ∷ shift_at keys column o
shift_at-behind column k keys none = refl
shift_at-behind column k keys (some i) = turn-behind k keys i (get_elem? keys i)

shift_at-cycled :
    (column : Text) (keys : List SortKey)
    → shift_at keys column (position (is_on column) keys) ≡ cycled column keys
unfolding cycled
shift_at-cycled column [] = refl
shift_at-cycled column (k ∷ keys) = elim (Bool-cases (is_on column k)) [
  | inl t ↦ rw t (turn_to-first k keys k.direction)
  | inr f ↦ rw f (shift_at-behind column k keys _ ∙ ap (λ l. k ∷ l) (shift_at-cycled column keys))
]

shift_click-cycled :
    (s : ActiveSort) (column : Text) → (shift_click s column).keys ≡ cycled column s.keys
unfolding shift_click
shift_click-cycled s column = shift_at-cycled column s.keys

others-cycled :
    (column : Text) (keys : List SortKey) → others column (cycled column keys) ≡ others column keys
unfolding cycled
others-cycled column [] = rw ((text_eq_iff column column).1 refl) refl
others-cycled column (k ∷ keys) = elim (Bool-cases (is_on column k)) [
  | inl t ↦ rw t (by_direction k.direction t)
  | inr f ↦ rw f (rw f (ap (λ l. k ∷ l) (others-cycled column keys)))
]
  where
    by_direction :
        (d : SortDirection)
        → is_on column k ≡ true
        → others column (turned k d keys) ≡ others column keys
    by_direction asc t = rw t refl
    by_direction desc t = refl

cycle_three :
    (column : Text) (keys : List SortKey)
    → any (is_on column) keys ≡ false
    → cycled column (cycled column (cycled column keys)) ≡ keys
unfolding cycled
cycle_three column [] h =
    let on : text_eq column column ≡ true = (text_eq_iff column column).1 refl in rw on (rw on refl)
cycle_three column (k ∷ keys) h =
    let off : is_on column k ≡ false = ground arith in
    let rest : any (is_on column) keys ≡ false = ground arith in
    rw off (rw off (rw off (ap (λ l. k ∷ l) (cycle_three column keys rest))))

-- A shift click never moves, turns or loses the key of another column.
pub others-shift_click :
    (s : ActiveSort) (column : Text)
    → others column (shift_click s column).keys ≡ others column s.keys
others-shift_click s column =
    ap (others column) (shift_click-cycled s column) ∙ others-cycled column s.keys

-- On a column without a key, three shift clicks give back the keys from before.
pub shift_click_three :
    (s : ActiveSort) (column : Text)
    → any (is_on column) s.keys ≡ false
    → (shift_click (shift_click (shift_click s column) column) column).keys ≡ s.keys
shift_click_three s column h =
    shift_click-cycled (shift_click (shift_click s column) column) column
    ∙ ap (cycled column) (shift_click-cycled (shift_click s column) column)
    ∙ ap (λ l. cycled column (cycled column l)) (shift_click-cycled s column)
    ∙ cycle_three column s.keys h
