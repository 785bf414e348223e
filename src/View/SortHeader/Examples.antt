-- ===== src/View/SortHeader/Examples.antt =====
-- Tests and instances for the sort zone.
use dat.Prelude.{[], ◌∷◌, codes, ◌≡◌, refl, some, text_eq}
use dat.Engine.Transform.{asc, desc}
use dat.View.SortHeader.{ActiveSort, key, find_key, sort_click, shift_click}

abbrev by_name : ActiveSort
by_name = record { keys = key (codes "name") asc ∷ key (codes "id") desc ∷ [] }

second_rank : find_key by_name (codes "id") ≡ some (2, desc)
unfolding find_key text_eq
second_rank = refl

third_click_removes : (sort_click by_name (codes "id")).keys ≡ []
unfolding sort_click find_key text_eq
third_click_removes = refl

removed : (shift_click by_name (codes "id")).keys ≡ key (codes "name") asc ∷ []
unfolding shift_click text_eq
removed = refl
