-- ===== src/Format/Replay/Arranged.antt =====
-- What any order of a map's entries keeps.
use dat.Prelude.{suc, false, List, [], ◌∷◌, Text, length, ◌≡◌, refl, ap, ◌∙◌, arith, text_eq}
use dat.Prelude.Predicates.{All}
use dat.Format.Model.{RecipeTable}
use dat.Format.Diff.Symmetric.{text_eq_comm}
use dat.Format.Replay.{has_table}
use dat.Format.Replay.Loop.{HasUniqueTables}

-- The same entries in another order.
pub data Rearranged {ℓ} {A : Type ℓ} : List A → List A → Type ℓ where
  empty : Rearranged [] []
  keep : {x : A} {l r : List A} → Rearranged l r → Rearranged (x ∷ l) (x ∷ r)
  swap : {x y : A} {l : List A} → Rearranged (x ∷ y ∷ l) (y ∷ x ∷ l)
  chain : {l m r : List A} → Rearranged l m → Rearranged m r → Rearranged l r

pub length-Rearranged {ℓ} : {A : Type ℓ} {l r : List A} → Rearranged l r → length l ≡ length r
length-Rearranged empty = refl
length-Rearranged (keep p) = ap suc (length-Rearranged p)
length-Rearranged swap = refl
length-Rearranged (chain p q) = length-Rearranged p ∙ length-Rearranged q

pub All-Rearranged {ℓ κ} :
    {A : Type ℓ} (P : A → Type κ) {l r : List A} → Rearranged l r → All P r → All P l
All-Rearranged P empty h = tt
All-Rearranged P (keep p) h = (h.0, All-Rearranged P p h.1)
All-Rearranged P swap h = (h.1.0, (h.0, h.1.1))
All-Rearranged P (chain p q) h = All-Rearranged P p (All-Rearranged P q h)

pub has_table-Rearranged :
    {l r : List RecipeTable} (n : Text) → Rearranged l r → has_table l n ≡ has_table r n
has_table-Rearranged n empty = refl
has_table-Rearranged n (keep p) = rw (has_table-Rearranged n p) refl
has_table-Rearranged n swap = ground arith
has_table-Rearranged n (chain p q) = has_table-Rearranged n p ∙ has_table-Rearranged n q

pub HasUniqueTables-Rearranged :
    {l r : List RecipeTable} → Rearranged l r → HasUniqueTables r → HasUniqueTables l
HasUniqueTables-Rearranged empty u = tt
HasUniqueTables-Rearranged (keep {x = x} p) u =
    (has_table-Rearranged x.name p ∙ u.0, HasUniqueTables-Rearranged p u.1)
HasUniqueTables-Rearranged (swap {x = x} {y = y}) u =
    let other : text_eq y.name x.name ≡ false = text_eq_comm y.name x.name ∙ ground arith in
    (ground arith, (ground arith, u.1.1))
HasUniqueTables-Rearranged (chain p q) u =
    HasUniqueTables-Rearranged p (HasUniqueTables-Rearranged q u)
