-- ===== src/Prelude/Scan.antt =====
-- A loop over bytes with one byte of lookahead, in which a round may take that byte too
-- (`chars.next()` in a round, or a second `i += 1`).
use dat.Prelude.{ℕ, List, [], ◌∷◌, Bool, true, false, Option, head?}

module _ {ℓ} {S : Type ℓ} where
  -- A round gives the new state, and whether it took the next byte.
  unfoldable pub scan : (S → ℕ → Option ℕ → S × Bool) → Bool → S → List ℕ → S
  scan round taken s [] = s
  scan round true s (c ∷ rest) = scan round false s rest
  scan round false s (c ∷ rest) =
      let (s', taken) = round s c (head? rest) in scan round taken s' rest
