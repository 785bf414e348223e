-- ===== src/Workspace/LockManifest/Holders.antt =====
-- The sessions that have the guard, and what is left of them when one goes.
use dat.Prelude.{
  ℕ, zero, suc, Bool, true, false, if◌then◌else◌, Option, none, some, List, [], ◌∷◌, ◌++◌, ◌≡◌,
  refl, sym, ◌∙◌, ap, inl, inr, Bool-cases,
}
use mathlib.Core.Path.{subst}
use mathlib.Core.Option.{none-ne-some, some-injective}
use dat.Workspace.LockManifest.World.{Session, take_out, past}

-- The session in front of the others, where it has the guard.
abbrev pub hold : Session → List Session → List Session
hold s l = if s.manifest_lock then s ∷ l else l

abbrev pub holders : List Session → List Session
holders [] = []
holders (s ∷ l) = hold s (holders l)

-- No session has the guard, or a single one has.
abbrev pub Sole : (Session → Type 0) → List Session → Type 0
Sole H [] = Unit {0}
Sole H (s ∷ []) = H s
Sole H (s ∷ t ∷ l) = ⊥

if-append :
    (b : Bool) (t : Session) (xs ys : List Session)
    → (if b then t ∷ xs ++ ys else xs ++ ys) ≡ (if b then t ∷ xs else xs) ++ ys
if-append true t xs ys = refl
if-append false t xs ys = refl

hold-append : (t : Session) (xs ys : List Session) → hold t (xs ++ ys) ≡ hold t xs ++ ys
hold-append t = if-append t.manifest_lock t

-- Where a list of sessions comes apart at the one taken out.
abbrev pub Apart : Session → List Session → List Session → Type 0
Apart s l rest =
    (xs : List Session) × (ys : List Session) × (holders l ≡ xs ++ hold s ys)
    × (holders rest ≡ xs ++ ys)

past-Apart :
    (t s : Session) (l rest : List Session) (o : Option (Session × List Session))
    → ((rest' : List Session) → o ≡ some (s, rest') → Apart s l rest')
    → past t o ≡ some (s, rest)
    → Apart s (t ∷ l) rest
past-Apart t s l rest none k e = absurd (none-ne-some (s, rest) e)
past-Apart t s l rest (some (u, rest')) k e =
    let q = some-injective _ _ e in
    let (xs, ys, a, b) = k rest' (ap (λ z. some (z.0, rest')) q) in
    (
      hold t xs,
      ys,
      ap (hold t) a ∙ hold-append t xs (hold s ys),
      ap (λ z. holders z.1) (sym q) ∙ ap (hold t) b ∙ hold-append t xs ys,
    )

pub take_out-Apart :
    (i : ℕ) (l : List Session) (s : Session) (rest : List Session)
    → take_out i l ≡ some (s, rest)
    → Apart s l rest
take_out-Apart zero [] s rest e = absurd (none-ne-some (s, rest) e)
take_out-Apart (suc i) [] s rest e = absurd (none-ne-some (s, rest) e)
take_out-Apart zero (t ∷ l) s rest e =
    let q = some-injective _ _ e in
    ([], holders l, ap (λ z. hold z.0 (holders l)) q, ap (λ z. holders z.1) (sym q))
take_out-Apart (suc i) (t ∷ l) s rest e =
    past-Apart t s l rest (take_out i l) (take_out-Apart i l s) e

-- The one session with the guard is the one taken out.
pub Sole-at :
    (H : Session → Type 0) (xs : List Session) (s : Session) (ys : List Session)
    → Sole H (xs ++ s ∷ ys)
    → (xs ++ ys ≡ []) × H s
Sole-at H [] s [] k = (refl, k)
Sole-at H [] s (y ∷ ys) k = absurd k
Sole-at H (x ∷ []) s ys k = absurd k
Sole-at H (x ∷ x' ∷ xs) s ys k = absurd k

-- Where no session has the guard, the files do not matter.
pub Sole-none : (H : Session → Type 0) (l : List Session) → l ≡ [] → Sole H l
Sole-none H l e = subst (Sole H) (sym e) tt

pub Holds-out :
    (H : Session → Type 0) (s : Session) (l rest : List Session)
    → Sole H (holders l)
    → Apart s l rest
    → s.manifest_lock ≡ true
    → (holders rest ≡ []) × H s
Holds-out H s l rest k (xs, ys, a, b) h =
    let a' = a ∙ ap (λ t. xs ++ (if t then s ∷ ys else ys)) h in
    let (n, held) = Sole-at H xs s ys (subst (Sole H) a' k) in (b ∙ n, held)

pub crash-Sole :
    (H : Session → Type 0) (s : Session) (l rest : List Session)
    → Sole H (holders l)
    → Apart s l rest
    → Sole H (holders rest)
crash-Sole H s l rest k (xs, ys, a, b) = elim (Bool-cases s.manifest_lock) [
  | inl e ↦ Sole-none H (holders rest) (Holds-out H s l rest k (xs, ys, a, b) e).0
  | inr f ↦
      let a' = a ∙ ap (λ t. xs ++ (if t then s ∷ ys else ys)) f in subst (Sole H) (a' ∙ sym b) k
]
