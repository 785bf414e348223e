-- ===== src/Format/Replay/Loop.antt =====
-- The invariant of the loop over the queue, and where it ends.
use dat.Prelude.{
  ℕ, suc, ◌+◌, ◌≤◌, Bool, true, false, List, [], ◌∷◌, ◌++◌, Text, some, ◌&&◌, not, find, map,
  length, ◌≡◌, refl, sym, ap, ap₂, ◌∙◌, arith, Bool-cases, inl, inr, text_eq, text_eq_iff,
  append_assoc, append-nil,
}
use dat.Format.Model.{RecipeTable}
use dat.Format.Diff.Symmetric.{text_eq_comm}
use dat.Format.Replay.{has_text, has_table, children_of}
use dat.Format.Replay.Counts.{tally, tally-ext, tally-split, has_text-push}
use dat.Format.Replay.Edges.{among, children_of_lem}

pub tally-le {ℓ} :
    {A : Type ℓ} (p q : A → Bool)
    → ((x : A) → p x ≡ true → q x ≡ true)
    → (l : List A) → tally p l ≤ tally q l
tally-le p q h [] = omega arith
tally-le p q h (x ∷ l) = ground (arith, h x, tally-le p q h l)

-- No two tables have the same name.
abbrev pub HasUniqueTables : List RecipeTable → Type 0
HasUniqueTables [] = Unit
HasUniqueTables (t ∷ l) = (has_table l t.name ≡ false) × HasUniqueTables l

-- The tables not seen yet.
abbrev pub unseen : List Text → List RecipeTable → ℕ
unseen seen derived = tally (λ t. not (has_text seen t.name)) derived

-- A name that no table has does not matter.
unseen-other :
    (seen : List Text) (name : Text) (l : List RecipeTable)
    → has_table l name ≡ false
    → unseen (seen ++ name ∷ []) l ≡ unseen seen l
unseen-other seen name [] h = refl
unseen-other seen name (t ∷ l) h =
    let other : text_eq name t.name ≡ false = text_eq_comm name t.name ∙ ground arith in
    ground (arith, has_text-push seen name t.name, unseen-other seen name l (ground arith))

pub unseen-push :
    (seen : List Text) (name : Text) (l : List RecipeTable)
    → HasUniqueTables l
    → has_table l name ≡ true
    → has_text seen name ≡ false
    → suc (unseen (seen ++ name ∷ []) l) ≡ unseen seen l
unseen-push seen name [] u h k = ground arith
unseen-push seen name (t ∷ l) u h k = elim (Bool-cases (text_eq t.name name)) [
  | inl e ↦
      let same : t.name ≡ name = (text_eq_iff t.name name).0 e in
      let alone : has_table l name ≡ false = ap (has_table l) (sym same) ∙ u.0 in
      let fresh : has_text seen t.name ≡ false = ap (has_text seen) same ∙ k in
      let here : text_eq name t.name ≡ true = text_eq_comm name t.name ∙ e in
      ground (arith, has_text-push seen name t.name, unseen-other seen name l alone)
  | inr f ↦
      let other : text_eq name t.name ≡ false = text_eq_comm name t.name ∙ f in
      let rest : has_table l name ≡ true = sym (rw f refl) ∙ h in
      ground (arith, has_text-push seen name t.name, unseen-push seen name l u.1 rest k)
]

pub find-has_table :
    (l : List RecipeTable) (name : Text)
    → has_table l name ≡ true
    → (t : RecipeTable) × (find (λ u. text_eq u.name name) l ≡ some t) × (t.name ≡ name)
find-has_table [] name h = ground arith
find-has_table (t ∷ l) name h = elim (Bool-cases (text_eq t.name name)) [
  | inl e ↦ (t, rw e refl, (text_eq_iff t.name name).0 e)
  | inr f ↦
      let (u, at, is) = find-has_table l name (sym (rw f refl) ∙ h) in (u, sym (rw f refl) ∙ at, is)
]

abbrev pub name_of : RecipeTable → Text
name_of t = t.name

module _ (derived : List RecipeTable) (es : List (Text × Text)) where
  -- The parents of a name that are not seen yet, with their multiplicity.
  abbrev pub pending : List Text → Text → ℕ
  pending seen n = tally (λ e. text_eq n e.1 && not (has_text seen e.0)) es

  -- Each table is one of the derived tables, stands once, and has no pending parent at its place.
  abbrev pub ParentsFirst : List Text → List RecipeTable → Type 0
  ParentsFirst done [] = Unit
  ParentsFirst done (t ∷ ts) =
      (pending done t.name ≡ 0)
      × (has_text done t.name ≡ false)
      × (find (λ u. text_eq u.name t.name) derived ≡ some t)
      × ParentsFirst (done ++ t.name ∷ []) ts

  pub ParentsFirst-push :
      (done : List Text) (ts : List RecipeTable) (t : RecipeTable)
      → ParentsFirst done ts
      → pending (done ++ map name_of ts) t.name ≡ 0
      → has_text (done ++ map name_of ts) t.name ≡ false
      → find (λ u. text_eq u.name t.name) derived ≡ some t
      → ParentsFirst done (ts ++ t ∷ [])
  ParentsFirst-push done [] t h p q r =
      (sym (rw append-nil refl) ∙ p, sym (rw append-nil refl) ∙ q, r, tt)
  ParentsFirst-push done (u ∷ ts) t h p q r = (
    h.0,
    h.1,
    h.2,
    ParentsFirst-push (done ++ u.name ∷ []) ts t h.3 (rw append_assoc p) (rw append_assoc q) r,
  )

  pub record Inv (fresh : ℕ) (indegree : Text → ℕ) (queue seen : List Text)
      (ordered : List RecipeTable) : Type 0 where
    pub degree : (n : Text) → indegree n ≡ pending seen n
    pub none_pending : (n : Text) → has_text queue n ≡ true → pending seen n ≡ 0
    pub queued :
        (n : Text)
        → has_table derived n ≡ true
        → has_text seen n ≡ false
        → pending seen n ≡ 0
        → has_text queue n ≡ true
    pub known : (n : Text) → has_text queue n ≡ true → has_table derived n ≡ true
    pub names : seen ≡ map name_of ordered
    pub first : ParentsFirst [] ordered
    pub count : unseen seen derived + length ordered ≡ length derived
    pub fuel : unseen seen derived ≤ fresh

  pub skip-Inv :
      (fresh : ℕ) (indegree : Text → ℕ) (name : Text) (queue seen : List Text)
      (ordered : List RecipeTable)
      → Inv fresh indegree (name ∷ queue) seen ordered
      → has_text seen name ≡ true
      → Inv fresh indegree queue seen ordered
  skip-Inv fresh indegree name queue seen ordered i h = record {
    degree = i.degree;
    none_pending = λ n k. i.none_pending n (ground arith);
    queued = λ n a b c. not_name n b (i.queued n a b c);
    known = λ n k. i.known n (ground arith);
    names = i.names;
    first = i.first;
    count = i.count;
    fuel = i.fuel;
  }
    where
      not_name :
          (n : Text)
          → has_text seen n ≡ false
          → has_text (name ∷ queue) n ≡ true
          → has_text queue n ≡ true
      not_name n b k = elim (Bool-cases (text_eq name n)) [
        | inl t ↦
            let same : has_text seen name ≡ has_text seen n =
              ap (has_text seen) ((text_eq_iff name n).0 t) in
            ground arith
        | inr f ↦ sym (rw f refl) ∙ k
      ]

  -- A name that is seen for the first time.
  module _ (name : Text) (seen : List Text) (fresh : has_text seen name ≡ false) where
    -- What it was waited for, and what is still pending.
    pub pending-push :
        (n : Text) → pending seen n ≡ among n (children_of es name) + pending (seen ++ name ∷ []) n
    pending-push n =
        tally-split (λ e. text_eq n e.1 && not (has_text seen e.0)) (λ e. text_eq name e.0) es
        ∙ ap₂ (λ a b. a + b)
            (tally-ext _ _ from_name es ∙ sym (children_of_lem (text_eq n) es name))
            (tally-ext _ _ from_other es)
      where
        from_name :
            (e : Text × Text)
            → (text_eq name e.0 && (text_eq n e.1 && not (has_text seen e.0)))
              ≡ (text_eq name e.0 && text_eq n e.1)
        from_name e = elim (Bool-cases (text_eq name e.0)) [
          | inl t ↦
              let unseen_here : has_text seen e.0 ≡ false =
                ap (has_text seen) (sym ((text_eq_iff name e.0).0 t)) ∙ fresh in
              ground arith
          | inr f ↦ ground arith
        ]

        from_other :
            (e : Text × Text)
            → (not (text_eq name e.0) && (text_eq n e.1 && not (has_text seen e.0)))
              ≡ (text_eq n e.1 && not (has_text (seen ++ name ∷ []) e.0))
        from_other e = ground (arith, has_text-push seen name e.0)
