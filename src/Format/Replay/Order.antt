-- ===== src/Format/Replay/Order.antt =====
-- The loop keeps its invariant, and ends with an empty queue.
use dat.Prelude.{
  ltb, ℕ, zero, suc, ◌+◌, ◌≤◌, true, false, List, [], ◌∷◌, ◌++◌, Text, ◌||◌, find, ◌≡◌, refl, sym,
  ap, ap₂, ◌∙◌, arith, Bool-cases, inl, inr, text_eq, text_eq_iff, length-append, map-append,
}
use mathlib.Core.Path.{subst}
use dat.Prelude.Predicates.{All}
use dat.Format.Model.{RecipeTable}
use dat.Format.Replay.{has_text, has_table, children_of, visit_kids, push_table, topo_loop}
use dat.Format.Replay.Counts.{tally-pos, has_text-push, has_text-append, text_eq_refl}
use dat.Format.Replay.Edges.{
  among, Enough, children_of_lem, visit_kids-indegree, visit_kids-zero, visit_kids-pushed,
  among-pushed,
}
use dat.Format.Replay.Loop.{
  HasUniqueTables, unseen-push, find-has_table, name_of, pending, ParentsFirst-push, Inv, skip-Inv,
  pending-push,
}

module _ (derived : List RecipeTable) (es : List (Text × Text)) (unique : HasUniqueTables derived)
    (ends : All (λ e. (has_table derived e.0 ≡ true) × (has_table derived e.1 ≡ true)) es) where
  module _ (fresh : ℕ) (indegree : Text → ℕ) (name : Text) (queue seen : List Text)
      (ordered : List RecipeTable) (i : Inv derived es fresh indegree (name ∷ queue) seen ordered)
      (new : has_text seen name ≡ false) where
    abbrev kids : List Text
    kids = children_of es name

    abbrev seen' : List Text
    seen' = seen ++ name ∷ []

    split : (n : Text) → indegree n ≡ among n kids + pending derived es seen' n
    split n = i.degree n ∙ pending-push derived es name seen new n

    enough : Enough indegree kids
    enough n = omega (arith, split n)

    lowered : (n : Text) → (visit_kids indegree kids).0 n ≡ pending derived es seen' n
    lowered n = omega (arith, split n, visit_kids-indegree indegree kids n enough)

    kid-has_table : (n : Text) → 1 ≤ among n kids → has_table derived n ≡ true
    kid-has_table n k =
        let (e, at, h) =
          tally-pos (λ e. (has_table derived e.0 ≡ true) × (has_table derived e.1 ≡ true)) _ es ends
            (subst (λ m. 1 ≤ m) (children_of_lem (text_eq n) es name) k) in
        let into : text_eq n e.1 ≡ true = ground arith in
        ap (has_table derived) ((text_eq_iff n e.1).0 into) ∙ at.1

    visit-queued :
        (n : Text)
        → has_table derived n ≡ true
        → has_text seen' n ≡ false
        → pending derived es seen' n ≡ 0
        → has_text (queue ++ (visit_kids indegree kids).1) n ≡ true
    visit-queued n a b c =
        has_text-append queue (visit_kids indegree kids).1 n
        ∙ elim (Bool-cases (ltb 0 (among n kids))) [
          | inl t ↦
              let pushed =
                visit_kids-pushed indegree kids n enough (lowered n ∙ c) (ground arith) in
              ground (arith, pushed)
          | inr f ↦
              let old : has_text (name ∷ queue) n ≡ true =
                i.queued n a (ground (arith, has_text-push seen name n))
                  (ground (arith, split n, i.degree n)) in
              ground (arith, has_text-push seen name n)
        ]

    visit-Inv :
        (left : ℕ)
        → fresh ≡ suc left
        → Inv derived es left
            (visit_kids indegree kids).0
            (queue ++ (visit_kids indegree kids).1)
            seen'
            (push_table ordered (find (λ t. text_eq t.name name) derived))
    visit-Inv left e =
        let (t, at, is) = find-has_table derived name (i.known name here) in
        subst
          (λ o.
            Inv derived es left (visit_kids indegree kids).0 (queue ++ (visit_kids indegree kids).1)
              seen' (push_table ordered o))
          (sym at)
          (record {
            degree = lowered;
            none_pending =
                λ n k. waiting n (sym (has_text-append queue (visit_kids indegree kids).1 n) ∙ k);
            queued = visit-queued;
            known = λ n k.
                of_package n (sym (has_text-append queue (visit_kids indegree kids).1 n) ∙ k);
            names =
                ap₂ (λ a b. a ++ b ∷ []) i.names (sym is)
                ∙ sym (map-append name_of ordered (t ∷ []));
            first =
                ParentsFirst-push derived es [] ordered t i.first
                  (ap₂ (pending derived es) (sym i.names) is ∙ i.none_pending name here)
                  (ap₂ has_text (sym i.names) is ∙ new)
                  (ap (λ m. find (λ u. text_eq u.name m) derived) is ∙ at);
            count = omega (
              arith,
              unseen-push seen name derived unique (i.known name here) new,
              i.count,
              length-append ordered (t ∷ []),
            );
            fuel =
                omega (arith, unseen-push seen name derived unique (i.known name here) new, i.fuel);
          })
      where
        here : has_text (name ∷ queue) name ≡ true
        here = rw (text_eq_refl name) refl

        waiting :
            (n : Text)
            → (has_text queue n || has_text (visit_kids indegree kids).1 n) ≡ true
            → pending derived es seen' n ≡ 0
        waiting n k = elim (Bool-cases (has_text queue n)) [
          | inl t ↦ omega (arith, split n, i.degree n, i.none_pending n (ground arith))
          | inr f ↦
              let pushed : has_text (visit_kids indegree kids).1 n ≡ true = ground arith in
              sym (lowered n) ∙ visit_kids-zero indegree kids n enough pushed
        ]

        of_package :
            (n : Text)
            → (has_text queue n || has_text (visit_kids indegree kids).1 n) ≡ true
            → has_table derived n ≡ true
        of_package n k = elim (Bool-cases (has_text queue n)) [
          | inl t ↦ i.known n (ground arith)
          | inr f ↦
              let pushed : has_text (visit_kids indegree kids).1 n ≡ true = ground arith in
              kid-has_table n (among-pushed indegree kids n pushed)
        ]

    fresh-pos : (fresh ≡ 0) → ⊥
    fresh-pos e =
        let here =
          unseen-push seen name derived unique (i.known name (rw (text_eq_refl name) refl)) new in
        omega (arith, here, i.fuel)

  -- The loop ended: the queue is empty.
  abbrev pub Done : List RecipeTable → Type 0
  Done ordered =
      (fresh : ℕ) × (indegree : Text → ℕ) × (seen : List Text) × Inv derived es fresh indegree []
        seen ordered

  pub topo_loop-Done :
      (fresh : ℕ) (indegree : Text → ℕ) (queue seen : List Text) (ordered : List RecipeTable)
      → Inv derived es fresh indegree queue seen ordered
      → Done (topo_loop derived (children_of es) fresh indegree queue seen ordered)
  unfolding topo_loop
  topo_loop-Done fresh indegree [] seen ordered i = (fresh, indegree, seen, i)
  topo_loop-Done zero indegree (name ∷ queue) seen ordered i =
      elim (Bool-cases (has_text seen name)) [
        | inl t ↦
            rw (topo_loop, t)
              (topo_loop-Done zero indegree queue seen ordered
                (skip-Inv derived es zero indegree name queue seen ordered i t))
        | inr f ↦ absurd (fresh-pos zero indegree name queue seen ordered i f refl)
      ]
  topo_loop-Done (suc fresh) indegree (name ∷ queue) seen ordered i =
      elim (Bool-cases (has_text seen name)) [
        | inl t ↦
            rw (topo_loop, t)
              (topo_loop-Done (suc fresh) indegree queue seen ordered
                (skip-Inv derived es (suc fresh) indegree name queue seen ordered i t))
        | inr f ↦
            rw (topo_loop, f)
              (topo_loop-Done fresh (visit_kids indegree (children_of es name)).0
                (queue ++ (visit_kids indegree (children_of es name)).1) (seen ++ name ∷ [])
                (push_table ordered (find (λ t. text_eq t.name name) derived))
                (visit-Inv (suc fresh) indegree name queue seen ordered i f fresh refl))
      ]
