-- ===== src/Format/Diff/Items.antt =====
-- An empty diff, said of the items of the packages.
use dat.Prelude.{
  Bool, true, false, if◌then◌else◌, List, [], ◌∷◌, Text, Option, some, all, ◌≡◌, sym, ◌∙◌, ap,
  arith, text_eq, text_eq_iff, Bool-cases, inl, inr,
}
use mathlib.Core.Path.{subst}
use dat.Prelude.Predicates.{All, In}
use dat.Format.Model.{Derivation, RecipeTable}
use dat.Format.Diff.Maps.{HasUniqueNames, has_name, lookup, matches, maps_agree}
use dat.Format.Diff.Empty.{
  column_name, table_name, query_name, chart_name, column_ok, query_ok, chart_ok, table_ok,
  compute-empty,
}
use dat.Format.Diff.Equivalence.{Package, HasNames, SameColumn, SameQuery, SameChart, diff_is_empty}

all-In : {A : Type 0} (p : A → Bool) (l : List A) (x : A) → all p l ≡ true → In x l → p x ≡ true
all-In p [] x h i = absurd i
all-In p (y ∷ l) x h (inl e) = let first : p y ≡ true = ground arith in ap p e ∙ first
all-In p (y ∷ l) x h (inr i) = all-In p l x (ground arith) i

All-In : {A : Type 0} (P : A → Type 0) (l : List A) (x : A) → All P l → In x l → P x
All-In P [] x h i = absurd i
All-In P (y ∷ l) x h (inl e) = subst P (sym e) h.0
All-In P (y ∷ l) x h (inr i) = All-In P l x h.1 i

module _ {A : Type 0} (name : A → Text) where
  -- Items of the same name are related, whichever of the two lists' items they are, and each item's
  -- name stands in the other list.
  pub record SameItems (R : A → A → Type 0) (a b : List A) : Type 0 where
    pub related : (x y : A) → In x a → In y b → name x ≡ name y → R x y
    pub kept : (x : A) → In x a → has_name name b (name x) ≡ true
    pub known : (y : A) → In y b → has_name name a (name y) ≡ true

  has_name-In : (l : List A) (x : A) → In x l → has_name name l (name x) ≡ true
  has_name-In [] x i = absurd i
  has_name-In (y ∷ l) x (inl e) =
      let same : text_eq (name y) (name x) ≡ true =
        (text_eq_iff (name y) (name x)).1 (ap name (sym e)) in
      ground arith
  has_name-In (y ∷ l) x (inr i) = let rest = has_name-In l x i in ground arith

  -- In a list without two items of one name, its name finds each item.
  lookup-In :
      (l : List A) (y : A) → HasUniqueNames name l → In y l → lookup name l (name y) ≡ some y
  lookup-In [] y u i = absurd i
  lookup-In (z ∷ l) y u (inl e) =
      let same : text_eq (name z) (name y) ≡ true =
        (text_eq_iff (name z) (name y)).1 (ap name (sym e)) in
      rw same (ap some (sym e))
  lookup-In (z ∷ l) y u (inr i) = elim (Bool-cases (text_eq (name z) (name y))) [
    | inl t ↦
        let same : name z ≡ name y = (text_eq_iff (name z) (name y)).0 t in
        let absent : has_name name l (name y) ≡ false =
          subst (λ n. has_name name l n ≡ false) same u.0 in
        let here = has_name-In l y i in ground arith
    | inr f ↦ rw f (lookup-In l y u.1 i)
  ]

  present :
      (ok : A → A → Bool) (x : A) (l : List A)
      → matches ok x (lookup name l (name x)) ≡ true
      → has_name name l (name x) ≡ true
  present ok x [] h = ground arith
  present ok x (y ∷ l) h = elim (Bool-cases (text_eq (name y) (name x))) [
    | inl t ↦ ground arith
    | inr f ↦
        let rest =
          present ok x l
            (subst (λ b. matches ok x (if b then some y else lookup name l (name x)) ≡ true) f h) in
        ground arith
  ]

  SameItems-maps_agree :
      (ok : A → A → Bool) (R : A → A → Type 0) (a b : List A)
      → HasUniqueNames name b
      → ((x y : A) → In y b → ok x y ≡ true → R x y)
      → maps_agree name ok a b ≡ true
      → SameItems R a b
  SameItems-maps_agree ok R a b u r h =
      let round : all (λ x. matches ok x (lookup name b (name x))) a ≡ true = ground arith in
      let names : all (λ y. has_name name a (name y)) b ≡ true = ground arith in
      record {
        related = λ x y i j e.
            let found = ap (lookup name b) e ∙ lookup-In b y u j in
            r x y j (
              ap (matches ok x) (sym found)
              ∙ all-In (λ z. matches ok z (lookup name b (name z))) a x round i);
        kept =
            λ x i. present ok x b (all-In (λ z. matches ok z (lookup name b (name z))) a x round i);
        known = λ y j. all-In (λ z. has_name name a (name z)) b y names j;
      }

module _ (same_derivation : Option Derivation → Option Derivation → Bool) where
  abbrev pub SameTableItems : RecipeTable → RecipeTable → Type 0
  SameTableItems ta tb =
      (same_derivation ta.derivation tb.derivation ≡ true)
      × SameItems column_name SameColumn ta.schema tb.schema
      × (ta.row_count ≡ tb.row_count)

  -- The tables, the queries and the charts of two packages, item by item.
  pub record SameContents (a b : Package) : Type 0 where
    pub tables : SameItems table_name SameTableItems a.recipe.tables b.recipe.tables
    pub queries : SameItems query_name SameQuery a.queries.queries b.queries.queries
    pub charts : SameItems chart_name SameChart a.charts.charts b.charts.charts

  table_ok-SameTableItems :
      (ta tb : RecipeTable)
      → HasUniqueNames column_name tb.schema
      → table_ok same_derivation ta tb ≡ true
      → SameTableItems ta tb
  table_ok-SameTableItems ta tb u h =
      let columns : maps_agree column_name column_ok ta.schema tb.schema ≡ true = ground arith in
      (
        ground arith,
        SameItems-maps_agree column_name column_ok SameColumn ta.schema tb.schema u
            (λ x y j e. (text_eq_iff y.type x.type).0 e) columns,
        ground arith,
      )

  -- Where the diff of two packages is empty and the second has no two tables, columns of a table,
  -- queries or charts of one name: every table, query and chart of either package has one of its
  -- name in the other; any two tables of one name have equal derivations, as many rows, and columns
  -- of the same names with the same types; any two queries of one name have the same SQL, and any
  -- two charts of one name equal specifications.
  pub SameContents-compute :
      (a b : Package) → HasNames b → diff_is_empty same_derivation a b ≡ true → SameContents a b
  SameContents-compute a b u h =
      let every =
        sym (compute-empty same_derivation a.recipe a.queries a.charts b.recipe b.queries b.charts)
        ∙ h in
      let tables : maps_agree table_name (table_ok same_derivation) a.recipe.tables b.recipe.tables
          ≡ true =
        ground arith in
      let queries : maps_agree query_name query_ok a.queries.queries b.queries.queries ≡ true =
        ground arith in
      let charts : maps_agree chart_name chart_ok a.charts.charts b.charts.charts ≡ true =
        ground arith in
      record {
        tables =
            SameItems-maps_agree table_name (table_ok same_derivation) SameTableItems _ _ u.tables
              (λ x y j e.
                table_ok-SameTableItems x y
                  (All-In (λ t. HasUniqueNames column_name t.schema) b.recipe.tables y u.columns j)
                  e)
              tables;
        queries =
            SameItems-maps_agree query_name query_ok SameQuery _ _ u.queries
              (λ x y j e. (text_eq_iff y.sql x.sql).0 e) queries;
        charts =
            SameItems-maps_agree chart_name chart_ok SameChart _ _ u.charts (λ x y j e. e) charts;
      }
