-- ===== src/Format/Diff/Symmetric.antt =====
-- The diff is empty in both directions or in none.
use dat.Prelude.{
  Bool, true, List, [], ◌∷◌, Text, Option, some, none, ◌≡◌, refl, sym, ◌∙◌, arith, text_eq,
}
use dat.Format.Model.{Derivation, RecipeTable, ChartSpec, option_eq, spec_eq}
use dat.Format.Diff.Maps.{Entries, SameMap, lookup}
use dat.Format.Diff.Empty.{column_name, table_name, query_name, chart_name}
use dat.Format.Diff.Equivalence.{
  SameColumn, SameQuery, SameChart, SameTable, Package, HasNames, diff_is_empty,
  SamePackage-compute, compute-SamePackage,
}

pub text_eq_comm : (s t : Text) → text_eq s t ≡ text_eq t s
unfolding text_eq
text_eq_comm [] [] = refl
text_eq_comm [] (b ∷ t) = refl
text_eq_comm (a ∷ s) [] = refl
text_eq_comm (a ∷ s) (b ∷ t) = ground (arith, text_eq_comm s t)

option_eq_comm : (s t : Option Text) → option_eq s t ≡ option_eq t s
unfolding option_eq
option_eq_comm none none = refl
option_eq_comm none (some t) = refl
option_eq_comm (some s) none = refl
option_eq_comm (some s) (some t) = text_eq_comm s t

spec_eq_comm : (a b : ChartSpec) → spec_eq a b ≡ spec_eq b a
unfolding spec_eq
spec_eq_comm a b = ground (
  arith,
  text_eq_comm a.source b.source,
  option_eq_comm a.x b.x,
  option_eq_comm a.y b.y,
  option_eq_comm a.group b.group,
  option_eq_comm a.color b.color,
  text_eq_comm a.title b.title,
)

module _ {ℓ} {A : Type ℓ} (name : A → Text) where
  SameMap-sym :
      (R : A → A → Type 0)
      → ((x y : A) → R x y → R y x)
      → (a b : List A) → SameMap name R a b
      → SameMap name R b a
  SameMap-sym R r a b h n = by_entries (lookup name a n) (lookup name b n) (h n)
    where
      by_entries : (o o' : Option A) → Entries R o o' → Entries R o' o
      by_entries none none k = k
      by_entries none (some y) k = k
      by_entries (some x) none k = k
      by_entries (some x) (some y) k = r x y k

-- Where the equality of derivations is symmetric, and the second package has no two tables, columns
-- of a table, queries or charts of one name, a diff that is empty is empty in the other direction.
pub diff_is_empty-symmetric :
    (same_derivation : Option Derivation → Option Derivation → Bool)
    → ((x y : Option Derivation) → same_derivation x y ≡ same_derivation y x)
    → (a b : Package) → HasNames b
    → diff_is_empty same_derivation a b ≡ true
    → diff_is_empty same_derivation b a ≡ true
diff_is_empty-symmetric same s a b u h =
    let k = SamePackage-compute same a b h in
    compute-SamePackage same b a u (record {
      tables = SameMap-sym table_name (SameTable same) same_table _ _ k.tables;
      queries = SameMap-sym query_name SameQuery (λ x y e. sym e) _ _ k.queries;
      charts =
          SameMap-sym chart_name SameChart (λ x y e. spec_eq_comm x.spec y.spec ∙ e) _ _ k.charts;
    })
  where
    same_table : (x y : RecipeTable) → SameTable same x y → SameTable same y x
    same_table x y e = (
      s y.derivation x.derivation ∙ e.0,
      SameMap-sym column_name SameColumn (λ c d t. sym t) _ _ e.1,
      sym e.2,
    )
