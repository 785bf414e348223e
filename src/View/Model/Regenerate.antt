-- ===== src/View/Model/Regenerate.antt =====
-- What `regenerate_view` guarantees.
use dat.Prelude.{
  ℕ, ◌+◌, ◌%◌, ◌^◌, ◌<◌, Bool, true, false, ◌&&◌, List, [], ◌∷◌, ◌++◌, Text, codes, Option, none,
  some, ◌≡◌, ◌≢◌, refl, ◌∙◌, ap, arith, all, text_eq_iff, Bool-cases, inl, inr, ◌⊎◌,
}
use dat.Prelude.Decimal.{decimal-injective}
use dat.Prelude.Results.{Result, ok, err}
use dat.Engine.Render.Literal.{Host}
use dat.Engine.Render.Filter.{RenderError, is_ok}
use dat.Engine.Render.Compile.{compile_view_sql}
use dat.Engine.Render.Success.{is_renderable, is_ok-compile_view_sql}
use dat.View.Model.{
  ViewModel, ViewChange, view_name, sanitize_for_view_name, holds, is_some, is_nil, bind_sql,
  bind_result, regenerate_view, is_display_only, Outcome,
}

append-injective : (s t u : Text) → s ++ t ≡ s ++ u → t ≡ u
append-injective [] t u e = e
append-injective (c ∷ s) t u e = append-injective s t u (cc)

-- The names of two numbers differ.
pub view_name-injective : (tab : Text) (n m : ℕ) → view_name tab n ≡ view_name tab m → n ≡ m
unfolding view_name
view_name-injective tab n m e = decimal-injective n m (
    append-injective (codes "_") _ _
      (append-injective (sanitize_for_view_name tab) _ _ (append-injective (codes "v_") _ _ e)))

-- The view that is bound, if there is one, has the name of the current number.
pub record IsNamed (vm : ViewModel) : Type 0 where
  pub name : (vm.active_view ≡ none) ⊎ (vm.active_view ≡ some (view_name vm.tab_id vm.nonce_seq))
  pub nonce_lt : vm.nonce_seq < 2 ^ 32

-- The bound view is the one of the present stack: none for an empty stack, and else one that was
-- created with the SQL that the stack compiles to.
pub record IsSynced (h : Host) (vm : ViewModel) : Type 0 where
  pub idle : vm.present ≡ [] → vm.active_view ≡ none
  pub bound :
      vm.present ≢ []
      → (sql : Text) × (compile_view_sql h vm.base_table vm.present ≡ ok sql)
        × (vm.active_view_sql ≡ some sql)
        × (is_some vm.active_view ≡ true)

pub record SameStacks (vm vm' : ViewModel) : Type 0 where
  pub tab_id : vm'.tab_id ≡ vm.tab_id
  pub base_table : vm'.base_table ≡ vm.base_table
  pub present : vm'.present ≡ vm.present
  pub past : vm'.past ≡ vm.past
  pub future : vm'.future ≡ vm.future

-- The change tells the grid how to get from the view of `vm` to that of `vm'`.
pub record IsChange (vm vm' : ViewModel) (c : ViewChange) : Type 0 where
  pub new_view : c.new_active_view ≡ vm'.active_view
  pub created : is_some c.sql ≡ true → c.sql ≡ vm'.active_view_sql
  pub creates : is_some c.sql ≡ true → is_some c.new_active_view ≡ true
  pub fresh : is_some c.sql ≡ true → c.new_active_view ≢ vm.active_view
  pub replaced : is_display_only c ≡ false → c.previous_active_view ≡ vm.active_view
  pub kept :
      is_display_only c ≡ true
      → (vm'.active_view ≡ vm.active_view)
        × (vm'.active_view_sql ≡ vm.active_view_sql)
        × (c.previous_active_view ≡ none)

pub record Regenerated (h : Host) (vm vm' : ViewModel) (c : ViewChange) : Type 0 where
  pub same : SameStacks vm vm'
  pub synced : IsSynced h vm'
  pub named : IsNamed vm'
  pub change : IsChange vm vm' c

abbrev pub Succeeds : Host → ViewModel → Outcome → Type 0
Succeeds h vm none = ⊥
Succeeds h vm (some (vm', c)) = Regenerated h vm vm' c

-- The next number is another one, also where it wraps.
next_ne : (n : ℕ) → n < 2 ^ 32 → (n + 1) % 2 ^ 32 ≢ n
next_ne n h = omega arith

next_name_fresh :
    (vm : ViewModel)
    → IsNamed vm
    → some (view_name vm.tab_id ((vm.nonce_seq + 1) % 2 ^ 32)) ≢ vm.active_view
next_name_fresh vm i e = elim i.name [
  | inl unbound ↦ cc
  | inr bound ↦ next_ne vm.nonce_seq i.nonce_lt (view_name-injective vm.tab_id _ _ (cc))
]

holds_lem : (o : Option Text) (t : Text) → holds o t ≡ true → o ≡ some t
holds_lem none t h = cc
holds_lem (some s) t h = ap some ((text_eq_iff s t).0 h)

and_true : (a b : Bool) → (a && b) ≡ true → (a ≡ true) × (b ≡ true)
and_true true b h = (refl, h)
and_true false b h = cc

bind_sql-Regenerated :
    (h : Host) (vm : ViewModel) (sql : Text)
    → IsNamed vm
    → vm.present ≢ []
    → compile_view_sql h vm.base_table vm.present ≡ ok sql
    → Regenerated h vm (bind_sql vm sql).0 (bind_sql vm sql).1
unfolding bind_sql
bind_sql-Regenerated h vm sql i n e =
    elim (Bool-cases (is_some vm.active_view && holds vm.active_view_sql sql)) [
      | inl keep ↦ rw keep (
          let (view, same) = and_true (is_some vm.active_view) _ keep in
          record {
            same = ground arith;
            synced = record {
              idle = λ p. absurd (n p);
              bound = λ _. (sql, e, holds_lem vm.active_view_sql sql same, view);
            };
            named = i;
            change = ground arith;
          })
      | inr new ↦ rw new (record {
        same = ground arith;
        synced = record { idle = λ p. absurd (n p); bound = λ _. (sql, e, refl, refl) };
        named = record { name = inr refl; nonce_lt = omega arith };
        change = record {
          new_view = refl;
          created = λ _. refl;
          creates = λ _. refl;
          fresh = λ _. next_name_fresh vm i;
          replaced = λ _. refl;
          kept = λ p. cc;
        };
      })
    ]

bind_result-Succeeds :
    (h : Host) (vm : ViewModel) (res : Result RenderError Text)
    → IsNamed vm
    → vm.present ≢ []
    → compile_view_sql h vm.base_table vm.present ≡ res
    → is_ok res ≡ true
    → Succeeds h vm (bind_result vm res)
bind_result-Succeeds h vm (ok sql) i n e o = bind_sql-Regenerated h vm sql i n e
bind_result-Succeeds h vm (err x) i n e o = cc

unbind-Regenerated :
    (h : Host) (vm : ViewModel)
    → IsNamed vm
    → vm.present ≡ []
    → Regenerated h vm
        (record vm { active_view = none; active_view_sql = none })
        (record { new_active_view = none; previous_active_view = vm.active_view; sql = none })
unbind-Regenerated h vm i e = record {
  same = ground arith;
  synced = record { idle = λ _. refl; bound = λ n. absurd (n e) };
  named = record { name = inl refl; nonce_lt = i.nonce_lt };
  change = ground arith;
}

nil-cases {ℓ} : {A : Type ℓ} (xs : List A) → (xs ≡ []) ⊎ ((xs ≢ []) × (is_nil xs ≡ false))
nil-cases [] = inl refl
nil-cases (x ∷ xs) = inr (λ e. cc, refl)

-- With a renderable stack `regenerate_view` never panics; it leaves the stacks alone, binds the
-- view of the present stack, and describes the change.
pub regenerate_view-Succeeds :
    (h : Host) (vm : ViewModel)
    → IsNamed vm
    → all (is_renderable h) vm.present ≡ true
    → Succeeds h vm (regenerate_view h vm)
unfolding regenerate_view
regenerate_view-Succeeds h vm i r = elim (nil-cases vm.present) [
  | inl empty ↦ rw (ap is_nil empty) (unbind-Regenerated h vm i empty)
  | inr full ↦ rw full.1 (
      bind_result-Succeeds h vm (compile_view_sql h vm.base_table vm.present) i full.0 refl
        (is_ok-compile_view_sql h vm.base_table vm.present ∙ r))
]

-- Whatever the call returns, it describes.
abbrev pub OnReturn : Host → ViewModel → Outcome → Type 0
OnReturn h vm none = Unit
OnReturn h vm (some (vm', c)) = Regenerated h vm vm' c

bind_result-OnReturn :
    (h : Host) (vm : ViewModel) (res : Result RenderError Text)
    → IsNamed vm
    → vm.present ≢ []
    → compile_view_sql h vm.base_table vm.present ≡ res
    → OnReturn h vm (bind_result vm res)
bind_result-OnReturn h vm (ok sql) i n e = bind_sql-Regenerated h vm sql i n e
bind_result-OnReturn h vm (err x) i n e = tt

pub regenerate_view-OnReturn :
    (h : Host) (vm : ViewModel) → IsNamed vm → OnReturn h vm (regenerate_view h vm)
unfolding regenerate_view
regenerate_view-OnReturn h vm i = elim (nil-cases vm.present) [
  | inl empty ↦ rw (ap is_nil empty) (unbind-Regenerated h vm i empty)
  | inr full ↦
      rw full.1
        (bind_result-OnReturn h vm (compile_view_sql h vm.base_table vm.present) i full.0 refl)
]

-- The same with the result named.
pub regenerate_view_total :
    (h : Host) (vm : ViewModel)
    → IsNamed vm
    → all (is_renderable h) vm.present ≡ true
    → (vm' : ViewModel) × (c : ViewChange) × (regenerate_view h vm ≡ some (vm', c))
      × Regenerated h vm vm' c
regenerate_view_total h vm i r =
    name_result (regenerate_view h vm) (regenerate_view-Succeeds h vm i r)
  where
    name_result :
        (out : Outcome)
        → Succeeds h vm out
        → (vm' : ViewModel) × (c : ViewChange) × (out ≡ some (vm', c)) × Regenerated h vm vm' c
    name_result none k = absurd k
    name_result (some (vm', c)) k = (vm', c, refl, k)
