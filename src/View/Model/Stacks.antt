-- ===== src/View/Model/Stacks.antt =====
-- The invariant of a `ViewModel`, and the stacks that its methods build.
use dat.Prelude.{
  ◌+◌, ◌-◌, ◌≤◌, true, List, [], ◌∷◌, Option, none, some, ◌≡◌, refl, arith, all, length,
  length-take, Bool-cases, inl, inr, ltb,
}
use dat.Prelude.Predicates.{All, All-take}
use dat.Engine.Transform.{Transformation}
use dat.Engine.Render.Literal.{Host}
use dat.Engine.Render.Success.{is_renderable}
use dat.View.Model.{ViewModel, ViewChange, Outcome, history_cap, evict, checkpoint, regenerate_view}
use dat.View.Model.Calls.{replace_last, some_change}
use dat.View.Model.Regenerate.{IsNamed, IsSynced, Succeeds, regenerate_view-Succeeds}

abbrev pub Renders : Host → List Transformation → Type 0
Renders h ops = all (is_renderable h) ops ≡ true

-- The half of the invariant that concerns the stacks.
pub record HasStacks (h : Host) (vm : ViewModel) : Type 0 where
  pub bounded : length vm.past + length vm.future ≤ history_cap
  pub present : Renders h vm.present
  pub past : All (Renders h) vm.past
  pub future : All (Renders h) vm.future
  pub named : IsNamed vm

pub record IsValid (h : Host) (vm : ViewModel) : Type 0 where
  pub stacks : HasStacks h vm
  pub synced : IsSynced h vm

-- The call returns, with a valid model.
abbrev pub Keeps : Host → Outcome → Type 0
Keeps h none = ⊥
Keeps h (some (vm, c)) = IsValid h vm

module _ {h : Host} {vm : ViewModel} where
  pub Succeeds-Keeps : (out : Outcome) → HasStacks h vm → Succeeds h vm out → Keeps h out
  Succeeds-Keeps none s r = r
  Succeeds-Keeps (some (vm', c)) s r = record {
    stacks = record {
      bounded = rw (r.same.past, r.same.future) s.bounded;
      present = rw r.same.present s.present;
      past = rw r.same.past s.past;
      future = rw r.same.future s.future;
      named = r.named;
    };
    synced = r.synced;
  }

  pub regenerate_view-Keeps : HasStacks h vm → Keeps h (regenerate_view h vm)
  regenerate_view-Keeps s =
      Succeeds-Keeps (regenerate_view h vm) s (regenerate_view-Succeeds h vm s.named s.present)

pub length-evict : (past : List (List Transformation)) → length (evict past) ≤ history_cap
unfolding evict
length-evict past = ground (arith, length-take (length past - (length past - history_cap)) past)

pub evict-Renders :
    (h : Host) (past : List (List Transformation))
    → All (Renders h) past
    → All (Renders h) (evict past)
unfolding evict
evict-Renders h past r = elim (Bool-cases (ltb history_cap (length past))) [
  | inl over ↦ rw over (All-take (Renders h) (length past - (length past - history_cap)) past r)
  | inr fits ↦ rw fits r
]

-- A checkpoint, and then another present stack.
pub checkpoint-HasStacks :
    {h : Host} {vm : ViewModel} (ops : List Transformation)
    → HasStacks h vm
    → Renders h ops
    → HasStacks h (record (checkpoint vm) { present = ops })
unfolding checkpoint
checkpoint-HasStacks {h} {vm} ops s r = record {
  bounded = omega (arith, length-evict (vm.present ∷ vm.past));
  present = r;
  past = evict-Renders h (vm.present ∷ vm.past) (s.present, s.past);
  future = tt;
  named = record { name = s.named.name; nonce_lt = s.named.nonce_lt };
}

-- Another present stack in place of the old one, and no redo.
pub replace-HasStacks :
    {h : Host} {vm : ViewModel} (ops : List Transformation)
    → HasStacks h vm
    → Renders h ops
    → HasStacks h (record vm { present = ops; future = [] })
replace-HasStacks ops s r = record {
  bounded = omega (arith, s.bounded);
  present = r;
  past = s.past;
  future = tt;
  named = record { name = s.named.name; nonce_lt = s.named.nonce_lt };
}

pub all-replace_last :
    (h : Host) (ops : List Transformation) (t : Transformation)
    → Renders h ops
    → is_renderable h t ≡ true
    → Renders h (replace_last ops t)
unfolding replace_last
all-replace_last h [] t r k = refl
all-replace_last h (x ∷ []) t r k = ground arith
all-replace_last h (x ∷ y ∷ ops) t r k = ground (arith, all-replace_last h (y ∷ ops) t)

abbrev pub KeepsMaybe : Host → Option (ViewModel × Option ViewChange) → Type 0
KeepsMaybe h none = ⊥
KeepsMaybe h (some (vm, c)) = IsValid h vm

pub some_change-Keeps : (h : Host) (out : Outcome) → Keeps h out → KeepsMaybe h (some_change out)
some_change-Keeps h (some (vm, c)) k = k
some_change-Keeps h none k = k
