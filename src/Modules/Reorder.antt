-- ===== src/Modules/Reorder.antt =====
-- What perfexpert_module_requires makes of the order of the steps.
use Prim.Native.String.{String}
use text.Mathlib.Text.{◌==◌ as str_eq}
use mathlib.Core.List.{Perm}
use mathlib.Core.List.Perm
use perfexpert.Prelude.{
  ℕ, ◌<◌, ◌≡◌, refl, Bool, true, ◌&&◌, ◌||◌, if_both, some, List, get_elem?, ltb, ◌==◌,
}
use perfexpert.Modules.{
  Phase, Order, before, after, available, PerfexpertModule, PerfexpertStep, StepList, ModuleGlobals,
  Library,
}
use perfexpert.Modules.Load.{perfexpert_module_get}
use perfexpert.Modules.Requires.{
  Found, find_steps, nothing_found, is_missing, reorder, arrange, require_steps, ensure_loaded,
  perfexpert_module_requires,
}
use perfexpert.Modules.Moves.{list_move_after-perm, list_move_before-perm}

-- A step that passes the first test runs before one that passes the second.
abbrev pub RunsBefore :
    (PerfexpertStep → Bool) → (PerfexpertStep → Bool) → List PerfexpertStep → Type 0
RunsBefore first second items =
    (i j : ℕ) × (s t : PerfexpertStep) × (i < j)
    × (get_elem? items i ≡ some s)
    × (first s ≡ true)
    × (get_elem? items j ≡ some t)
    × (second t ≡ true)

-- How the steps of A and of B stand behind a call with this order; the other orders promise nothing
-- of B.
abbrev pub IsArranged :
    Order → (PerfexpertStep → Bool) → (PerfexpertStep → Bool) → List PerfexpertStep → Type 0
IsArranged before is_a is_b items = RunsBefore is_b is_a items
IsArranged after is_a is_b items = RunsBefore is_a is_b items
IsArranged _ is_a is_b items = Unit

reorder-perm : (o : Order) (l : StepList) (r : Found) → Perm l.items (reorder o r l).items
unfolding reorder
reorder-perm before l r =
    if_both (λ (k : StepList). Perm l.items k.items) (ltb r.xa r.xb)
      (λ _. list_move_after-perm l r.xa r.xb) (λ _. Perm.refl _)
reorder-perm after l r =
    if_both (λ (k : StepList). Perm l.items k.items) (ltb r.xb r.xa)
      (λ _. list_move_before-perm l r.xa r.xb) (λ _. Perm.refl _)
reorder-perm available l r = Perm.refl _
reorder-perm _ l r = Perm.refl _

module _ (a : String) (pa : Phase) (b : String) (pb : Phase) (o : Order) (l : StepList) where
  require_steps-perm : Perm l.items (require_steps a pa (some b) pb o l).1.items
  unfolding require_steps arrange is_missing
  require_steps-perm =
      let r = find_steps a pa (some b) pb l.items nothing_found in
      if_both (λ (k : ℕ × StepList). Perm l.items k.1.items)
        (is_missing r.sa || (is_missing r.sb && true)) (λ _. Perm.refl _) (λ _. reorder-perm o l r)

-- If module B is loaded, perfexpert_module_requires for it neither loses nor adds a module or a
-- step, whatever the order and the answer: the table is as it was, and the steps are a
-- permutation of those before.
perfexpert_module_requires-perm :
    (lib : Library) (a : String) (pa : Phase) (b : String) (pb : Phase) (o : Order)
    (g : ModuleGlobals) (m : PerfexpertModule)
    → perfexpert_module_get g (some b) ≡ some m
    → ((perfexpert_module_requires lib a pa (some b) pb o g).1.modules ≡ g.modules)
      × Perm g.steps.items (perfexpert_module_requires lib a pa (some b) pb o g).1.steps.items
unfolding perfexpert_module_requires ensure_loaded
perfexpert_module_requires-perm lib a pa b pb o g m loaded =
    rw (loaded, ensure_loaded) (refl, require_steps-perm a pa b pb o g.steps)
