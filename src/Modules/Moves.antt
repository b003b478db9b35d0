-- ===== src/Modules/Moves.antt =====
-- What the two moves of a step make of the list of steps.
use mathlib.Core.List.{Perm}
use mathlib.Core.List.Perm
use perfexpert.Prelude.{
  ℕ, suc, ◌+◌, ◌-◌, ◌<◌, ◌≡◌, ◌∙◌, ap, option_both, some, List, length, lt_of_get_elem?, get_elem?,
  ltb, if◌then◌else◌, arith,
}
use perfexpert.Modules.{PerfexpertStep, StepList}
use perfexpert.Modules.Steps.{insert_at, remove_at, list_move_before, list_move_after}
use perfexpert.Modules.Positions.{
  insert_at-perm, remove_at-perm, length-remove_at, get_elem?-insert_at_self,
  get_elem?-insert_at_lt, get_elem?-insert_at_ge, get_elem?-remove_at_lt, get_elem?-remove_at_ge,
}

-- A move takes an item out and puts it in again.
pub list_move_after-items :
    (l : StepList) (a b : ℕ) {s : PerfexpertStep}
    → get_elem? l.items a ≡ some s
    → (list_move_after l a b).items
      ≡ insert_at (if ltb a b then b else b + 1) s (remove_at a l.items)
unfolding list_move_after
list_move_after-items l a b here = ground arith

pub list_move_before-items :
    (l : StepList) (a b : ℕ) {s : PerfexpertStep}
    → get_elem? l.items a ≡ some s
    → (list_move_before l a b).items
      ≡ insert_at (if ltb a b then b - 1 else b) s (remove_at a l.items)
unfolding list_move_before
list_move_before-items l a b here = ground arith

module _ (items : List PerfexpertStep) (a b : ℕ) {s : PerfexpertStep}
    (here : get_elem? items a ≡ some s) where
  moved-perm : (i : ℕ) → Perm items (insert_at i s (remove_at a items))
  moved-perm i = Perm.trans (remove_at-perm a items here) (insert_at-perm i s (remove_at a items))

  -- Moved to where a later item stands, the item has that one directly before it.
  pub moved_back :
      {t : PerfexpertStep}
      → get_elem? items b ≡ some t
      → a < b
      → (get_elem? (insert_at b s (remove_at a items)) (b - 1) ≡ some t)
        × (get_elem? (insert_at b s (remove_at a items)) b ≡ some s)
  moved_back there less =
      let inside : b < length items = lt_of_get_elem? items b there in
      let size = length-remove_at a items (omega arith) in
      (
        get_elem?-insert_at_lt b (b - 1) s (remove_at a items) (omega (arith, size)) (omega arith)
            ∙ (get_elem?-remove_at_ge a (b - 1) items (omega arith)
                ∙ (ap (get_elem? items) (omega arith) ∙ there)),
        get_elem?-insert_at_self b s (remove_at a items) (omega (arith, size)),
      )

  -- Moved to where an earlier item stands, it has that one directly behind it.
  pub moved_ahead :
      {t : PerfexpertStep}
      → get_elem? items b ≡ some t
      → b < a
      → (get_elem? (insert_at b s (remove_at a items)) b ≡ some s)
        × (get_elem? (insert_at b s (remove_at a items)) (suc b) ≡ some t)
  moved_ahead there less =
      let inside : a < length items = lt_of_get_elem? items a here in
      let size = length-remove_at a items inside in
      (
        get_elem?-insert_at_self b s (remove_at a items) (omega (arith, size)),
        get_elem?-insert_at_ge b b s (remove_at a items) (omega arith) (omega (arith, size))
            ∙ (get_elem?-remove_at_lt a b items less ∙ there),
      )

pub list_move_after-perm : (l : StepList) (a b : ℕ) → Perm l.items (list_move_after l a b).items
unfolding list_move_after
list_move_after-perm l a b =
    option_both (λ (k : StepList). Perm l.items k.items) (get_elem? l.items a) (λ _. Perm.refl _)
      (λ s here. moved-perm l.items a b here _)

pub list_move_before-perm : (l : StepList) (a b : ℕ) → Perm l.items (list_move_before l a b).items
unfolding list_move_before
list_move_before-perm l a b =
    option_both (λ (k : StepList). Perm l.items k.items) (get_elem? l.items a) (λ _. Perm.refl _)
      (λ s here. moved-perm l.items a b here _)
