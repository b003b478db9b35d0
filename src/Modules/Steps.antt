-- ===== src/Modules/Steps.antt =====
-- modules/perfexpert_module_base.c: perfexpert_phase_add, perfexpert_step_clone and
-- perfexpert_phase_available, on the list operations of common/perfexpert_list.c seen by position.
use Prim.Native.String.{String}
use text.Mathlib.Text.{◌==◌ as str_eq}
use perfexpert.Prelude.{
  ℕ, zero, suc, ◌+◌, ◌-◌, ◌%◌, ◌==◌, leb, ltb, if◌then◌else◌, Bool, false, ◌&&◌, ◌||◌, Option, none,
  some, List, [], ◌∷◌, ◌++◌, length, get_elem?,
}
use perfexpert.CString.{perfexpert_success, perfexpert_error}
use perfexpert.CacheSim.Types.{inc64}
use perfexpert.Modules.{
  Phase, compile, same_phase, PerfexpertModule, PerfexpertStep, StepStatus, StepList,
}

module _ {ℓ} {A : Type ℓ} where
  unfoldable pub insert_at : ℕ → A → List A → List A
  insert_at zero x xs = x ∷ xs
  insert_at (suc i) x [] = x ∷ []
  insert_at (suc i) x (y ∷ ys) = y ∷ insert_at i x ys

  unfoldable pub remove_at : ℕ → List A → List A
  remove_at i [] = []
  remove_at zero (x ∷ xs) = xs
  remove_at (suc i) (x ∷ xs) = x ∷ remove_at i xs

unfoldable pub list_prepend : StepList → PerfexpertStep → StepList
list_prepend l s = record { items = s ∷ l.items; length = inc64 l.length }

unfoldable pub list_append : StepList → PerfexpertStep → StepList
list_append l s = record { items = l.items ++ s ∷ []; length = inc64 l.length }

-- Behind `position - 1` steps from the first item, round the ring of items and sentinel. At
-- position 0 `perfexpert_list_prepend` counts the item too.
unfoldable pub list_insert : StepList → PerfexpertStep → (position : ℕ) → ℕ × StepList
list_insert l s position = if leb l.length position then (perfexpert_error, l) else (
  perfexpert_success,
  if position == 0 then record (list_prepend l s) { length = inc64 (inc64 l.length) } else record {
    items = insert_at (position % (length l.items + 1)) s l.items;
    length = inc64 l.length;
  },
)

-- The item at one position moves to stand before, or behind, the one at another position.
unfoldable pub list_move_before : StepList → (a b : ℕ) → StepList
list_move_before l a b = elim (get_elem? l.items a) [
  | none ↦ l
  | some s ↦ record l { items = insert_at (if ltb a b then b - 1 else b) s (remove_at a l.items) }
]

unfoldable pub list_move_after : StepList → (a b : ℕ) → StepList
list_move_after l a b = elim (get_elem? l.items a) [
  | none ↦ l
  | some s ↦ record l { items = insert_at (if ltb a b then b else b + 1) s (remove_at a l.items) }
]

-- The search of `perfexpert_phase_add`: `is_in_list`.
unfoldable pub is_in_list : List PerfexpertStep → String → Phase → Bool
is_in_list [] name p = false
is_in_list (s ∷ ss) name p = (str_eq s.name name && same_phase p s.phase) || is_in_list ss name p

-- The same search: `compiler_present`.
unfoldable pub compiler_present : List PerfexpertStep → Bool
compiler_present [] = false
compiler_present (s ∷ ss) = same_phase compile s.phase || compiler_present ss

unfoldable pub new_step : PerfexpertModule → Phase → PerfexpertStep
new_step m p = record {
  owner = m.name;
  phase = p;
  status = StepStatus.undefined;
  function = some (m.name, p);
  name = m.name;
}

-- In which position the step stands.
unfoldable pub place_step : StepList → PerfexpertStep → StepList
place_step l s =
    if compiler_present l.items
    then (let (rc, l') = list_insert l s 1 in
        if rc == perfexpert_success then l' else list_append l s)
    else list_prepend l s

-- `perfexpert_phase_add`, for a phase that the module implements.
unfoldable pub perfexpert_phase_add : StepList → PerfexpertModule → Phase → ℕ × StepList
perfexpert_phase_add l m p =
    if compiler_present l.items && same_phase compile p
    then (perfexpert_error, l)
    else if is_in_list l.items m.name p
    then (perfexpert_success, l)
    else (perfexpert_success, place_step l (new_step m p))

-- `none` is `NULL`; the clone is another item with the same fields.
unfoldable pub perfexpert_step_clone : Option PerfexpertStep → Option PerfexpertStep
perfexpert_step_clone none = none
perfexpert_step_clone (some s) = some (record {
  owner = s.owner;
  phase = s.phase;
  status = s.status;
  function = s.function;
  name = s.name;
})

-- The phase that it is asked for is not looked at.
unfoldable pub perfexpert_phase_available : StepList → Phase → ℕ
perfexpert_phase_available l phase =
    if compiler_present l.items then perfexpert_success else perfexpert_error
