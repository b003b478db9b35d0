-- ===== src/Modules/Requires.antt =====
-- modules/perfexpert_module_base.c: perfexpert_module_requires, which reorders and clones steps.
use Prim.Native.String.{String}
use text.Mathlib.Text.{◌==◌ as str_eq}
use perfexpert.Prelude.{
  ℕ, ◌+◌, ◌-◌, ◌==◌, ltb, if◌then◌else◌, Bool, true, false, not, ◌&&◌, ◌||◌, Option, none, some,
  List, [], ◌∷◌,
}
use perfexpert.CString.{perfexpert_success, perfexpert_error}
use perfexpert.Modules.{
  Phase, same_phase, Order, before, after, first, last, clone_before, clone_after, PerfexpertModule,
  initialized, PerfexpertStep, StepList, ModuleGlobals, Library,
}
use perfexpert.Modules.Steps.{list_insert, list_move_before, list_move_after, perfexpert_step_clone}
use perfexpert.Modules.Load.{perfexpert_module_get, perfexpert_module_load}

-- The status of the first module of the name becomes initialized.
unfoldable pub mark_initialized : List PerfexpertModule → String → List PerfexpertModule
mark_initialized [] name = []
mark_initialized (m ∷ ms) name =
    if str_eq name m.name
    then record m { status = initialized } ∷ ms
    else m ∷ mark_initialized ms name

-- The initialisation of module B, which was just loaded.
unfoldable pub start_required : Library → String → ModuleGlobals → ℕ × ModuleGlobals
start_required lib name g = elim (perfexpert_module_get g (some name)) [
  | none ↦ (perfexpert_success, g)
  | some m ↦
      let (rc, g') = lib.init m.name g in
      if rc == perfexpert_success
      then (perfexpert_success, record g' { modules = mark_initialized g'.modules name })
      else (perfexpert_error, g')
]

-- Is module B loaded, and if not, can it be?
unfoldable pub ensure_loaded : Library → Option String → ModuleGlobals → ℕ × ModuleGlobals
ensure_loaded lib none g = (perfexpert_success, g)
ensure_loaded lib (some name) g = elim (perfexpert_module_get g (some name)) [
  | some _ ↦ (perfexpert_success, g)
  | none ↦
      let (rc, g') = perfexpert_module_load lib name g in
      if rc == perfexpert_success then start_required lib name g' else (perfexpert_error, g')
]

-- `sa`, `sb`, `xa`, `xb` and `x`. The pointers `f` and `l` are the positions 0 and `x - 1`.
pub record Found : Type 0 where
  pub sa : Option PerfexpertStep
  pub sb : Option PerfexpertStep
  pub xa : ℕ
  pub xb : ℕ
  pub x : ℕ

abbrev pub is_step : PerfexpertStep → String → Phase → Bool
is_step t name p = same_phase t.phase p && str_eq name t.name

-- A `NULL` for B is any module.
unfoldable pub is_required : PerfexpertStep → Option String → Phase → Bool
is_required t none p = same_phase t.phase p
is_required t (some name) p = is_step t name p

unfoldable pub look_at :
    (a : String) (pa : Phase) (b : Option String) (pb : Phase) → PerfexpertStep → Found → Found
look_at a pa b pb t r = record {
  sa = if is_step t a pa then some t else r.sa;
  xa = if is_step t a pa then r.x else r.xa;
  sb = if is_required t b pb then some t else r.sb;
  xb = if is_required t b pb then r.x else r.xb;
  x = r.x + 1;
}

-- The loop over the steps.
unfoldable pub find_steps :
    (a : String) (pa : Phase) (b : Option String) (pb : Phase) → List PerfexpertStep → Found → Found
find_steps a pa b pb [] r = r
find_steps a pa b pb (t ∷ ts) r = find_steps a pa b pb ts (look_at a pa b pb t r)

abbrev pub nothing_found : Found
nothing_found = record { sa = none; sb = none; xa = 0; xb = 0; x = 0 }

-- The branches for a module B.
unfoldable pub reorder : Order → Found → StepList → StepList
reorder before r l = if ltb r.xa r.xb then list_move_after l r.xa r.xb else l
reorder after r l = if ltb r.xb r.xa then list_move_before l r.xa r.xb else l
reorder _ r l = l

-- The insertion of the clone; what `perfexpert_list_insert` returns is not looked at.
unfoldable pub insert_clone : Option PerfexpertStep → (position : ℕ) → StepList → StepList
insert_clone none position l = l
insert_clone (some t) position l = (list_insert l t position).1

unfoldable pub clone_after_found : Option PerfexpertStep → ℕ → StepList → ℕ × StepList
clone_after_found none xa l = (perfexpert_error, l)
clone_after_found (some t) xa l = (perfexpert_success, insert_clone (some t) (xa + 1) l)

-- The branches for no module B.
unfoldable pub clone_or_move : Order → Found → StepList → ℕ × StepList
clone_or_move clone_before r l =
    (perfexpert_success, insert_clone (perfexpert_step_clone r.sb) r.xa l)
clone_or_move clone_after r l = clone_after_found (perfexpert_step_clone r.sb) r.xa l
clone_or_move first r l = (perfexpert_success, if ltb 0 r.xa then list_move_before l r.xa 0 else l)
clone_or_move last r l =
    (perfexpert_success, if ltb r.xa (r.x - 1) then list_move_after l r.xa (r.x - 1) else l)
clone_or_move _ r l = (perfexpert_success, l)

unfoldable pub is_missing {ℓ} : {A : Type ℓ} → Option A → Bool
is_missing none = true
is_missing (some _) = false

unfoldable pub arrange : Option String → Order → Found → StepList → ℕ × StepList
arrange none o r l = clone_or_move o r l
arrange (some _) o r l = (perfexpert_success, reorder o r l)

-- Behind the loading of B.
unfoldable pub require_steps :
    (a : String) (pa : Phase) (b : Option String) (pb : Phase) → Order → StepList → ℕ × StepList
require_steps a pa b pb o l =
    let r = find_steps a pa b pb l.items nothing_found in
    if is_missing r.sa || (is_missing r.sb && not (is_missing b))
    then (perfexpert_error, l)
    else arrange b o r l

unfoldable pub perfexpert_module_requires :
    Library
    → (a : String) (pa : Phase) (b : Option String) (pb : Phase) → Order
    → ModuleGlobals
    → ℕ × ModuleGlobals
perfexpert_module_requires lib a pa b pb o g =
    let (rc, g') = ensure_loaded lib b g in
    let (rc', steps) = require_steps a pa b pb o g'.steps in
    if rc == perfexpert_success then (rc', record g' { steps = steps }) else (perfexpert_error, g')
