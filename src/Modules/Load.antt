-- ===== src/Modules/Load.antt =====
-- modules/perfexpert_module_base.c: loading, unloading and finding modules, and their options.
use Prim.Native.String.{String}
use text.Mathlib.Text.{◌==◌ as str_eq}
use perfexpert.Prelude.{
  ℕ, ◌==◌, ltb, if◌then◌else◌, Bool, true, false, ◌&&◌, Option, none, some, List, [], ◌∷◌, ◌++◌,
  length,
}
use perfexpert.Outcome.{Outcome, ok, fault}
use perfexpert.CString.{perfexpert_success, perfexpert_error}
use perfexpert.Modules.{
  Symbols, Phase, PerfexpertModule, loaded, StepList, ModuleGlobals, Library, compile, instrument,
  measure, analyze, recommend,
}
use perfexpert.Modules.Steps.{perfexpert_phase_add}

unfoldable pub find_module : List PerfexpertModule → String → Option PerfexpertModule
find_module [] name = none
find_module (m ∷ ms) name = if str_eq name m.name then some m else find_module ms name

-- `none` is `NULL`, for a name and for the module.
unfoldable pub perfexpert_module_get : ModuleGlobals → Option String → Option PerfexpertModule
perfexpert_module_get g none = none
perfexpert_module_get g (some name) = find_module g.modules name

unfoldable pub is_available : List PerfexpertModule → String → Bool
is_available [] name = false
is_available (m ∷ ms) name = if str_eq name m.name then true else is_available ms name

unfoldable pub perfexpert_module_available : ModuleGlobals → Option String → Bool
perfexpert_module_available g none = false
perfexpert_module_available g (some name) = is_available g.modules name

unfoldable pub perfexpert_module_installed : Library → String → Bool
perfexpert_module_installed lib name = elim (lib.search name) [ none ↦ false | some _ ↦ true ]

-- One of the five blocks that link the interface of a phase, and go on if that succeeds.
unfoldable pub link_phase : Bool → Phase → PerfexpertModule → ℕ × StepList → ℕ × StepList
link_phase present p m (rc, l) =
    if rc == perfexpert_success && present then perfexpert_phase_add l m p else (rc, l)

unfoldable pub link_phases : PerfexpertModule → StepList → ℕ × StepList
link_phases m l =
    let s = m.symbols in
    let r1 = link_phase s.module_recommend recommend m (perfexpert_success, l) in
    let r2 = link_phase s.module_analyze analyze m r1 in
    let r3 = link_phase s.module_measure measure m r2 in
    let r4 = link_phase s.module_instrument instrument m r3 in
    link_phase s.module_compile compile m r4

-- The module's record once it is loaded.
unfoldable pub new_module : String → Symbols → PerfexpertModule
new_module name s = record { name = name; status = loaded; argv = name ∷ []; symbols = s }

unfoldable pub finish_load : String → Symbols → ℕ × ModuleGlobals → ℕ × ModuleGlobals
finish_load name s (rc, g) =
    if rc == perfexpert_success
    then (perfexpert_success, record g { modules = g.modules ++ new_module name s ∷ [] })
    else (perfexpert_error, g)

-- From the second symbol on: the path to `MODULE_ERROR` leaves the steps that are in the list.
unfoldable pub link_module : Library → String → Symbols → ModuleGlobals → ℕ × ModuleGlobals
link_module lib name s g =
    if s.module_version && (s.module_load && (s.module_init && s.module_fini))
    then (let (rc, steps) = link_phases (new_module name s) g.steps in
        let linked = record g { steps = steps } in
        let called = finish_load name s (lib.load name linked) in
        if rc == perfexpert_success then called else (perfexpert_error, linked))
    else (perfexpert_error, g)

unfoldable pub perfexpert_module_load : Library → String → ModuleGlobals → ℕ × ModuleGlobals
perfexpert_module_load lib name g =
    if is_available g.modules name then (perfexpert_success, g) else elim (lib.search name) [
      | none ↦ (perfexpert_error, g)
      | some s ↦ if s.myself_module then link_module lib name s g else (perfexpert_error, g)
    ]

-- The pointer that its search leaves is never `NULL`, so only the library decides; neither list
-- changes.
unfoldable pub perfexpert_module_unload : Library → String → ModuleGlobals → ℕ × ModuleGlobals
perfexpert_module_unload lib name g = elim (lib.search name) [
  | none ↦ (perfexpert_error, g)
  | some _ ↦ (perfexpert_success, g)
]

abbrev pub max_arguments_count : ℕ
max_arguments_count = 128

-- `m->argv[m->argc] = option; m->argc++` on the first module of the name: a fault where the array
-- is full.
unfoldable pub add_argument :
    List PerfexpertModule → String → (option : String) → Outcome (List PerfexpertModule)
add_argument [] name option = ok []
add_argument (m ∷ ms) name option =
    let rest = add_argument ms name option in
    if str_eq name m.name
    then if ltb (length m.argv) max_arguments_count
      then ok (record m { argv = m.argv ++ option ∷ [] } ∷ ms)
      else fault
    else elim rest [ ok ms' ↦ ok (m ∷ ms') | fault ↦ fault ]

-- `fulloption`
unfoldable pub fulloption : String → String
fulloption option = String.◌∷◌ "-" (String.◌∷◌ "-" option)

-- The end of `perfexpert_module_set_option`, behind its checks.
unfoldable pub store_option : String → String → ModuleGlobals → Outcome (ℕ × ModuleGlobals)
store_option name option g = elim (perfexpert_module_get g (some name)) [
  | none ↦ ok (perfexpert_error, g)
  | some _ ↦ elim (add_argument g.modules name (fulloption option)) [
    | ok ms ↦ ok (perfexpert_success, record g { modules = ms })
    | fault ↦ fault
  ]
]

unfoldable pub perfexpert_module_set_option :
    Library → String → (option : String) → ModuleGlobals → Outcome (ℕ × ModuleGlobals)
perfexpert_module_set_option lib name option g =
    let set_loaded = store_option name option in
    if perfexpert_module_available g (some name)
    then set_loaded g
    else if perfexpert_module_installed lib name
    then (let (rc, g') = perfexpert_module_load lib name g in
        if rc == perfexpert_success then set_loaded g' else ok (perfexpert_error, g'))
    else ok (perfexpert_error, g)
