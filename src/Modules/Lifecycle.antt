-- ===== src/Modules/Lifecycle.antt =====
-- modules/perfexpert_module_base.c: perfexpert_module_init and perfexpert_module_fini. A module's
-- function can load more modules, which the loop then meets at the end of the list, so it takes
-- fuel. Items are never removed or moved in the list of modules, so a position stands for the
-- pointer to a module.
use perfexpert.Prelude.{
  ℕ, zero, suc, ◌+◌, ◌==◌, if◌then◌else◌, Option, none, some, List, [], ◌∷◌, get_elem?,
}
use perfexpert.CString.{perfexpert_success, perfexpert_error}
use perfexpert.Modules.{
  ModuleStatus, loaded, initialized, finalized, PerfexpertModule, ModuleGlobals, Library,
}

-- `m->status = status` for the module at a position.
unfoldable pub set_status : List PerfexpertModule → ℕ → ModuleStatus → List PerfexpertModule
set_status [] i status = []
set_status (m ∷ ms) zero status = record m { status = status } ∷ ms
set_status (m ∷ ms) (suc i) status = m ∷ set_status ms i status

-- What follows a call of a module's `init` or `fini`.
unfoldable pub called : ℕ → ModuleStatus → ℕ × ModuleGlobals → ℕ × ModuleGlobals
called i status (rc, g) =
    if rc == perfexpert_success
    then (perfexpert_success, record g { modules = set_status g.modules i status })
    else (perfexpert_error, g)

-- The bodies of the two loops, for the module at position `i`.
unfoldable pub init_one : Library → ℕ → PerfexpertModule → ModuleGlobals → ℕ × ModuleGlobals
init_one lib i m g = elim m.status [
  | initialized ↦ (perfexpert_success, g)
  | finalized ↦ (perfexpert_error, g)
  | loaded ↦ called i initialized (lib.init m.name g)
]

unfoldable pub fini_one : Library → ℕ → PerfexpertModule → ModuleGlobals → ℕ × ModuleGlobals
fini_one lib i m g = elim m.status [
  | finalized ↦ (perfexpert_success, g)
  | _ ↦ called i finalized (lib.fini m.name g)
]

-- The loop from position `i` on, which a body's error ends. `none` is fuel that ran out.
unfoldable pub each_module :
    (ℕ → PerfexpertModule → ModuleGlobals → ℕ × ModuleGlobals)
    → (fuel i : ℕ) → ModuleGlobals
    → Option (ℕ × ModuleGlobals)
each_module body zero i g = none
each_module body (suc fuel) i g = elim (get_elem? g.modules i) [
  | none ↦ some (perfexpert_success, g)
  | some m ↦
      let (rc, g') = body i m g in
      let rest = each_module body fuel (i + 1) g' in
      if rc == perfexpert_success then rest else some (perfexpert_error, g')
]

unfoldable pub perfexpert_module_init :
    Library → (fuel : ℕ) → ModuleGlobals → Option (ℕ × ModuleGlobals)
perfexpert_module_init lib fuel g = each_module (init_one lib) fuel 0 g

unfoldable pub perfexpert_module_fini :
    Library → (fuel : ℕ) → ModuleGlobals → Option (ℕ × ModuleGlobals)
perfexpert_module_fini lib fuel g = each_module (fini_one lib) fuel 0 g
