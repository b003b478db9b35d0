-- ===== src/Modules/Loading.antt =====
-- Which steps perfexpert_module_load adds to the workflow, and in which order.
use Prim.Native.String.{String}
use perfexpert.Prelude.{
  ℕ, ◌+◌, ◌^◌, ◌<◌, ◌≡◌, ◌∙◌, refl, true, false, ◌&&◌, some, List, [], ◌∷◌, ◌++◌, length, ◌==◌,
  if◌then◌else◌, if_true, arith,
}
use perfexpert.CString.{perfexpert_success}
use perfexpert.Modules.{compile, Symbols, PerfexpertStep, ModuleGlobals, Library}
use perfexpert.Modules.Steps.{compiler_present}
use perfexpert.Modules.Load.{
  link_phases, link_module, finish_load, new_module, is_available, perfexpert_module_load,
}
use perfexpert.Modules.Linking.{
  IsUnnamed, step_if, later_steps, link_phases-first, link_phases-second,
}

-- The library has all the symbols that every module must have.
abbrev pub IsComplete : Symbols → Type 0
IsComplete s =
    (s.myself_module ≡ true)
    × ((s.module_version && (s.module_load && (s.module_init && s.module_fini))) ≡ true)

-- What a load of a complete module comes to, if its load function leaves the lists alone.
loaded_globals : String → Symbols → ModuleGlobals → ℕ × ModuleGlobals
loaded_globals name s g =
    let (rc, steps) = link_phases (new_module name s) g.steps in
    if rc == perfexpert_success
    then (0, record { modules = g.modules ++ new_module name s ∷ []; steps = steps })
    else (1, record g { steps = steps })

module _ (lib : Library) (name : String) (s : Symbols) (g : ModuleGlobals)
    (fresh : is_available g.modules name ≡ false) (found : lib.search name ≡ some s)
    (complete : IsComplete s) (quiet : (g' : ModuleGlobals) → lib.load name g' ≡ (0, g')) where
  perfexpert_module_load-loaded_globals :
      perfexpert_module_load lib name g ≡ loaded_globals name s g
  unfolding perfexpert_module_load link_module loaded_globals finish_load
  perfexpert_module_load-loaded_globals =
      rw (fresh, perfexpert_module_load)
        (rw (found, perfexpert_module_load)
          (if_true s.myself_module _ _ complete.0 ∙ (if_true _ _ _ complete.1 ∙ rw (quiet _) refl)))

  -- Loading a module that is not in the table, whose library has the symbols that every module
  -- must have, and whose load function succeeds and leaves the lists alone, succeeds where the
  -- list of steps holds no compile step and no step of the module's name: it appends the module
  -- to the table and puts the steps of the phases that it implements before all others, in the
  -- order compile, instrument, measure, analyze, recommend.
  pub perfexpert_module_load-first :
      compiler_present g.steps.items ≡ false
      → IsUnnamed name g.steps.items
      → ((perfexpert_module_load lib name g).0 ≡ 0)
        × ((perfexpert_module_load lib name g).1.modules ≡ g.modules ++ new_module name s ∷ [])
        × ((perfexpert_module_load lib name g).1.steps.items
            ≡ step_if s.module_compile (new_module name s) compile
              ++ (later_steps (new_module name s) ++ g.steps.items))
  unfolding loaded_globals new_module
  perfexpert_module_load-first absent unnamed =
      let (done, order) =
        link_phases-first (new_module name s) g.steps.items g.steps.length
          (absent, λ q _. unnamed q) in
      rw perfexpert_module_load-loaded_globals (rw done (refl, refl, order))

  -- Loading a module that is not in the table, whose library has the symbols that every module
  -- must have, and whose load function succeeds and leaves the lists alone, where the list of
  -- steps is counted right, shorter than 2^64 - 5, starts with a compile step and holds no step
  -- of the module's name, puts its steps but the compile step directly behind that one, in the
  -- order instrument, measure, analyze, recommend. If it has a compile phase of its own the
  -- answer is an error and the module is not appended to the table, but those steps stay;
  -- otherwise it is success and the module is appended.
  pub perfexpert_module_load-second :
      (c : PerfexpertStep) (rest : List PerfexpertStep)
      → g.steps ≡ record { items = c ∷ rest; length = length (c ∷ rest) }
      → length (c ∷ rest) + 5 < 2 ^ 64
      → compiler_present (c ∷ rest) ≡ true
      → IsUnnamed name (c ∷ rest)
      → ((perfexpert_module_load lib name g).0 ≡ (if s.module_compile then 1 else 0))
        × ((perfexpert_module_load lib name g).1.modules
            ≡ (if s.module_compile then g.modules else g.modules ++ new_module name s ∷ []))
        × ((perfexpert_module_load lib name g).1.steps.items
            ≡ c ∷ (later_steps (new_module name s) ++ rest))
  unfolding loaded_globals new_module
  perfexpert_module_load-second c rest listed room present unnamed =
      let (answer, order) =
        link_phases-second (new_module name s) c rest (length (c ∷ rest)) refl room
          (present, λ q _. unnamed q) in
      rw perfexpert_module_load-loaded_globals
        (rw (listed, answer) (ground arith, ground arith, ground (arith, order)))
