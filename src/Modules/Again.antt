-- ===== src/Modules/Again.antt =====
-- Loading a module that is loaded.
use Prim.Native.String.{String}
use text.Mathlib.TextEquality.{eq_iff}
use perfexpert.Prelude.{
  ℕ, ◌≡◌, refl, true, ◌&&◌, List, [], ◌∷◌, ◌++◌, ◌==◌, if_both, option_both, arith,
}
use perfexpert.CString.{perfexpert_success}
use perfexpert.Modules.{PerfexpertModule, Symbols, ModuleGlobals, Library}
use perfexpert.Modules.Load.{
  is_available, new_module, finish_load, link_phases, link_module, perfexpert_module_load,
}

is_available-new :
    (ms : List PerfexpertModule) (name : String) (s : Symbols)
    → is_available (ms ++ new_module name s ∷ []) name ≡ true
unfolding is_available new_module
is_available-new [] name s = rw ((eq_iff name name).1 refl) refl
is_available-new (m ∷ ms) name s = ground (arith, is_available-new ms name s)

-- If the answer is success, the module is in the table.
abbrev IsThere : String → ℕ × ModuleGlobals → Type 0
IsThere name r = r.0 ≡ 0 → is_available r.1.modules name ≡ true

finish_load-IsThere :
    (name : String) (s : Symbols) (r : ℕ × ModuleGlobals) → IsThere name (finish_load name s r)
unfolding finish_load
finish_load-IsThere name s (rc, g) =
    if_both (IsThere name) (rc == perfexpert_success) (λ _ _. is_available-new g.modules name s)
      (λ _ e. absurd (omega arith))

link_module-IsThere :
    (lib : Library) (name : String) (s : Symbols) (g : ModuleGlobals)
    → IsThere name (link_module lib name s g)
unfolding link_module
link_module-IsThere lib name s g =
    let There = IsThere name in
    if_both There (s.module_version && (s.module_load && (s.module_init && s.module_fini)))
      (λ _.
        if_both There ((link_phases (new_module name s) g.steps).0 == 0)
          (λ _. finish_load-IsThere name s _) (λ _ e. absurd (omega arith)))
      (λ _ e. absurd (omega arith))

perfexpert_module_load-IsThere :
    (lib : Library) (name : String) (g : ModuleGlobals)
    → IsThere name (perfexpert_module_load lib name g)
unfolding perfexpert_module_load
perfexpert_module_load-IsThere lib name g =
    let There = IsThere name in
    if_both There (is_available g.modules name) (λ there _. there)
      (λ _.
        option_both There (lib.search name) (λ _ e. absurd (omega arith))
          (λ s _.
            if_both There s.myself_module (λ _. link_module-IsThere lib name s g)
              (λ _ e. absurd (omega arith))))

perfexpert_module_load-there :
    (lib : Library) (name : String) (g : ModuleGlobals)
    → is_available g.modules name ≡ true
    → perfexpert_module_load lib name g ≡ (perfexpert_success, g)
unfolding perfexpert_module_load
perfexpert_module_load-there lib name g there = rw (there, perfexpert_module_load) refl

-- After a load that answers success, whatever the module's own load function did to the lists,
-- loading the module again answers success and changes nothing.
pub perfexpert_module_load-again :
    (lib : Library) (name : String) (g : ModuleGlobals)
    → (perfexpert_module_load lib name g).0 ≡ perfexpert_success
    → perfexpert_module_load lib name (perfexpert_module_load lib name g).1
      ≡ (perfexpert_success, (perfexpert_module_load lib name g).1)
perfexpert_module_load-again lib name g done =
    perfexpert_module_load-there lib name (perfexpert_module_load lib name g).1
      (perfexpert_module_load-IsThere lib name g done)
