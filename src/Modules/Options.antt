-- ===== src/Modules/Options.antt =====
-- Where perfexpert_module_set_option stores an option, and when it writes out of bounds.
use Prim.Native.String.{String}
use text.Mathlib.Text.{◌==◌ as str_eq}
use text.Mathlib.TextEquality.{eq_iff}
use perfexpert.Prelude.{
  ℕ, ◌≤◌, ◌<◌, ◌≡◌, ◌≢◌, ◌⊎◌, inl, inr, refl, subst, true, false, Bool-cases, some, List, [], ◌∷◌,
  ◌++◌, length, ltb, arith,
}
use perfexpert.Outcome.{Outcome, ok, fault}
use perfexpert.CString.{perfexpert_success}
use perfexpert.Modules.{PerfexpertModule, ModuleGlobals, Library}
use perfexpert.Modules.Load.{
  find_module, is_available, perfexpert_module_get, perfexpert_module_available, fulloption,
  max_arguments_count, add_argument, store_option, perfexpert_module_set_option,
}

-- The argument is behind the others of the first module of the name, and a module of another name is
-- found as before; or there was no room for it.
abbrev pub IsStored :
    (name other argument : String)
    → PerfexpertModule
    → List PerfexpertModule
    → Outcome (List PerfexpertModule)
    → Type 0
IsStored name other argument m ms r =
    ((ms' : List PerfexpertModule) × (r ≡ ok ms')
      × (length m.argv < max_arguments_count)
      × (find_module ms' name ≡ some (record m { argv = m.argv ++ argument ∷ [] }))
      × (find_module ms' other ≡ find_module ms other))
    ⊎ ((r ≡ fault) × (max_arguments_count ≤ length m.argv))

add_argument-head :
    (x : PerfexpertModule) (xs : List PerfexpertModule) (name other argument : String)
    → other ≢ name
    → str_eq name x.name ≡ true
    → IsStored name other argument x (x ∷ xs) (add_argument (x ∷ xs) name argument)
unfolding find_module add_argument
add_argument-head x xs name other argument different this =
    let apart : str_eq other x.name ≡ false =
      ground (arith, eq_iff name x.name, eq_iff other x.name) in
    elim (Bool-cases (ltb (length x.argv) max_arguments_count)) [
      | inl room ↦ inl (
        record x { argv = x.argv ++ argument ∷ [] } ∷ xs,
        ground arith,
        ground arith,
        ground arith,
        ground arith,
      )
      | inr full ↦ inr (ground arith, ground arith)
    ]

add_argument-tail :
    (x : PerfexpertModule) (xs : List PerfexpertModule) (name other argument : String)
    (m : PerfexpertModule)
    → str_eq name x.name ≡ false
    → IsStored name other argument m xs (add_argument xs name argument)
    → IsStored name other argument m (x ∷ xs) (add_argument (x ∷ xs) name argument)
unfolding find_module add_argument
add_argument-tail x xs name other argument m not_this (inl (ms', e, room, stored, kept)) =
    inl (x ∷ ms', ground arith, room, ground arith, ground arith)
add_argument-tail x xs name other argument m not_this (inr (e, full)) = inr (ground arith, full)

add_argument-IsStored :
    (ms : List PerfexpertModule) (name other argument : String) (m : PerfexpertModule)
    → other ≢ name
    → find_module ms name ≡ some m
    → IsStored name other argument m ms (add_argument ms name argument)
unfolding find_module
add_argument-IsStored [] name other argument m different found = cc
add_argument-IsStored (x ∷ xs) name other argument m different found =
    elim (Bool-cases (str_eq name x.name)) [
      | inl this ↦
          let same : x ≡ m = ground arith in
          subst (λ u. IsStored name other argument u (x ∷ xs) (add_argument (x ∷ xs) name argument))
            same (add_argument-head x xs name other argument different this)
      | inr not_this ↦
          add_argument-tail x xs name other argument m not_this
            (add_argument-IsStored xs name other argument m different (ground arith))
    ]

is_available-found :
    (ms : List PerfexpertModule) (name : String) (m : PerfexpertModule)
    → find_module ms name ≡ some m
    → is_available ms name ≡ true
unfolding find_module is_available
is_available-found [] name m found = cc
is_available-found (x ∷ xs) name m found = ground (arith, is_available-found xs name m)

-- What setting an option comes to: success with the option, "--" before it, behind the arguments of
-- the module and nothing else changed, or a write out of bounds.
abbrev pub IsOptionSet :
    (name other option : String)
    → PerfexpertModule
    → ModuleGlobals
    → Outcome (ℕ × ModuleGlobals)
    → Type 0
IsOptionSet name other option m g r =
    ((ms : List PerfexpertModule) × (r ≡ ok (perfexpert_success, record g { modules = ms }))
      × (length m.argv < max_arguments_count)
      × (find_module ms name ≡ some (record m { argv = m.argv ++ fulloption option ∷ [] }))
      × (find_module ms other ≡ find_module g.modules other))
    ⊎ ((r ≡ fault) × (max_arguments_count ≤ length m.argv))

-- Setting an option of a loaded module succeeds if the module has fewer than 128 arguments: then
-- the option stands behind them, with two dashes before it, the steps stay, and a module of
-- another name is found as before. From 128 arguments on it is written behind the end of the
-- array.
pub perfexpert_module_set_option-IsOptionSet :
    (lib : Library) (name other option : String) (g : ModuleGlobals) (m : PerfexpertModule)
    → other ≢ name
    → find_module g.modules name ≡ some m
    → IsOptionSet name other option m g (perfexpert_module_set_option lib name option g)
unfolding perfexpert_module_set_option perfexpert_module_available store_option
    perfexpert_module_get
perfexpert_module_set_option-IsOptionSet lib name other option g m different found =
    rw (is_available-found g.modules name m found)
      (elim (add_argument-IsStored g.modules name other (fulloption option) m different found) [
        | inl (ms, e, room, stored, kept) ↦
            inl (ms, rw (found, store_option) (rw (e, store_option) refl), room, stored, kept)
        | inr (e, full) ↦ inr (rw (found, store_option) (rw (e, store_option) refl), full)
      ])
