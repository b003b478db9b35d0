-- ===== src/Modules.antt =====
-- modules/perfexpert_module_base.{c,h}: the table of loaded modules and the list of workflow steps
-- that they add to. A module's own code (its symbols, and what its functions do to the two
-- lists) is the parameter `Library`; the C strings are texts.
pub mod Steps
pub mod Load
pub mod Requires
pub mod Lifecycle
pub mod Driver
pub mod Compiler
pub mod Linking
pub mod Loading
pub mod Positions
pub mod Search
pub mod Moves
pub mod Reorder
pub mod Cloning
pub mod Options
pub mod Again
pub mod Status
pub mod Life
pub mod Run
pub mod Exit
mod Tests
use Prim.Native.String.{String}
use perfexpert.Prelude.{ℕ, ◌==◌, Bool, true, false, Option, none, some, List, []}

-- The sign of the codes is kept: `failure` is -1 and `undefined` is -2.
pub data StepStatus : Type 0 where
  undefined failure success error norec notrans : StepStatus

pub data ModuleStatus : Type 0 where
  loaded initialized finalized : ModuleStatus

pub data Phase : Type 0 where
  compile instrument measure analyze recommend undefined maximum : Phase

pub data Order : Type 0 where
  before after available first last clone_before clone_after : Order

-- The value of the enumerator, by which the source compares two phases.
abbrev pub phase_code : Phase → ℕ
phase_code compile = 0
phase_code instrument = 1
phase_code measure = 2
phase_code analyze = 3
phase_code recommend = 4
phase_code Phase.undefined = 5
phase_code maximum = 6

abbrev pub same_phase : Phase → Phase → Bool
same_phase p q = phase_code p == phase_code q

-- Which symbols `lt_dlsym` finds in a module's library.
pub record Symbols : Type 0 where
  pub myself_module : Bool
  pub module_version : Bool
  pub module_load : Bool
  pub module_init : Bool
  pub module_fini : Bool
  pub module_recommend : Bool
  pub module_analyze : Bool
  pub module_measure : Bool
  pub module_instrument : Bool
  pub module_compile : Bool

-- `perfexpert_module_t`; a phase's function pointer is whether it was found.
pub record PerfexpertModule : Type 0 where
  pub name : String
  pub status : ModuleStatus
  pub argv : List String
  pub symbols : Symbols

-- `perfexpert_step_t`; `function` names the module and phase whose function it points to.
pub record PerfexpertStep : Type 0 where
  pub owner : String
  pub phase : Phase
  pub status : StepStatus
  pub function : Option (String × Phase)
  pub name : String

-- A list of items and the counter of `perfexpert_list_t`, which can be off.
pub record StepList : Type 0 where
  pub items : List PerfexpertStep
  pub length : ℕ

pub record ModuleGlobals : Type 0 where
  pub modules : List PerfexpertModule
  pub steps : StepList

-- What the code of the modules does. `search` is `perfexpert_module_open`: libtool's search of
-- the library directory. The functions of a module may call this component, so they act on its
-- lists; a phase's function is given the number of its working directory.
pub record Library : Type 0 where
  pub search : String → Option Symbols
  pub load : String → ModuleGlobals → ℕ × ModuleGlobals
  pub init : String → ModuleGlobals → ℕ × ModuleGlobals
  pub fini : String → ModuleGlobals → ℕ × ModuleGlobals
  pub call : String → Phase → ℕ → StepStatus

-- `my_init`, which runs when the library is loaded.
unfoldable pub my_init : ModuleGlobals
my_init = record { modules = []; steps = record { items = []; length = 0 } }
