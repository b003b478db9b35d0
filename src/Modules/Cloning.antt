-- ===== src/Modules/Cloning.antt =====
-- Where perfexpert_module_requires puts the clone of a step that A requires behind itself.
use Prim.Native.String.{String}
use perfexpert.Prelude.{ℕ, ◌+◌, ◌≡◌, true, some, List, length, get_elem?, ◌==◌, if◌then◌else◌}
use perfexpert.Modules.{Phase, same_phase, PerfexpertStep}
use perfexpert.Modules.Steps.{insert_at}
use perfexpert.Modules.Requires.{is_step}

-- What a call with `CLONE_AFTER` does, if it succeeds.
abbrev pub IsCloned : String → Phase → Phase → List PerfexpertStep → List PerfexpertStep → Type 0
IsCloned a pa pb items items' =
    (i j : ℕ) × (sa sb : PerfexpertStep) × (get_elem? items i ≡ some sa)
    × (is_step sa a pa ≡ true)
    × (get_elem? items j ≡ some sb)
    × (same_phase sb.phase pb ≡ true)
    × (items' ≡ (if i + 1 == length items then items else insert_at (i + 1) sb items))
