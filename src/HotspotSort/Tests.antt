-- ===== src/HotspotSort/Tests.antt =====
-- Three hotspots with whole numbers for values, sorted by insertion, on which the theorem on
-- modules/lcpi/lcpi_sort.c is applied.
use mathlib.Core.List.{Perm}
use mathlib.Core.List.Perm
use perfexpert.Prelude.{ℕ, ◌*◌, Bool, true, false, List, [], ◌∷◌, ltb, ◌==◌, if◌then◌else◌}
use perfexpert.HotspotSort.{Doubles, Sign, greater, less, same, unanswered, Hotspot, LcpiProfile}

abbrev is_greater : Sign → Bool
is_greater greater = true
is_greater less = false
is_greater same = false
is_greater unanswered = false

module _ {D : Type 0} (cmp : Hotspot D → Hotspot D → Sign) where
  place : Hotspot D → List (Hotspot D) → List (Hotspot D)
  place x [] = x ∷ []
  place x (y ∷ ys) = if is_greater (cmp x y) then y ∷ place x ys else x ∷ y ∷ ys

  place_all : List (Hotspot D) → List (Hotspot D)
  place_all [] = []
  place_all (x ∷ xs) = place x (place_all xs)

abbrev whole : Doubles ℕ
whole = record {
  gt = λ a b. ltb b a;
  lt = ltb;
  eq = ◌==◌;
  isnan = λ a. false;
  isinf = λ a. false;
  mul = ◌*◌;
}

abbrev hot : ℕ → Hotspot ℕ
hot n = record { name = "f"; importance = n; overall = 1 }

abbrev three : LcpiProfile ℕ
three = record { name = "a.out"; hotspots = hot 5 ∷ hot 2 ∷ hot 3 ∷ [] }
