-- ===== src/HotspotSort/Sorted.antt =====
-- What hotspot_sort of modules/lcpi/lcpi_sort.c does to the first profile, and to the second.
use Prim.Native.String.{String}
use mathlib.Core.List.{Perm}
use perfexpert.Prelude.{ℕ, ◌<◌, ◌≡◌, ◌≢◌, ◌⊎◌, Option, none, some, List, [], ◌∷◌, length, replicate}
use perfexpert.Outcome.{Outcome, ok, fault}
use perfexpert.CString.{perfexpert_success}
use perfexpert.HotspotSort.{Doubles, Sign, greater, Hotspot, LcpiProfile}

module _ {ℓ} {A : Type ℓ} where
  -- The array while it is filled: the items so far, and `n` places that were not written.
  abbrev partly : (items : List A) (n : ℕ) → List (Option A)
  partly [] n = replicate n none
  partly (x ∷ xs) n = some x ∷ partly xs n

-- The answers of the comparison order all hotspots.
pub record IsOrder {D : Type 0} (cmp : Hotspot D → Hotspot D → Sign) : Type 0 where
  pub total : (a b : Hotspot D) → (cmp a b ≢ greater) ⊎ (cmp b a ≢ greater)
  pub trans : (a b c : Hotspot D) → cmp a b ≢ greater → cmp b c ≢ greater → cmp a c ≢ greater

-- No hotspot is greater than the next one.
abbrev pub InOrder : {D : Type 0} → (Hotspot D → Hotspot D → Sign) → List (Hotspot D) → Type 0
InOrder cmp [] = Unit
InOrder cmp (a ∷ []) = Unit
InOrder cmp (a ∷ b ∷ hs) = (cmp a b ≢ greater) × InOrder cmp (b ∷ hs)

-- What the C library promises of `qsort`.
abbrev pub IsQsort :
    {D : Type 0} → ((Hotspot D → Hotspot D → Sign) → List (Hotspot D) → List (Hotspot D)) → Type 0
IsQsort {D} qsort =
    (cmp : Hotspot D → Hotspot D → Sign) (hs : List (Hotspot D))
    → IsOrder cmp
    → Perm hs (qsort cmp hs) × InOrder cmp (qsort cmp hs)

-- The second profile, if there is one, has no hotspots, or it has some.
abbrev pub EndsEmpty : {D : Type 0} → List (LcpiProfile D) → Type 0
EndsEmpty [] = Unit
EndsEmpty (q ∷ qs) = length q.hotspots ≡ 0

abbrev pub GoesOn : {D : Type 0} → List (LcpiProfile D) → Type 0
GoesOn [] = ⊥
GoesOn (q ∷ qs) = 0 < length q.hotspots

module _ {D : Type 0} (d : Doubles D)
    (qsort : (Hotspot D → Hotspot D → Sign) → List (Hotspot D) → List (Hotspot D)) where
  -- What becomes of profiles the first of which has hotspots: it is sorted and the others stay, if the
  -- second one, should there be one, has none; a write out of bounds, if it has some.
  abbrev pub IsSorted :
      (Hotspot D → Hotspot D → Sign)
      → LcpiProfile D
      → List (LcpiProfile D)
      → Outcome (ℕ × List (LcpiProfile D))
      → Type 0
  IsSorted cmp p ps r =
      (EndsEmpty ps
        × ((hs : List (Hotspot D)) × (r ≡ ok (perfexpert_success, record p { hotspots = hs } ∷ ps))
            × Perm p.hotspots hs
            × InOrder cmp hs))
      ⊎ (GoesOn ps × (r ≡ fault))
