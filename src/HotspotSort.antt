-- ===== src/HotspotSort.antt =====
-- modules/lcpi/lcpi_sort.c: the hotspots of each profile are sorted in the order that the options name.
-- A C `double` with its tests and the `qsort` of the C library are parameters.
pub mod Sorted
mod Tests
use Prim.Native.String.{String}
use text.Mathlib.Text.{◌==◌ as str_eq}
use perfexpert.Prelude.{
  ℕ, zero, suc, ◌+◌, ◌==◌, ltb, if◌then◌else◌, Bool, true, false, Option, none, some, List, [], ◌∷◌,
  length, set, take, replicate,
}
use perfexpert.Outcome.{Outcome, ok, fault, ◌>>=◌}
use perfexpert.CString.{perfexpert_success, perfexpert_error}

pub record Doubles (D : Type 0) : Type 0 where
  pub gt : D → D → Bool
  pub lt : D → D → Bool
  pub eq : D → D → Bool
  pub isnan : D → Bool
  pub isinf : D → Bool
  pub mul : D → D → D

-- The answers 1, -1 and 0 of a comparison; `unanswered` is the end of a comparison that returns nothing.
pub data Sign : Type 0 where
  greater less same unanswered : Sign

-- `lcpi_hotspot_t`: its name, its importance and the value of its metric "overall".
pub record Hotspot (D : Type 0) : Type 0 where
  pub name : String
  pub importance : D
  pub overall : D

pub record LcpiProfile (D : Type 0) : Type 0 where
  pub name : String
  pub hotspots : List (Hotspot D)

module _ {D : Type 0} (d : Doubles D) where
  unfoldable pub cmp_relevance : Hotspot D → Hotspot D → Sign
  cmp_relevance a b =
      if d.gt a.importance b.importance
      then greater
      else if d.lt a.importance b.importance
      then less
      else if d.eq a.importance b.importance
      then same
      else unanswered

  -- The first four tests of the other two comparisons, and what follows them.
  unfoldable pub cmp_special : Hotspot D → Hotspot D → Sign → Sign
  cmp_special a b rest =
      if d.isnan a.overall
      then greater
      else if d.isnan b.overall
      then less
      else if d.isinf a.overall
      then greater
      else if d.isinf b.overall
      then less
      else rest

  unfoldable pub cmp_descending : D → D → Sign
  cmp_descending x y =
      if d.gt x y then less else if d.lt x y then greater else if d.eq x y then same else unanswered

  unfoldable pub cmp_performance : Hotspot D → Hotspot D → Sign
  cmp_performance a b = cmp_special a b (cmp_descending a.overall b.overall)

  unfoldable pub cmp_mixed : Hotspot D → Hotspot D → Sign
  cmp_mixed a b =
      cmp_special a b (cmp_descending (d.mul a.overall a.importance) (d.mul b.overall b.importance))

  -- The table `orders`.
  unfoldable pub orders : String → Option (Hotspot D → Hotspot D → Sign)
  orders name =
      if str_eq name "relevance"
      then some cmp_relevance
      else if str_eq name "performance"
      then some cmp_performance
      else if str_eq name "mixed"
      then some cmp_mixed
      else none

-- `while ... items[index++] = item;`, which empties the list of hotspots.
unfoldable pub fill_items {ℓ} :
    {A : Type ℓ} → List A → List (Option A) → (index : ℕ) → Outcome (List (Option A) × ℕ)
fill_items [] items index = ok (items, index)
fill_items (h ∷ hs) items index =
    let rest = fill_items hs (set items index (some h)) (index + 1) in
    if ltb index (length items) then rest else fault

-- Reading pointers that were never written is a fault.
unfoldable pub written {ℓ} : {A : Type ℓ} → List (Option A) → Outcome (List A)
written [] = ok []
written (none ∷ items) = fault
written (some h ∷ items) = written items >>= λ hs. ok (h ∷ hs)

module _ {D : Type 0} (d : Doubles D)
    (qsort : (Hotspot D → Hotspot D → Sign) → List (Hotspot D) → List (Hotspot D))
    (memory : Bool) where
  -- The sorted hotspots of one profile, which is not empty, and the index behind the last item.
  unfoldable pub sort_hotspots :
      (Hotspot D → Hotspot D → Sign)
      → List (Hotspot D)
      → (index : ℕ) → Outcome (List (Hotspot D) × ℕ)
  sort_hotspots cmp hs index =
      fill_items hs (replicate (length hs) none) index
      >>= λ (filled : List (Option (Hotspot D)) × ℕ).
          written (take filled.1 filled.0) >>= λ items. ok (qsort cmp items, filled.1)

  -- The loop over the profiles. A profile with no hotspots ends the function with success.
  unfoldable pub sort_profiles :
      (Hotspot D → Hotspot D → Sign)
      → List (LcpiProfile D)
      → (index : ℕ) → Outcome (ℕ × List (LcpiProfile D))
  sort_profiles cmp [] index = ok (perfexpert_success, [])
  sort_profiles cmp (p ∷ ps) index =
      let sorted = sort_hotspots cmp p.hotspots index >>= λ (s : List (Hotspot D) × ℕ).
      sort_profiles cmp ps s.1 >>= λ (r : ℕ × List (LcpiProfile D)).
      ok (r.0, record p { hotspots = s.0 } ∷ r.1) in
      if length p.hotspots == 0
      then ok (perfexpert_success, p ∷ ps)
      else if memory
      then sorted
      else ok (perfexpert_error, p ∷ ps)

  unfoldable pub hotspot_sort :
      (order : String) → List (LcpiProfile D) → Outcome (ℕ × List (LcpiProfile D))
  hotspot_sort order profiles = elim (orders d order) [
    | none ↦ ok (perfexpert_success, profiles)
    | some cmp ↦ sort_profiles cmp profiles 0
  ]
