-- ===== src/CacheSim/Reuse/Recency.antt =====
-- The reuse list (lib/cache_sim/cache_sim_reuse.c) against the history of accesses: the age that
-- `cache_sim_reuse_get_age` reports is the number of other lines used since.
use perfexpert.Prelude.{
  ℕ, zero, suc, ◌+◌, ◌%◌, ◌^◌, ◌≡◌, ◌≢◌, refl, Option, none, some, List, [], ◌∷◌, ◌++◌, ◌==◌, ltb,
  if◌then◌else◌, replicate, take, arith, ap,
}
use perfexpert.CacheSim.Types.{ReuseItem, uint64_max}
use perfexpert.CacheSim.Reuse.{age_of}
use perfexpert.CacheSim.Reuse.Ages.{IsAged, ids, remove}

-- The lines of a history, the most recently used first, each once.
unfoldable pub touch : ℕ → List ℕ → List ℕ
unfolding remove
touch id lines = id ∷ remove id lines

unfoldable pub recency : List ℕ → List ℕ → List ℕ
recency lines [] = lines
recency lines (id ∷ trace) = recency (touch id lines) trace

-- The position of a line.
unfoldable pub index : ℕ → List ℕ → Option ℕ
index id [] = none
index id (x ∷ xs) =
    if id == x then some 0 else elim (index id xs) [ none ↦ none | some i ↦ some (suc i) ]

abbrev pub NoMax : List ℕ → Type 0
NoMax [] = Unit
NoMax (id ∷ trace) = (id ≢ uint64_max) × NoMax trace

take-take_self : (n : ℕ) (l : List ℕ) → take n (take n l) ≡ take n l
take-take_self zero l = refl
take-take_self (suc n) [] = refl
take-take_self (suc n) (x ∷ l) = ap (◌∷◌ x) (take-take_self n l)

take-remove-take :
    (n id : ℕ) (l : List ℕ) → take n (remove id (take (suc n) l)) ≡ take n (remove id l)
unfolding remove
take-remove-take zero id l = refl
take-remove-take (suc n) id [] = refl
take-remove-take (suc n) id (x ∷ l) =
    ground (arith, take-take_self (suc n) l, take-remove-take n id l)

-- To move a line to the front and keep `n`, the first `n` are all that matter.
pub take-touch-take : (n id : ℕ) (l : List ℕ) → take n (touch id (take n l)) ≡ take n (touch id l)
unfolding touch
take-touch-take zero id l = refl
take-touch-take (suc n) id l = ap (◌∷◌ id) (take-remove-take n id l)

remove-append_padding :
    (n id : ℕ) (l : List ℕ)
    → id ≢ uint64_max
    → remove id (l ++ replicate n uint64_max) ≡ remove id l ++ replicate n uint64_max
unfolding remove
remove-append_padding zero id [] h = refl
remove-append_padding (suc n) id [] h = ground (arith, remove-append_padding n id [] h)
remove-append_padding n id (x ∷ l) h = ground (arith, remove-append_padding n id l h)

pub index-append_padding :
    (n id : ℕ) (l : List ℕ) → id ≢ uint64_max → index id (l ++ replicate n uint64_max) ≡ index id l
unfolding index
index-append_padding zero id [] h = refl
index-append_padding (suc n) id [] h = ground (arith, index-append_padding n id [] h)
index-append_padding n id (x ∷ l) h = ground (arith, index-append_padding n id l h)

pub index-take :
    (n id : ℕ) (l : List ℕ)
    → index id (take n l)
      ≡ (elim (index id l) [ none ↦ none | some i ↦ if ltb i n then some i else none ])
unfolding index
index-take zero id [] = refl
index-take zero id (x ∷ l) = ground arith
index-take (suc n) id [] = refl
index-take (suc n) id (x ∷ l) = ground (arith, index-take n id l)

-- The age found for a line is its position, as a `uint16_t`.
pub age_of-index :
    (k id : ℕ) (items : List ReuseItem)
    → id ≢ uint64_max
    → IsAged k items
    → age_of items id
      ≡ (elim (index id (ids items)) [ none ↦ uint64_max | some i ↦ (k + i) % 2 ^ 16 ])
unfolding age_of index
age_of-index k id [] h aged = refl
age_of-index k id (item ∷ items) h aged =
    ground (arith, age_of-index (suc k) id items h aged.1, aged.0)

pub recency-append_padding :
    (n : ℕ) (l trace : List ℕ)
    → NoMax trace
    → recency (l ++ replicate n uint64_max) trace ≡ recency l trace ++ replicate n uint64_max
unfolding recency touch
recency-append_padding n l [] h = refl
recency-append_padding n l (id ∷ trace) h =
    rw (remove-append_padding n id l h.0) (recency-append_padding n (touch id l) trace h.1)
