-- ===== src/Macpo/Stack.antt =====
-- The distances of `avl_tree` (tools/macpo/common/avl_tree.h): the positions in the order of last use.
use perfexpert.Prelude.{
  ℕ, suc, ◌==◌, ◌≡◌, ◌≢◌, ◌∙◌, refl, ap, inl, inr, Bool-cases, Option, none, some, List, [], ◌∷◌,
  ◌++◌, map, length-append, arith,
}
use perfexpert.CacheSim.Reuse.Ages.{remove}
use perfexpert.CacheSim.Reuse.Recency.{touch, recency, index}
use perfexpert.Links.Chain.{Absent, IsDistinct}
use perfexpert.Macpo.Words.{addr_to_cache_line, no_distance, erase_found, behind_found}
use perfexpert.Macpo.AvlTree.{insert, get_distance}

-- The lines of a history, the one used last behind the others.
abbrev pub reversed : List ℕ → List ℕ
reversed [] = []
reversed (x ∷ xs) = reversed xs ++ x ∷ []

Absent-append : (x y : ℕ) (xs : List ℕ) → Absent x xs → x ≢ y → Absent x (xs ++ y ∷ [])
Absent-append x y [] absent other = (other, tt)
Absent-append x y (z ∷ xs) (away, absent) other = (away, Absent-append x y xs absent other)

Absent-reversed : (x : ℕ) (xs : List ℕ) → Absent x xs → Absent x (reversed xs)
Absent-reversed x [] absent = tt
Absent-reversed x (y ∷ xs) (away, absent) =
    Absent-append x y (reversed xs) (Absent-reversed x xs absent) away

Absent-remove : (x y : ℕ) (xs : List ℕ) → Absent x xs → Absent x (remove y xs)
unfolding remove
Absent-remove x y [] absent = tt
Absent-remove x y (z ∷ xs) (away, absent) = elim (Bool-cases (y == z)) [
  | inl e ↦ rw e absent
  | inr e ↦ rw e (away, Absent-remove x y xs absent)
]

Absent-remove_self : (x : ℕ) (xs : List ℕ) → IsDistinct xs → Absent x (remove x xs)
unfolding remove
Absent-remove_self x [] distinct = tt
Absent-remove_self x (y ∷ xs) (away, distinct) = elim (Bool-cases (x == y)) [
  | inl e ↦ rw e (let same : y ≡ x = ground arith in rw (← same) away)
  | inr e ↦ rw e (ground arith, Absent-remove_self x xs distinct)
]

IsDistinct-remove : (x : ℕ) (xs : List ℕ) → IsDistinct xs → IsDistinct (remove x xs)
unfolding remove
IsDistinct-remove x [] distinct = tt
IsDistinct-remove x (y ∷ xs) (away, distinct) = elim (Bool-cases (x == y)) [
  | inl e ↦ rw e distinct
  | inr e ↦ rw e (Absent-remove y x xs away, IsDistinct-remove x xs distinct)
]

pub IsDistinct-recency :
    (lines trace : List ℕ) → IsDistinct lines → IsDistinct (recency lines trace)
unfolding recency touch
IsDistinct-recency lines [] distinct = distinct
IsDistinct-recency lines (x ∷ trace) distinct =
    IsDistinct-recency (touch x lines) trace
      (Absent-remove_self x lines distinct, IsDistinct-remove x lines distinct)

-- What the two searches make of a line that is appended.
erase_found-append :
    (x y : ℕ) (zs : List ℕ) → x ≢ y → erase_found x (zs ++ y ∷ []) ≡ erase_found x zs ++ y ∷ []
unfolding erase_found
erase_found-append x y [] other = ground arith
erase_found-append x y (z ∷ zs) other = ground (arith, erase_found-append x y zs other)

erase_found-append_self : (x : ℕ) (zs : List ℕ) → Absent x zs → erase_found x (zs ++ x ∷ []) ≡ zs
unfolding erase_found
erase_found-append_self x [] absent = ground arith
erase_found-append_self x (z ∷ zs) (away, absent) =
    ground (arith, erase_found-append_self x zs absent)

behind_found-append :
    (x y : ℕ) (zs : List ℕ)
    → x ≢ y
    → behind_found x (zs ++ y ∷ [])
      ≡ elim (behind_found x zs) [ none ↦ none | some d ↦ some (suc d) ]
unfolding behind_found
behind_found-append x y [] other = ground arith
behind_found-append x y (z ∷ zs) other =
    ground (arith, behind_found-append x y zs other, length-append zs (y ∷ []))

behind_found-append_self :
    (x : ℕ) (zs : List ℕ) → Absent x zs → behind_found x (zs ++ x ∷ []) ≡ some 0
unfolding behind_found
behind_found-append_self x [] absent = ground arith
behind_found-append_self x (z ∷ zs) (away, absent) =
    ground (arith, behind_found-append_self x zs absent)

erase_found-reversed :
    (x : ℕ) (xs : List ℕ) → IsDistinct xs → erase_found x (reversed xs) ≡ reversed (remove x xs)
unfolding erase_found remove
erase_found-reversed x [] distinct = refl
erase_found-reversed x (y ∷ xs) (away, distinct) = elim (Bool-cases (x == y)) [
  | inl e ↦
      let same : x ≡ y = ground arith in
      rw e (rw same (erase_found-append_self y (reversed xs) (Absent-reversed y xs away)))
  | inr e ↦ rw e (
      erase_found-append x y (reversed xs) (ground arith)
      ∙ ap (λ zs. zs ++ y ∷ []) (erase_found-reversed x xs distinct))
]

behind_found-reversed :
    (x : ℕ) (xs : List ℕ) → IsDistinct xs → behind_found x (reversed xs) ≡ index x xs
unfolding behind_found index
behind_found-reversed x [] distinct = refl
behind_found-reversed x (y ∷ xs) (away, distinct) = elim (Bool-cases (x == y)) [
  | inl e ↦
      let same : x ≡ y = ground arith in
      rw e (rw same (behind_found-append_self y (reversed xs) (Absent-reversed y xs away)))
  | inr e ↦ rw e (
      behind_found-append x y (reversed xs) (ground arith)
      ∙ ap (λ o. elim o as (λ z. Option ℕ) [ none ↦ none | some d ↦ some (suc d) ])
          (behind_found-reversed x xs distinct))
]

abbrev pub insert_all : List ℕ → (addresses : List ℕ) → List ℕ
insert_all tree [] = tree
insert_all tree (address ∷ rest) = insert_all (insert address tree) rest

insert_all-reversed :
    (lines addresses : List ℕ)
    → IsDistinct lines
    → insert_all (reversed lines) addresses
      ≡ reversed (recency lines (map addr_to_cache_line addresses))
unfolding recency touch insert
insert_all-reversed lines [] distinct = refl
insert_all-reversed lines (address ∷ rest) distinct =
    let line = addr_to_cache_line address in
    rw (erase_found-reversed line lines distinct) (
      insert_all-reversed (line ∷ remove line lines) rest
        (Absent-remove_self line lines distinct, IsDistinct-remove line lines distinct))

-- The distance that is reported for a position.
abbrev pub as_distance : Option ℕ → ℕ
as_distance none = no_distance
as_distance (some d) = d

get_distance-behind_found :
    (line : ℕ) (lines : List ℕ) → get_distance line lines ≡ as_distance (behind_found line lines)
unfolding get_distance
get_distance-behind_found line lines = ground arith

-- One access to a tree, and the distance in it.
pub IsDistinct-touch : (x : ℕ) (lines : List ℕ) → IsDistinct lines → IsDistinct (touch x lines)
unfolding touch
IsDistinct-touch x lines distinct =
    (Absent-remove_self x lines distinct, IsDistinct-remove x lines distinct)

pub insert-reversed :
    (address : ℕ) (lines : List ℕ)
    → IsDistinct lines
    → insert address (reversed lines) ≡ reversed (touch (addr_to_cache_line address) lines)
unfolding touch insert
insert-reversed address lines distinct =
    rw (erase_found-reversed (addr_to_cache_line address) lines distinct) refl

pub get_distance-reversed :
    (line : ℕ) (lines : List ℕ)
    → IsDistinct lines
    → get_distance line (reversed lines) ≡ as_distance (index line lines)
get_distance-reversed line lines distinct =
    get_distance-behind_found line (reversed lines)
    ∙ ap as_distance (behind_found-reversed line lines distinct)

-- After any accesses to an empty avl_tree, get_distance of a line is its position in the list of
-- lines in order of last use, and -1 as a size_t for a line that was never accessed.
pub insert_all-distance :
    (addresses : List ℕ) (line : ℕ)
    → get_distance line (insert_all [] addresses)
      ≡ as_distance (index line (recency [] (map addr_to_cache_line addresses)))
insert_all-distance addresses line =
    let lines = recency [] (map addr_to_cache_line addresses) in
    let distinct = IsDistinct-recency [] (map addr_to_cache_line addresses) tt in
    ap (get_distance line) (insert_all-reversed [] addresses tt)
    ∙ get_distance-reversed line lines distinct
