-- ===== src/Macpo/AvlTree.antt =====
-- tools/macpo/common/avl_tree.h: the class is a vector of cache lines, the one accessed last at its end.
use perfexpert.Prelude.{ℕ, none, some, List, [], ◌∷◌, ◌++◌}
use perfexpert.Macpo.Words.{addr_to_cache_line, no_distance, erase_found, behind_found}

unfoldable pub insert : (address : ℕ) → List ℕ → List ℕ
insert address lines =
    erase_found (addr_to_cache_line address) lines ++ addr_to_cache_line address ∷ []

unfoldable pub get_distance : (cache_line : ℕ) → List ℕ → ℕ
get_distance line lines = elim (behind_found line lines) [ none ↦ no_distance | some d ↦ d ]

unfoldable pub make_infinite_distance : (cache_line : ℕ) → List ℕ → List ℕ
make_infinite_distance line lines = erase_found line lines

unfoldable pub destroy : List ℕ → List ℕ
destroy lines = []
