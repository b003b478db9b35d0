-- ===== src/Macpo/Words.antt =====
-- tools/macpo/common: cache lines, vectors of them, and words of the types of C++. A
-- std::unordered_map is a function.
use perfexpert.Prelude.{
  ℕ, ◌+◌, ◌-◌, ◌/◌, ◌%◌, ◌^◌, ◌==◌, ltb, if◌then◌else◌, Bool, Option, none, some, List, [], ◌∷◌,
  length,
}

-- `ADDR_TO_CACHE_LINE`
abbrev pub addr_to_cache_line : ℕ → ℕ
addr_to_cache_line address = address / 2 ^ 6

-- `-1` as a `size_t`.
abbrev pub no_distance : ℕ
no_distance = 2 ^ 64 - 1

-- `vector::erase` at the place that `std::find` finds.
unfoldable pub erase_found : ℕ → List ℕ → List ℕ
erase_found line [] = []
erase_found line (x ∷ xs) = if x == line then xs else x ∷ erase_found line xs

-- `end() - it - 1` for the place that `std::find` finds.
unfoldable pub behind_found : ℕ → List ℕ → Option ℕ
behind_found line [] = none
behind_found line (x ∷ xs) = if x == line then some (length xs) else behind_found line xs

-- An `int` is its pattern of 32 bits: from a `uint64_t`, as a `uint64_t`, compared, and counted up.
abbrev pub to_int : ℕ → ℕ
to_int n = n % 2 ^ 32

abbrev pub widen : ℕ → ℕ
widen i = if ltb i (2 ^ 31) then i else i + (2 ^ 64 - 2 ^ 32)

abbrev pub int_lt : ℕ → ℕ → Bool
int_lt i j = ltb ((i + 2 ^ 31) % 2 ^ 32) ((j + 2 ^ 31) % 2 ^ 32)

abbrev pub int_inc : ℕ → ℕ
int_inc i = (i + 1) % 2 ^ 32

-- `m - n` on a `uint64_t`.
abbrev pub sub64 : ℕ → ℕ → ℕ
sub64 m n = (m + (2 ^ 64 - n)) % 2 ^ 64

unfoldable pub store {ℓ} : {A : Type ℓ} → (ℕ → Option A) → (at : ℕ) → A → ℕ → Option A
store f at value x = if x == at then some value else f x

abbrev pub or_zero : Option ℕ → ℕ
or_zero none = 0
or_zero (some n) = n

-- `map[at]` makes an entry of zero, if there is none.
unfoldable pub indexed : (ℕ → Option ℕ) → (at : ℕ) → ℕ → Option ℕ
unfolding store
indexed f at = store f at (or_zero (f at))
