-- ===== src/Macpo/Distances.antt =====
-- The reuse distances that tools/macpo/libmrt/mrt.cpp counts for each variable of a running program, in the
-- variables of one thread. Numbers of variables are not negative, and a count does not reach 2^63.
use perfexpert.Prelude.{
  ℕ, ◌+◌, ◌*◌, ◌-◌, ◌/◌, ◌==◌, ltb, leb, ◌&&◌, if◌then◌else◌, Bool, Bool-cases, ==_refl, true,
  false, inl, inr, Option, none, some, List, [], ◌∷◌, ◌≡◌, ◌∙◌, refl, ap, arith,
}
use perfexpert.CacheSim.Reuse.Recency.{touch, index}
use perfexpert.Links.Chain.{IsDistinct}
use perfexpert.Macpo.Words.{addr_to_cache_line, store}
use perfexpert.Macpo.AvlTree.{insert, get_distance}
use perfexpert.Macpo.Histogram.{Hist, or_empty, find, get_bin, increment_bin}
use perfexpert.Macpo.Cells.{get_bin-assign}
use perfexpert.Macpo.Stack.{
  reversed, as_distance, IsDistinct-touch, insert-reversed, get_distance-reversed,
}

-- `DIST_INFINITY` and `MAX_VARIABLES`
abbrev pub dist_infinity : ℕ
dist_infinity = 40 * 1024 * 1024 / 64

abbrev pub max_variables : ℕ
max_variables = 32

-- `histogram_list` and `tree`
pub record Distances : Type 0 where
  pub histogram_list : ℕ → Option (Hist ℕ)
  pub tree : Option (List ℕ)

abbrev pub no_distances : Distances
no_distances = record { histogram_list = λ var. none; tree = none }

unfoldable pub indigo__reuse_dist_c :
    (sleeping : Bool) → (var_id address : ℕ) → Distances → Distances
indigo__reuse_dist_c sleeping var address s =
    let hist = or_empty (s.histogram_list var) in
    let lines = or_empty s.tree in
    let distance = get_distance (addr_to_cache_line address) lines in
    let bin = if leb dist_infinity distance then dist_infinity - 1 else distance in
    if sleeping then s else if leb max_variables var then s else record {
      histogram_list = store s.histogram_list var (increment_bin 0 (λ a b. a + b) hist bin 1).0;
      tree = some (insert address lines);
    }

-- The calls of a program, each with what `sleeping` is then.
unfoldable pub measured : List (Bool × ℕ × ℕ) → Distances → Distances
measured [] s = s
measured ((sleeping, var, address) ∷ rest) s =
    measured rest (indigo__reuse_dist_c sleeping var address s)

-- The count of a bin of a variable.
abbrev pub count_of : Distances → (var bin : ℕ) → ℕ
count_of s var bin = get_bin 0 (or_empty (s.histogram_list var)) bin

-- The bin of a position in the order of last use.
abbrev pub bin_of : (position : Option ℕ) → ℕ
bin_of none = dist_infinity - 1
bin_of (some d) = if ltb d dist_infinity then d else dist_infinity - 1

-- Whether a call counts, and how many of those for a variable lie in a bin.
abbrev pub counts : Bool × ℕ × ℕ → Bool
counts (sleeping, var, address) = if sleeping then false else ltb var max_variables

abbrev pub lines_after : Bool × ℕ × ℕ → List ℕ → List ℕ
lines_after c lines = if counts c then touch (addr_to_cache_line c.2) lines else lines

abbrev pub one_if : Bool → ℕ
one_if true = 1
one_if false = 0

abbrev pub number_of : (var bin : ℕ) → (lines : List ℕ) → List (Bool × ℕ × ℕ) → ℕ
number_of var bin lines [] = 0
number_of var bin lines (c ∷ rest) =
    one_if (counts c && (c.1 == var && bin_of (index (addr_to_cache_line c.2) lines) == bin))
    + number_of var bin (lines_after c lines) rest

-- The tree holds these lines.
abbrev IsTree : List ℕ → Distances → Type 0
IsTree lines s = IsDistinct lines × (or_empty s.tree ≡ reversed lines)

clipped :
    (position : Option ℕ)
    → (if leb dist_infinity (as_distance position) then dist_infinity - 1 else as_distance position)
      ≡ bin_of position
clipped none = refl
clipped (some d) = ground arith

step-IsTree :
    (c : Bool × ℕ × ℕ) (lines : List ℕ) (s : Distances)
    → IsTree lines s
    → IsTree (lines_after c lines) (indigo__reuse_dist_c c.0 c.1 c.2 s)
unfolding indigo__reuse_dist_c
step-IsTree (true, var, address) lines s h = h
step-IsTree (false, var, address) lines s (distinct, same) =
    elim (Bool-cases (ltb var max_variables)) [
      | inl e ↦ (
        rw e (IsDistinct-touch (addr_to_cache_line address) lines distinct),
        let few : leb max_variables var ≡ false = ground (arith, e) in
            rw (few, e, same) (insert-reversed address lines distinct),
      )
      | inr e ↦
          let many : leb max_variables var ≡ true = ground (arith, e) in
          rw (many, e) (distinct, same)
    ]

binned :
    (lines tree : List ℕ) (line : ℕ)
    → IsDistinct lines
    → tree ≡ reversed lines
    → (if leb dist_infinity (get_distance line tree)
        then dist_infinity - 1
        else get_distance line tree)
      ≡ bin_of (index line lines)
binned lines tree line distinct same =
    ap (λ d. if leb dist_infinity d then dist_infinity - 1 else d)
      (ap (get_distance line) same ∙ get_distance-reversed line lines distinct)
    ∙ clipped (index line lines)

stored_count :
    (f : ℕ → Option (Hist ℕ)) (v var b bin : ℕ)
    → get_bin 0
        (or_empty (store f v (increment_bin 0 (λ a b. a + b) (or_empty (f v)) b 1).0 var))
        bin
      ≡ get_bin 0 (or_empty (f var)) bin + one_if (v == var && b == bin)
unfolding store increment_bin
stored_count f v var b bin = elim (Bool-cases (v == var)) [
  | inl e ↦
      let same : v ≡ var = ground (arith, e) in
      rw (same, ==_refl var)
        (get_bin-assign 0 (or_empty (f var)) b bin (get_bin 0 (or_empty (f var)) b + 1)
          ∙ elim (Bool-cases (bin == b)) [
            | inl q ↦ let here : bin ≡ b = ground (arith, q) in rw (here, ==_refl b) refl
            | inr q ↦
                let other : (b == bin) ≡ false = ground (arith, q) in rw (q, other) (omega arith)
          ])
  | inr e ↦ let away : (var == v) ≡ false = ground (arith, e) in rw (away, e) (omega arith)
]

step-count :
    (c : Bool × ℕ × ℕ) (lines : List ℕ) (s : Distances) (var bin : ℕ)
    → IsTree lines s
    → count_of (indigo__reuse_dist_c c.0 c.1 c.2 s) var bin
      ≡ count_of s var bin
        + one_if (counts c && (c.1 == var && bin_of (index (addr_to_cache_line c.2) lines) == bin))
unfolding indigo__reuse_dist_c
step-count (true, v, address) lines s var bin h = omega arith
step-count (false, v, address) lines s var bin (distinct, same) =
    elim (Bool-cases (ltb v max_variables)) [
      | inl e ↦
          let few : leb max_variables v ≡ false = ground (arith, e) in
          let place = binned lines (or_empty s.tree) (addr_to_cache_line address) distinct same in
          rw (few, e, place)
            (stored_count s.histogram_list v var (bin_of (index (addr_to_cache_line address) lines))
              bin)
      | inr e ↦
          let many : leb max_variables v ≡ true = ground (arith, e) in rw (many, e) (omega arith)
    ]

measured-counts :
    (cs : List (Bool × ℕ × ℕ)) (lines : List ℕ) (s : Distances) (var bin : ℕ)
    → IsTree lines s
    → count_of (measured cs s) var bin ≡ count_of s var bin + number_of var bin lines cs
unfolding measured
measured-counts [] lines s var bin h = omega arith
measured-counts (c ∷ rest) lines s var bin h =
    let later =
      measured-counts rest (lines_after c lines) (indigo__reuse_dist_c c.0 c.1 c.2 s) var bin
        (step-IsTree c lines s h) in
    let first = step-count c lines s var bin h in
    later ∙ ap (λ n. n + number_of var bin (lines_after c lines) rest) first ∙ omega arith

count_of-no_distances : (var bin : ℕ) → count_of no_distances var bin ≡ 0
unfolding get_bin find
count_of-no_distances var bin = refl

-- After any calls of indigo__reuse_dist_c, a bin of a variable counts the calls for that
-- variable, made while the program was awake and for a number below MAX_VARIABLES, whose cache
-- line was at this position in the order in which all such calls last used their lines; the last
-- bin counts all larger positions, and lines not used before.
pub measured-number_of :
    (cs : List (Bool × ℕ × ℕ)) (var bin : ℕ)
    → count_of (measured cs no_distances) var bin ≡ number_of var bin [] cs
measured-number_of cs var bin =
    measured-counts cs [] no_distances var bin (tt, refl)
    ∙ ap (λ n. n + number_of var bin [] cs) (count_of-no_distances var bin)
    ∙ omega arith
