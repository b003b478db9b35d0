-- ===== src/Macpo/Owners.antt =====
-- Who owns a cache line in tools/macpo/analyze/latency_analysis.cpp, and what its counts are.
use perfexpert.Prelude.{
  ℕ, zero, suc, ◌+◌, ◌%◌, ◌^◌, ◌<◌, ◌≤◌, ◌==◌, ◌≡◌, ◌∙◌, refl, sym, ap, ltb, not, ◌&&◌,
  if◌then◌else◌, if_both, option_both, Bool, Bool-cases, true, false, inl, inr, Option, none, some,
  List, [], ◌∷◌, ◌++◌, arith,
}
use perfexpert.Macpo.Words.{addr_to_cache_line, store}
use perfexpert.Macpo.AvlTree.{get_distance}
use perfexpert.Macpo.Record.{MemInfo}
use perfexpert.Macpo.Latency.{
  Gsl, Local, is_write, count_owner, create_histogram_if_null, conflict_loop,
}

-- The core whose write to a line is the first one.
abbrev pub writes : (num_cores num_streams line : ℕ) → MemInfo → Bool
writes num_cores num_streams line info =
    (ltb info.core_id num_cores && ltb info.var_idx num_streams)
    && (line == addr_to_cache_line info.address && is_write info.read_write)

abbrev pub first_writer : (num_cores num_streams line : ℕ) → List MemInfo → Option ℕ
first_writer cores streams line [] = none
first_writer cores streams line (info ∷ rest) =
    if writes cores streams line info
    then some info.core_id
    else first_writer cores streams line rest

-- An access to a line with a first writer: a miss for a write from another core, and else a hit.
abbrev pub is_miss : MemInfo → (owner : Option ℕ) → Bool
is_miss info none = false
is_miss info (some owner) = is_write info.read_write && not (owner == info.core_id)

abbrev pub is_hit : MemInfo → (owner : Option ℕ) → Bool
is_hit info none = false
is_hit info (some owner) = not (is_write info.read_write && not (owner == info.core_id))

abbrev pub one_if : Bool → ℕ
one_if true = 1
one_if false = 0

-- How many accesses of a stream pass a test, each with the first writer of its line before it.
abbrev pub tally :
    (num_cores num_streams : ℕ)
    → (MemInfo → Option ℕ → Bool)
    → (var : ℕ) → (before accesses : List MemInfo) → ℕ
tally cores streams test var before [] = 0
tally cores streams test var before (info ∷ rest) =
    one_if (
      (ltb info.core_id cores && ltb info.var_idx streams)
      && (var == info.var_idx
          && test info (first_writer cores streams (addr_to_cache_line info.address) before)))
    + tally cores streams test var (before ++ info ∷ []) rest

abbrev pub tally_all :
    (num_cores num_streams : ℕ) → (MemInfo → Option ℕ → Bool) → (var : ℕ) → List (List MemInfo) → ℕ
tally_all cores streams test var [] = 0
tally_all cores streams test var (list ∷ rest) =
    tally cores streams test var [] list + tally_all cores streams test var rest

-- The owner of a line once an access was made that may write to it.
abbrev next_owner : (owner : Option ℕ) → (written : Bool) → (core : ℕ) → Option ℕ
next_owner none written core = if written then some core else none
next_owner (some owner) written core = some owner

first_writer-append :
    (cores streams line : ℕ) (before : List MemInfo) (info : MemInfo)
    → first_writer cores streams line (before ++ info ∷ [])
      ≡ next_owner
          (first_writer cores streams line before)
          (writes cores streams line info)
          info.core_id
first_writer-append cores streams line [] info = refl
first_writer-append cores streams line (x ∷ before) info =
    elim (Bool-cases (writes cores streams line x)) [
      | inl e ↦ rw e refl
      | inr e ↦ rw e (first_writer-append cores streams line before info)
    ]

-- The owners and the counts, which histograms and trees do not touch.
pub record SameCounts {H : Type 0} (s s' : Local H) : Type 0 where
  pub owners : s'.cache_line_owner ≡ s.cache_line_owner
  pub hits : s'.local_hit_list ≡ s.local_hit_list
  pub misses : s'.local_miss_list ≡ s.local_miss_list

module _ (gsl : Gsl) (dist_infinity : ℕ) where
  pub conflict_loop-SameCounts :
      (core var line rw i n : ℕ) (s : Local gsl.Histogram)
      → SameCounts s (conflict_loop gsl dist_infinity core var line rw i n s).1
  unfolding conflict_loop
  conflict_loop-SameCounts core var line read_write i zero s = record {
    owners = refl;
    hits = refl;
    misses = refl;
  }
  conflict_loop-SameCounts core var line read_write i (suc n) s =
      if_both (λ (r : Bool × Local gsl.Histogram). SameCounts s r.1)
        (is_write read_write
          && (not (i == core) && ltb (get_distance line (s.tree_list i)) dist_infinity))
        (λ e.
          option_both (λ (r : Bool × Local gsl.Histogram). SameCounts s r.1)
            (create_histogram_if_null gsl dist_infinity (s.histogram_matrix i var))
            (λ none_left. record { owners = refl; hits = refl; misses = refl })
            (λ h made.
              let later = conflict_loop-SameCounts core var line read_write (suc i) n _ in
              record { owners = later.owners; hits = later.hits; misses = later.misses }))
        (λ e. conflict_loop-SameCounts core var line read_write (suc i) n s)

-- An `int` that counts where a test holds.
abbrev count_up_if : Bool → ℕ → ℕ
count_up_if b x = if b then (x + 1) % 2 ^ 32 else x

count_up_if_lem : (b : Bool) (x n : ℕ) → x ≡ n % 2 ^ 32 → count_up_if b x ≡ (n + one_if b) % 2 ^ 32
count_up_if_lem true x n e = omega (arith, e)
count_up_if_lem false x n e = omega (arith, e)

-- What the last statements of the loop do.
module _ {H : Type 0} (info : MemInfo) (s : Local H) where
  abbrev pub counted_owner : Local H
  counted_owner =
      count_owner info.core_id info.var_idx (addr_to_cache_line info.address) info.read_write s

  owner_after :
      (l : ℕ)
      → info.core_id < 2 ^ 15
      → counted_owner.cache_line_owner l
        ≡ next_owner
            (s.cache_line_owner l)
            (l == addr_to_cache_line info.address && is_write info.read_write)
            info.core_id
  unfolding count_owner store
  owner_after l small =
      let same : info.core_id % 2 ^ 16 ≡ info.core_id = omega (arith, small) in ground (arith, same)

  hits_after :
      (v : ℕ)
      → info.core_id < 2 ^ 15
      → counted_owner.local_hit_list v
        ≡ count_up_if
            (v == info.var_idx
              && is_hit info (s.cache_line_owner (addr_to_cache_line info.address)))
            (s.local_hit_list v)
  unfolding count_owner
  hits_after v small = ground (arith, small)

  misses_after :
      (v : ℕ)
      → info.core_id < 2 ^ 15
      → counted_owner.local_miss_list v
        ≡ count_up_if
            (v == info.var_idx
              && is_miss info (s.cache_line_owner (addr_to_cache_line info.address)))
            (s.local_miss_list v)
  unfolding count_owner
  misses_after v small = ground (arith, small)

or_none : (o : Option ℕ) (core : ℕ) → next_owner o false core ≡ o
or_none none core = refl
or_none (some owner) core = refl

-- The owners are the first writers, and the counts are these, as `int`s.
pub record IsLocal {H : Type 0} (cores streams : ℕ) (before : List MemInfo) (hit miss : ℕ → ℕ)
    (s : Local H) : Type 0 where
  pub owned : (l : ℕ) → s.cache_line_owner l ≡ first_writer cores streams l before
  pub hit_count : (v : ℕ) → s.local_hit_list v ≡ hit v % 2 ^ 32
  pub miss_count : (v : ℕ) → s.local_miss_list v ≡ miss v % 2 ^ 32

-- One more access, for which a test on its first writer is counted.
abbrev pub plus :
    (cores streams : ℕ)
    → (MemInfo → Option ℕ → Bool)
    → (before : List MemInfo) → MemInfo
    → (ℕ → ℕ)
    → ℕ
    → ℕ
plus cores streams test before info f v =
    f v
    + one_if (
        (ltb info.core_id cores && ltb info.var_idx streams)
        && (v == info.var_idx
            && test info (first_writer cores streams (addr_to_cache_line info.address) before)))

module _ {H : Type 0} (cores streams : ℕ) (before : List MemInfo) (info : MemInfo)
    (hit miss : ℕ → ℕ) (s : Local H) where
  pub count_owner-IsLocal :
      cores ≤ 2 ^ 15
      → (ltb info.core_id cores && ltb info.var_idx streams) ≡ true
      → IsLocal cores streams before hit miss s
      → IsLocal cores streams
          (before ++ info ∷ [])
          (plus cores streams is_hit before info hit)
          (plus cores streams is_miss before info miss)
          (counted_owner info s)
  count_owner-IsLocal few valid h = record {
    owned = λ l.
        let small : info.core_id < 2 ^ 15 = ground (arith, few, valid) in
        let written : writes cores streams l info
            ≡ (l == addr_to_cache_line info.address && is_write info.read_write) =
          rw valid refl in
        owner_after info s l small
        ∙ rw (h.owned l, first_writer-append cores streams l before info)
            (ap (λ b. next_owner (first_writer cores streams l before) b info.core_id)
              (sym written));
    hit_count = λ v.
        let small : info.core_id < 2 ^ 15 = ground (arith, few, valid) in
        hits_after info s v small
        ∙ rw (h.owned (addr_to_cache_line info.address), valid)
            (count_up_if_lem _ (s.local_hit_list v) (hit v) (h.hit_count v));
    miss_count = λ v.
        let small : info.core_id < 2 ^ 15 = ground (arith, few, valid) in
        misses_after info s v small
        ∙ rw (h.owned (addr_to_cache_line info.address), valid)
            (count_up_if_lem _ (s.local_miss_list v) (miss v) (h.miss_count v));
  }

  pub skipped-IsLocal :
      (ltb info.core_id cores && ltb info.var_idx streams) ≡ false
      → IsLocal cores streams before hit miss s
      → IsLocal cores streams
          (before ++ info ∷ [])
          (plus cores streams is_hit before info hit)
          (plus cores streams is_miss before info miss)
          s
  skipped-IsLocal invalid h = record {
    owned = λ l.
        let unwritten : writes cores streams l info ≡ false = rw invalid refl in
        h.owned l
        ∙ sym (
            first_writer-append cores streams l before info
            ∙ ap (λ b. next_owner (first_writer cores streams l before) b info.core_id) unwritten
            ∙ or_none (first_writer cores streams l before) info.core_id);
    hit_count = λ v. h.hit_count v ∙ rw invalid (omega arith);
    miss_count = λ v. h.miss_count v ∙ rw invalid (omega arith);
  }

  -- Changes of histograms and trees.
  pub kept-IsLocal :
      (s' : Local H)
      → SameCounts s s'
      → IsLocal cores streams before hit miss s
      → IsLocal cores streams before hit miss s'
  kept-IsLocal s' same h = record {
    owned = λ l. ap (λ f. f l) same.owners ∙ h.owned l;
    hit_count = λ v. ap (λ f. f v) same.hits ∙ h.hit_count v;
    miss_count = λ v. ap (λ f. f v) same.misses ∙ h.miss_count v;
  }
