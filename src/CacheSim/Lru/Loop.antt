-- ===== src/CacheSim/Lru/Loop.antt =====
-- What the loop over the ways of `policy_lru_access` finds (lib/cache_sim/cache_policy_lru.c).
use perfexpert.Prelude.{
  ℕ, zero, suc, ◌+◌, ◌≤◌, ◌<◌, ◌≡◌, ◌≢◌, refl, ◌⊎◌, inl, inr, List, ◌==◌, leb, Bool-cases, length,
  get_or, get_elem?-eq-get_or, arith,
}
use perfexpert.CacheSim.Types.{LruLine, Outcome, ok, uint64_max}
use perfexpert.CacheSim.Lru.{unused_line, Scan, found, victim, scan}

abbrev pub line_at : List LruLine → ℕ → LruLine
line_at lines i = get_or lines i unused_line

-- Neither the line that is looked for nor a free way.
abbrev pub Other : List LruLine → ℕ → ℕ → Type 0
Other lines id j = ((line_at lines j).line_id ≢ id) × ((line_at lines j).line_id ≢ uint64_max)

-- The ways from `base` up to `top` are used, and by other lines.
abbrev pub AllOther : List LruLine → (id base top : ℕ) → Type 0
AllOther lines id base top = (j : ℕ) → base ≤ j → j < top → Other lines id j

-- The end of a loop over the ways from `base` up to `top` whose oldest way so far is `old`.
pub data Ends (lines : List LruLine) (id base top old : ℕ) : Outcome Scan → Type 0 where
  is_found :
      (k : ℕ)
      → base ≤ k
      → k < top
      → (line_at lines k).line_id ≡ id
      → AllOther lines id base k
      → Ends lines id base top old (ok (found k))
  is_free :
      (k : ℕ)
      → base ≤ k
      → k < top
      → (line_at lines k).line_id ≡ uint64_max
      → AllOther lines id base k
      → Ends lines id base top old (ok (victim k))
  is_oldest :
      (k : ℕ)
      → (k ≡ old) ⊎ ((base ≤ k) × (k < top))
      → (line_at lines k).age ≤ (line_at lines old).age
      → ((j : ℕ) → base ≤ j → j < top → (line_at lines k).age ≤ (line_at lines j).age)
      → AllOther lines id base top
      → Ends lines id base top old (ok (victim k))

AllOther-step :
    (lines : List LruLine) (id base top : ℕ)
    → Other lines id base
    → AllOther lines id (base + 1) top
    → AllOther lines id base top
AllOther-step lines id base top here others j p q = elim (Bool-cases (j == base)) [
  | inl e ↦ ground arith
  | inr e ↦ others j (ground arith) q
]

module _ {lines : List LruLine} {id base top old : ℕ} where
  -- One more way in front of the loop, used by another line.
  Ends-step :
      {r : Outcome Scan} (new : ℕ)
      → base < top
      → Other lines id base
      → (new ≡ old) ⊎ (new ≡ base)
      → (line_at lines new).age ≤ (line_at lines old).age
      → (line_at lines new).age ≤ (line_at lines base).age
      → Ends lines id (base + 1) top new r
      → Ends lines id base top old r
  Ends-step new room here either le_old le_base (is_found k lo hi e others) =
      is_found k (omega arith) hi e (AllOther-step lines id base _ here others)
  Ends-step new room here either le_old le_base (is_free k lo hi e others) =
      is_free k (omega arith) hi e (AllOther-step lines id base _ here others)
  Ends-step new room here either le_old le_base (is_oldest k from le all others) =
      is_oldest k (ground arith) (omega arith)
        (λ j p q. elim (Bool-cases (j == base)) [
          | inl e ↦ ground arith
          | inr e ↦ all j (ground arith) q
        ])
        (AllOther-step lines id base _ here others)

-- The loop ends as described, and reads no line out of bounds.
pub scan-Ends :
    (lines : List LruLine) (id left base old top : ℕ)
    → base + left ≡ top
    → top ≤ length lines
    → old < length lines
    → Ends lines id base top old (scan lines id left base old)
unfolding scan
scan-Ends lines id zero base old top e room in_range =
    is_oldest old (inl refl) (omega arith) (λ j p q. absurd (omega arith))
      (λ j p q. absurd (omega arith))
scan-Ends lines id (suc left) base old top e room in_range =
    let way = line_at lines base in
    let oldest = line_at lines old in
    let none_before : AllOther lines id base base = λ j p q. absurd (omega arith) in
    let rest = λ (new : ℕ) (h : new < length lines).
      scan-Ends lines id left (base + 1) new top (omega arith) room h in
    rw
      (
        get_elem?-eq-get_or lines base unused_line (omega arith),
        get_elem?-eq-get_or lines old unused_line in_range,
      )
      (elim (Bool-cases (way.line_id == id)) [
        | inl hit ↦ rw hit (is_found base (omega arith) (omega arith) (ground arith) none_before)
        | inr miss ↦ rw miss (elim (Bool-cases (uint64_max == way.line_id)) [
          | inl free ↦ rw free (is_free base (omega arith) (omega arith) (ground arith) none_before)
          | inr used ↦ rw used (elim (Bool-cases (leb way.age oldest.age)) [
            | inl older ↦ rw older (
                Ends-step base (omega arith) (ground arith) (inr refl) (ground arith) (omega arith)
                  (rest base (omega arith)))
            | inr newer ↦ rw newer (
                Ends-step old (omega arith) (ground arith) (inl refl) (omega arith) (ground arith)
                  (rest old in_range))
          ])
        ])
      ])
