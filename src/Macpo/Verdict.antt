-- ===== src/Macpo/Verdict.antt =====
-- The analysis of set conflicts (tools/macpo/analyze/set_cache_conflict_analysis.cpp) against the order
-- of last use in each set.
use Prim.Native.Nat.{min, digits, bit_and-bitwise}
use perfexpert.Prelude.{
  ℕ, zero, suc, ◌/◌, ◌%◌, ◌<◌, ◌≤◌, ◌≡◌, refl, sym, subst, inl, inr, ltb, leb, if◌then◌else◌, ◌&&◌,
  bit_and, Option, none, some, arith,
}
use perfexpert.Macpo.Counters.{IsDistance}
use perfexpert.Macpo.Conflict.{
  associativity, bit_mask, address_to_set, Verdict, hit, conflict, cold, capacity, judge,
}

-- The mask leaves numbers of sets below 64.
min-le : (a b : ℕ) → min a b ≤ b
min-le zero b = omega arith
min-le (suc a) zero = omega arith
min-le (suc a) (suc b) = omega (arith, min-le a b)

digits-le : (n a b : ℕ) → digits (λ b. zero) min n a b ≤ b
digits-le zero a b = omega arith
digits-le (suc n) zero b = omega arith
digits-le (suc n) (suc a) b =
    omega (arith, digits-le n (suc a / 2) (b / 2), min-le (suc a % 2) (b % 2))

bit_and-le : (a b : ℕ) → bit_and a b ≤ b
bit_and-le a b = subst (λ z. z ≤ b) (sym (bit_and-bitwise a b)) (digits-le a a b)

pub address_to_set-lt : (address : ℕ) → address_to_set address < 64
unfolding address_to_set
address_to_set-lt address =
    let mask : bit_mask 6 12 ≡ 4032 = refl in omega (arith, bit_and-le address 4032)

-- What an access should be judged to be, by the position of its line in the order of last use in its set.
abbrev pub verdict_of : (l1_cache_lines : ℕ) → (position : Option ℕ) → Verdict
verdict_of lines none = cold
verdict_of lines (some d) =
    if leb d associativity && ltb d lines then hit else if ltb d lines then conflict else capacity

pub judge-verdict_of :
    (lines r : ℕ) (position : Option ℕ)
    → associativity < lines
    → lines ≤ 513
    → IsDistance position r
    → judge lines r ≡ verdict_of lines position
unfolding judge
judge-verdict_of lines r none low high distance = ground arith
judge-verdict_of lines r (some d) low high (inl (near, exact)) = ground arith
judge-verdict_of lines r (some d) low high (inr (far, more, small)) = ground arith
