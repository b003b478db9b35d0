-- ===== src/CacheSim/Plru/Tree.antt =====
-- The tree of bits of the PLRU policy (lib/cache_sim/cache_policy_plru.c): the loop that follows a
-- miss, and the loop that follows a hit, walk the same path.
use perfexpert.Prelude.{
  ℕ, zero, suc, ◌+◌, ◌-◌, ◌*◌, ◌/◌, ◌^◌, ◌≤◌, ◌<◌, ◌≡◌, refl, true, false, ◌==◌, ltb, if◌then◌else◌,
  arith, ap, ◌∙◌, sym, subst, bit_and, bit_xor,
}
use native.Mathlib.Nat.{pow-suc, div-div-eq-div-mul, pow-le-pow_right, add-zero, add-suc}
use native.Mathlib.Numerals.{add-one}
use perfexpert.CacheSim.Types.{ok, fault}
use perfexpert.CacheSim.Plru.{int_bit, choose_way, toggle_path}

-- A path from round `i` on, after `p` has been read off the tree: the way it leads to lies below
-- `p`, and the loop after a hit on that way leaves the same mask.
record IsPath (left i bs p mask way mask' : ℕ) : Type 0 where
  chosen : choose_way left bs p (p * 2) mask ≡ ok (way, mask')
  below : way / 2 ^ left ≡ p
  bound : way < 2 ^ (i + left)
  toggled : (levels : ℕ) → levels ≡ i + left → toggle_path levels way left i bs p mask ≡ ok mask'

-- The bit that a round reads: 0 or 1.
abbrev bit_of : ℕ → ℕ → ℕ
bit_of mask bit = if bit_and mask (2 ^ bit) == 0 then 0 else 1

round_bit :
    (i left bs p : ℕ)
    → suc bs ≡ 2 ^ i
    → p < 2 ^ i
    → 2 ^ (i + suc left) ≤ 32
    → int_bit (bs + p) ≡ ok (2 ^ (bs + p))
round_bit i left bs p e h small =
    let half : 2 ^ (i + suc left) ≡ 2 * 2 ^ (i + left) = rw (add-suc, pow-suc) (omega arith) in
    let grows : 2 ^ i ≤ 2 ^ (i + left) =
      pow-le-pow_right {n = 2} (omega arith) {i = i} {j = i + left} (omega arith) in
    let test : ltb (bs + p) 31 ≡ true = ground arith in rw test

way_of_bit :
    (mask bit p : ℕ)
    → (if bit_and mask (2 ^ bit) == 0 then p * 2 else p * 2 + 1) ≡ p * 2 + bit_of mask bit
way_of_bit mask bit p = ground arith

bit_of-le : (mask bit : ℕ) → bit_of mask bit ≤ 1
bit_of-le mask bit = ground arith

IsPath-step :
    (left i bs p mask way mask' : ℕ)
    → int_bit (bs + p) ≡ ok (2 ^ (bs + p))
    → IsPath left
        (suc i)
        (bs * 2 + 1)
        (p * 2 + bit_of mask (bs + p))
        (bit_xor mask (2 ^ (bs + p)))
        way
        mask'
    → IsPath (suc left) i bs p mask way mask'
unfolding choose_way toggle_path
IsPath-step left i bs p mask way mask' bit is =
    let halved : way / 2 ^ suc left ≡ way / 2 ^ left / 2 =
      ap (λ (t : ℕ). way / t) (pow-suc 2 left) ∙ sym (div-div-eq-div-mul way (2 ^ left) 2) in
    record {
      chosen = rw (bit, way_of_bit mask (bs + p) p) is.chosen;
      below = omega (arith, halved, is.below, bit_of-le mask (bs + p));
      bound = subst (λ (k : ℕ). way < 2 ^ k) (omega arith) is.bound;
      toggled = λ levels e.
          let shift : levels - 1 - i ≡ left = omega arith in
          rw (bit, shift, is.below, add-one) (is.toggled levels (omega arith));
    }

IsPath-from :
    (left i bs p mask : ℕ)
    → suc bs ≡ 2 ^ i
    → p < 2 ^ i
    → 2 ^ (i + left) ≤ 32
    → (way : ℕ) × (mask' : ℕ) × IsPath left i bs p mask way mask'
unfolding choose_way toggle_path
IsPath-from zero i bs p mask e h small = (
  p,
  mask,
  record {
    chosen = ap (λ (w : ℕ). ok (w, mask)) (omega arith);
    below = omega arith;
    bound = rw add-zero h;
    toggled = λ levels le. refl;
  },
)
IsPath-from (suc left) i bs p mask e h small =
    let b = bit_of mask (bs + p) in
    let (way, mask', is) =
      IsPath-from left (suc i) (bs * 2 + 1) (p * 2 + b) (bit_xor mask (2 ^ (bs + p)))
        (omega (arith, pow-suc 2 i)) (omega (arith, pow-suc 2 i, bit_of-le mask (bs + p)))
        (subst (λ (k : ℕ). 2 ^ k ≤ 32) (omega arith) small) in
    (way, mask', IsPath-step left i bs p mask way mask' (round_bit i left bs p e h small) is)

-- With at most 32 ways in the tree, the loop after a miss of the pseudo-LRU policy returns a way
-- of the set, and the loop of a hit on that way would toggle the same bits of the mask.
pub choose_way-toggle_path :
    (levels mask : ℕ)
    → 2 ^ levels ≤ 32
    → (way : ℕ) × (mask' : ℕ) × (choose_way levels 0 0 0 mask ≡ ok (way, mask'))
      × (way < 2 ^ levels)
      × (toggle_path levels way levels 0 0 0 mask ≡ ok mask')
choose_way-toggle_path levels mask small =
    let (way, mask', is) =
      IsPath-from levels 0 0 0 mask refl (omega arith)
        (subst (λ (k : ℕ). 2 ^ k ≤ 32) (omega arith) small) in
    (
      way,
      mask',
      is.chosen,
      subst (λ (k : ℕ). way < 2 ^ k) (omega arith) is.bound,
      is.toggled levels (omega arith),
    )

-- A deeper path leaves the 31 bits that the masks can address: the shift of an `int` is undefined.
pub choose_way-fault :
    (left bs bo way mask : ℕ) → 31 ≤ bs + bo → choose_way (suc left) bs bo way mask ≡ fault
unfolding choose_way
choose_way-fault left bs bo way mask h =
    let test : ltb (bs + bo) 31 ≡ false = ground arith in rw test
