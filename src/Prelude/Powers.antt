-- ===== src/Prelude/Powers.antt =====
-- Powers of two, and the remainders and quotients of products: what shifts of a machine word do.
use Prim.Native.Nat.{ℕ, zero, suc, ◌+◌, ◌-◌, ◌*◌, ◌/◌, ◌%◌, ◌^◌, ◌≤◌, ◌<◌}
use mathlib.Core.Path.{◌≡◌, ap, ◌∙◌}
use native.Mathlib.Omega.{arith}
use native.Mathlib.Nat.{
  pow-suc, one-le-pow, mod-eq_of_lt, mod-lt, div-add-mod, add-mul-mod_self_left, mul-add-div,
  div-eq_of_lt, mul-div-mul_left, mul-lt-mul_of_pos_left, zero-add, suc-add, add-zero, mul-pos,
}

pub two-pow-pos : (k : ℕ) → 0 < 2 ^ k
two-pow-pos k = one-le-pow k 2 (omega arith)

pub two-pow-add : (j k : ℕ) → 2 ^ (j + k) ≡ 2 ^ j * 2 ^ k
two-pow-add zero k = rw zero-add (omega arith)
two-pow-add (suc j) k = rw (suc-add, pow-suc, pow-suc, two-pow-add j k) (omega arith)

-- A product by the modulus' own factor: the factor comes out of the remainder.
pub mul-mod-mul : (a p m : ℕ) → 0 < p → 0 < m → a * p % (p * m) ≡ p * (a % m)
mul-mod-mul a p m hp hm =
    let split : a * p ≡ p * (a % m) + p * m * (a / m) =
      omega (arith, ap (λ (t : ℕ). p * t) (div-add-mod a m)) in
    rw split
      (add-mul-mod_self_left _ (p * m) _ ∙ mod-eq_of_lt (mul-lt-mul_of_pos_left (mod-lt a hm) hp))

mod-mul_split : (a o s : ℕ) → a ≡ o * (a / o % s) + a % o + o * s * (a / o / s)
mod-mul_split a o s = omega (arith, div-add-mod a o, ap (λ (t : ℕ). o * t) (div-add-mod (a / o) s))

mod-mul_bound : (r b o s : ℕ) → r < s → b < o → o * r + b < o * s
mod-mul_bound r b o s hr hb = grind arith

-- The high part of a remainder by a product.
pub mod-mul-div : (a o s : ℕ) → 0 < o → 0 < s → a % (o * s) / o ≡ a / o % s
mod-mul-div a o s ho hs =
    let r = a / o % s in
    let low : a % (o * s) ≡ o * r + a % o =
      ap (λ (t : ℕ). t % (o * s)) (mod-mul_split a o s)
      ∙ add-mul-mod_self_left _ (o * s) _
      ∙ mod-eq_of_lt (mod-mul_bound r (a % o) o s (mod-lt _ hs) (mod-lt a ho)) in
    rw low
      (mul-add-div ho r (a % o) ∙ ap (λ (t : ℕ). r + t) (div-eq_of_lt (mod-lt a ho)) ∙ add-zero r)

-- A multiple cut to a word and divided keeps a window of the digits.
pub mod-mul_window :
    (a p o s w v : ℕ)
    → 0 < p
    → 0 < o
    → 0 < s
    → w ≡ p * (o * s)
    → v ≡ p * o
    → a * p % w / v ≡ a / o % s
mod-mul_window a p o s w v hp ho hs ew ev =
    rw (ew, ev, mul-mod-mul a p (o * s) hp (mul-pos ho hs))
      (mul-div-mul_left (a % (o * s)) o hp ∙ mod-mul-div a o s ho hs)

pub two-pow-split : (i j k : ℕ) → j ≤ i → i - j ≡ k → 2 ^ i ≡ 2 ^ k * 2 ^ j
two-pow-split i j k h e = ap (λ (t : ℕ). 2 ^ t) (omega arith) ∙ two-pow-add k j
