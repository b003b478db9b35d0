-- ===== src/CacheSim/Address.antt =====
-- The macros of lib/cache_sim/cache_sim_util.h that take an address apart. A shift of a `uint64_t`
-- keeps 64 bits; a shift by 64 or more is undefined, and is ruled out by `FitsWord`.
use perfexpert.Prelude.{
  ℕ, ◌+◌, ◌-◌, ◌*◌, ◌/◌, ◌%◌, ◌^◌, ◌≤◌, ◌<◌, ◌≡◌, ap, ◌∙◌, sym, arith, two-pow-pos, two-pow-add,
  mod-mul_window, two-pow-split, refl,
}
use native.Mathlib.Nat.{
  mod-lt, mod-eq_of_lt, div-mul-le_self, div-add-mod', div-one, div-div-eq-div-mul, mul_comm,
  mul-div_cancel,
}
use perfexpert.CacheSim.Types.{Cache}

abbrev pub shl64 : ℕ → ℕ → ℕ
shl64 a k = a * 2 ^ k % 2 ^ 64

abbrev pub shr64 : ℕ → ℕ → ℕ
shr64 a k = a / 2 ^ k

unfoldable pub address_to_line_id : Cache → ℕ → ℕ
address_to_line_id c a = shl64 (shr64 a c.offset_length) c.offset_length

unfoldable pub address_to_offset : Cache → ℕ → ℕ
address_to_offset c a = shr64 (shl64 a (64 - c.offset_length)) (64 - c.offset_length)

unfoldable pub address_to_set : Cache → ℕ → ℕ
address_to_set c a = shr64 (shl64 a (64 - c.set_length - c.offset_length)) (64 - c.set_length)

unfoldable pub address_to_tag : Cache → ℕ → ℕ
address_to_tag c a = shr64 a (c.set_length + c.offset_length)

-- Every shift of the macros is by less than 64 bits.
pub record FitsWord (c : Cache) : Type 0 where
  pub some_set_bit : 0 < c.set_length
  pub some_offset_bit : 0 < c.offset_length
  pub fits : c.set_length + c.offset_length < 64

-- A shift left by all bits but `o + s` and back keeps `s` bits from bit `o` on.
shift_window : (a o s : ℕ) → o + s ≤ 64 → shr64 (shl64 a (64 - s - o)) (64 - s) ≡ a / 2 ^ o % 2 ^ s
shift_window a o s h =
    mod-mul_window a (2 ^ (64 - s - o)) (2 ^ o) (2 ^ s) (2 ^ 64) (2 ^ (64 - s)) (two-pow-pos _)
      (two-pow-pos o) (two-pow-pos s)
      (two-pow-split 64 (o + s) (64 - s - o) h (omega arith)
        ∙ ap (λ (t : ℕ). 2 ^ (64 - s - o) * t) (two-pow-add o s))
      (two-pow-split (64 - s) o (64 - s - o) (omega arith) refl)

module _ (c : Cache) (w : FitsWord c) (a : ℕ) where
  -- The set of an address is its next `set_length` bits above the offset.
  pub address_to_set_lem : address_to_set c a ≡ a / 2 ^ c.offset_length % 2 ^ c.set_length
  unfolding address_to_set
  address_to_set_lem = shift_window a c.offset_length c.set_length (omega arith)

  pub address_to_set-lt : address_to_set c a < 2 ^ c.set_length
  address_to_set-lt = rw address_to_set_lem (mod-lt _ (two-pow-pos c.set_length))

  -- The line id of an address is the address with its offset cleared.
  pub address_to_line_id_lem : a < 2 ^ 64 → address_to_line_id c a ≡ a - a % 2 ^ c.offset_length
  unfolding address_to_line_id
  address_to_line_id_lem h =
      let o = c.offset_length in
      mod-eq_of_lt (omega (arith, div-mul-le_self a (2 ^ o)))
      ∙ omega (arith, div-add-mod' a (2 ^ o))

  pub address_to_offset_lem : address_to_offset c a ≡ a % 2 ^ c.offset_length
  unfolding address_to_offset
  address_to_offset_lem =
      let o = c.offset_length in
      mod-mul_window a (2 ^ (64 - o)) 1 (2 ^ o) (2 ^ 64) (2 ^ (64 - o)) (two-pow-pos _)
        (omega arith) (two-pow-pos o) (two-pow-split 64 o (64 - o) (omega arith) refl ∙ omega arith)
        (omega arith)
      ∙ ap (λ (t : ℕ). t % 2 ^ o) (div-one a)

  -- Tag, set and offset of an address put together are the address, when every shift of the
  -- macros is by less than 64 bits.
  address_parts :
      a
      ≡ address_to_tag c a * 2 ^ (c.set_length + c.offset_length)
        + address_to_set c a * 2 ^ c.offset_length
        + address_to_offset c a
  unfolding address_to_tag
  address_parts =
      let o = c.offset_length in
      let s = c.set_length in
      let tag : a / 2 ^ (s + o) ≡ a / 2 ^ o / 2 ^ s =
        ap (λ (t : ℕ). a / t) (two-pow-add s o ∙ mul_comm (2 ^ s) (2 ^ o))
        ∙ sym (div-div-eq-div-mul a (2 ^ o) (2 ^ s)) in
      rw (address_to_set_lem, address_to_offset_lem, tag, two-pow-add)
        (omega (
          arith,
          div-add-mod' a (2 ^ o),
          ap (λ (t : ℕ). t * 2 ^ o) (div-add-mod' (a / 2 ^ o) (2 ^ s)),
        ))

-- An address below 2^64 and its line id fall into the same set, when every shift of the macros
-- is by less than 64 bits.
address_to_set-line_id :
    (c : Cache) (a : ℕ)
    → FitsWord c
    → a < 2 ^ 64
    → address_to_set c (address_to_line_id c a) ≡ address_to_set c a
unfolding address_to_line_id
address_to_set-line_id c a w h =
    let o = c.offset_length in
    address_to_set_lem c w (address_to_line_id c a)
    ∙ ap (λ (t : ℕ). t / 2 ^ o % 2 ^ c.set_length)
        (mod-eq_of_lt (omega (arith, div-mul-le_self a (2 ^ o))))
    ∙ ap (λ (t : ℕ). t % 2 ^ c.set_length) (mul-div_cancel (a / 2 ^ o) (two-pow-pos o))
    ∙ sym (address_to_set_lem c w a)
