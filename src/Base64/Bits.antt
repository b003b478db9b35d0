-- ===== src/Base64/Bits.antt =====
-- The bit operations of common/perfexpert_base64.c on bytes and digits, as arithmetic.
use perfexpert.Prelude.{
  ℕ, ◌+◌, ◌*◌, ◌/◌, ◌%◌, ◌<◌, ◌≡◌, refl, ap₂, true, Bool, false, not, some, Option, List, [], ◌∷◌,
  ◌==◌, ==_iff, bit_and, bit_or, holds_below, holds_below_lem, holds_for_pairs, holds_for_pairs_lem,
  arith,
}
use perfexpert.Base64.{letter, index_of, decode_digit, bytes_of}

equal_below :
    (bound : ℕ) (f g : ℕ → ℕ)
    → holds_below (λ x. f x == g x) bound ≡ true
    → (x : ℕ) → x < bound
    → f x ≡ g x
equal_below bound f g all x h =
    (==_iff (f x) (g x)).0 (holds_below_lem (λ x. f x == g x) bound all x h)

equal_for_pairs :
    (rows columns : ℕ) (f g : ℕ → ℕ → ℕ)
    → holds_for_pairs (λ x y. f x y == g x y) rows columns ≡ true
    → (x y : ℕ) → x < rows
    → y < columns
    → f x y ≡ g x y
equal_for_pairs rows columns f g all x y hx hy =
    (==_iff (f x y) (g x y)).0
      (holds_for_pairs_lem (λ x y. f x y == g x y) rows columns all x y hx hy)

not-not : {b : Bool} → not b ≡ true → b ≡ false
not-not h = ground arith

-- The masks of the encoder on a byte.
pub and_low_two : (x : ℕ) → x < 256 → bit_and x 0x03 ≡ x % 4
unfolding holds_below
and_low_two = equal_below 256 (λ x. bit_and x 0x03) (λ x. x % 4) refl

pub and_high_four : (x : ℕ) → x < 256 → bit_and x 0xf0 / 16 ≡ x / 16
unfolding holds_below
and_high_four = equal_below 256 (λ x. bit_and x 0xf0 / 16) (λ x. x / 16) refl

pub and_low_four : (x : ℕ) → x < 256 → bit_and x 0x0f ≡ x % 16
unfolding holds_below
and_low_four = equal_below 256 (λ x. bit_and x 0x0f) (λ x. x % 16) refl

pub and_high_two : (x : ℕ) → x < 256 → bit_and x 0xc0 / 64 ≡ x / 64
unfolding holds_below
and_high_two = equal_below 256 (λ x. bit_and x 0xc0 / 64) (λ x. x / 64) refl

pub and_low_six : (x : ℕ) → x < 256 → bit_and x 0x3f ≡ x % 64
unfolding holds_below
and_low_six = equal_below 256 (λ x. bit_and x 0x3f) (λ x. x % 64) refl

-- Digits side by side.
pub or_two : (x y : ℕ) → x < 64 → y < 4 → bit_or (x * 4) y ≡ x * 4 + y
unfolding holds_below
or_two = equal_for_pairs 64 4 (λ x y. bit_or (x * 4) y) (λ x y. x * 4 + y) refl

pub or_four : (x y : ℕ) → x < 64 → y < 16 → bit_or (x * 16) y ≡ x * 16 + y
unfolding holds_below
or_four = equal_for_pairs 64 16 (λ x y. bit_or (x * 16) y) (λ x y. x * 16 + y) refl

or_six : (x y : ℕ) → x < 4 → y < 64 → bit_or (x * 64) y ≡ x * 64 + y
unfolding holds_below
or_six = equal_for_pairs 4 64 (λ x y. bit_or (x * 64) y) (λ x y. x * 64 + y) refl

and_shifted : (x : ℕ) → x < 64 → bit_and (x * 64) 0xc0 ≡ x % 4 * 64
unfolding holds_below
and_shifted = equal_below 64 (λ x. bit_and (x * 64) 0xc0) (λ x. x % 4 * 64) refl

-- The tables are inverse to each other, and no letter ends a text or pads it.
pub index_of-letter : (v : ℕ) → v < 64 → index_of (letter v) ≡ v
unfolding holds_below letter index_of
index_of-letter = equal_below 64 (λ v. index_of (letter v)) (λ v. v) refl

pub letter-not_null : (v : ℕ) → v < 64 → (letter v == 0) ≡ false
unfolding holds_below letter
letter-not_null v h = not-not (holds_below_lem (λ v. not (letter v == 0)) 64 refl v h)

letter-not_pad : (v : ℕ) → v < 64 → (letter v == b'=') ≡ false
unfolding holds_below letter
letter-not_pad v h = not-not (holds_below_lem (λ v. not (letter v == b'=')) 64 refl v h)

pub decode_digit-letter :
    (i v : ℕ) (numbytes : Option ℕ)
    → v < 64
    → decode_digit i (letter v) numbytes ≡ some (v, numbytes)
unfolding decode_digit
decode_digit-letter i v numbytes h =
    let small : (v == 100) ≡ false = ground arith in
    rw (letter-not_pad v h, index_of-letter v h, small)

-- The bytes that four digits make.
pub bytes_of_lem :
    (v0 v1 v2 v3 : ℕ)
    → v0 < 64
    → v1 < 64
    → v2 < 64
    → v3 < 64
    → bytes_of v0 v1 v2 v3 ≡ (v0 * 4 + v1 / 16) ∷ (v1 * 16 + v2 / 4) % 256 ∷ (v2 % 4 * 64 + v3) ∷ []
unfolding bytes_of
bytes_of_lem v0 v1 v2 v3 h0 h1 h2 h3 =
    rw
      (
        or_two v0 (v1 / 16) h0 (omega arith),
        or_four v1 (v2 / 4) h1 (omega arith),
        and_shifted v2 h2,
        or_six (v2 % 4) v3 (omega arith) h3,
      )
      (ap₂ (λ (x y : ℕ). List.◌∷◌ x (((v1 * 16 + v2 / 4) % 256) ∷ y ∷ [])) (omega arith)
        (omega arith))
