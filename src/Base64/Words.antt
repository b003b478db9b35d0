-- ===== src/Base64/Words.antt =====
-- What the encoder of common/perfexpert_base64.c makes of a text, by its arithmetic.
use perfexpert.Prelude.{
  ℕ, zero, suc, ◌+◌, ◌-◌, ◌*◌, ◌/◌, ◌%◌, ◌<◌, ◌≤◌, ◌≡◌, refl, ap, ◌∙◌, true, false, List, [], ◌∷◌,
  ◌++◌, ltb, length, drop, arith, if◌then◌else◌, bit_and, bit_or,
}
use native.Mathlib.Nat.{zero-add, suc-add, add-zero}
use perfexpert.Outcome.{ok}
use perfexpert.Base64.{
  letter, base64_encode_block, encode_loop, base64_encode_binary, base64_encoded_size,
}
use perfexpert.Base64.Bits.{
  and_low_two, and_high_four, and_low_four, and_high_two, and_low_six, or_two, or_four,
}

abbrev pub IsBytes : List ℕ → Type 0
IsBytes [] = Unit
IsBytes (x ∷ xs) = (x < 256) × IsBytes xs

-- Three bytes as four digits of six bits; a text that ends in a block of fewer is padded.
unfoldable pub words : List ℕ → List ℕ
words [] = []
words (a ∷ []) = letter (a / 4) ∷ letter (a % 4 * 16) ∷ b'=' ∷ b'=' ∷ []
words (a ∷ b ∷ []) = letter (a / 4) ∷ letter (a % 4 * 16 + b / 16) ∷ letter (b % 16 * 4) ∷ b'=' ∷ []
words (a ∷ b ∷ c ∷ rest) =
    letter (a / 4)
    ∷ letter (a % 4 * 16 + b / 16)
    ∷ letter (b % 16 * 4 + c / 64)
    ∷ letter (c % 64)
    ∷ words rest

second :
    (a b : ℕ)
    → a < 256
    → b < 256
    → bit_or (bit_and a 3 * 16) (bit_and b 0xf0 / 16) ≡ a % 4 * 16 + b / 16
second a b ha hb =
    rw (and_low_two a ha, and_high_four b hb) (or_four (a % 4) (b / 16) (omega arith) (omega arith))

third :
    (b c : ℕ)
    → b < 256
    → c < 256
    → bit_or (bit_and b 0xf * 4) (bit_and c 0xc0 / 64) ≡ b % 16 * 4 + c / 64
third b c hb hc =
    rw (and_low_four b hb, and_high_two c hc) (or_two (b % 16) (c / 64) (omega arith) (omega arith))

abbrev four_letters : ℕ → ℕ → ℕ → List ℕ
four_letters a b c =
    letter (a / 4)
    ∷ letter (a % 4 * 16 + b / 16)
    ∷ letter (b % 16 * 4 + c / 64)
    ∷ letter (c % 64)
    ∷ []

block_of_three :
    (a b c len : ℕ) (rest : List ℕ)
    → a < 256
    → b < 256
    → c < 256
    → 2 < len
    → base64_encode_block (a ∷ b ∷ c ∷ rest) len ≡ ok (four_letters a b c)
unfolding base64_encode_block
block_of_three a b c len rest ha hb hc h =
    let one : ltb 1 len ≡ true = ground arith in
    let two : ltb 2 len ≡ true = ground arith in
    rw (one, two, second a b ha hb, third b c hb hc, and_low_six c hc)

block_of_two :
    (a b : ℕ) → a < 256 → b < 256 → base64_encode_block (a ∷ b ∷ 0 ∷ []) 2 ≡ ok (words (a ∷ b ∷ []))
unfolding base64_encode_block words
block_of_two a b ha hb =
    let low : b % 16 * 4 + 0 / 64 ≡ b % 16 * 4 = omega arith in
    rw (second a b ha hb, third b 0 hb (omega arith), low)

block_of_one : (a : ℕ) → a < 256 → base64_encode_block (a ∷ 0 ∷ []) 1 ≡ ok (words (a ∷ []))
unfolding base64_encode_block words
block_of_one a ha =
    let low : a % 4 * 16 + 0 / 16 ≡ a % 4 * 16 = omega arith in
    rw (second a 0 ha (omega arith), low)

drop-drop : (i j : ℕ) (xs : List ℕ) → drop (i + j) xs ≡ drop j (drop i xs)
drop-drop zero j xs = rw zero-add
drop-drop (suc i) zero [] = rw add-zero
drop-drop (suc i) (suc j) [] = rw suc-add
drop-drop (suc i) j (x ∷ xs) = rw suc-add (drop-drop i j xs)

drop_after : (i j : ℕ) (xs : List ℕ) {ys : List ℕ} → drop i xs ≡ ys → drop (i + j) xs ≡ drop j ys
drop_after i j xs e = drop-drop i j xs ∙ ap (drop j) e

encode_loop-step :
    (fuel : ℕ) (memory : List ℕ) (len i size : ℕ) {block rest : List ℕ}
    → i < len
    → (if ltb (len - i) 4 then len - i else 4) ≡ size
    → base64_encode_block (drop i memory) size ≡ ok block
    → encode_loop fuel memory len (i + 3) ≡ ok rest
    → encode_loop (suc fuel) memory len i ≡ ok (block ++ rest)
unfolding encode_loop
encode_loop-step fuel memory len i size below of_size here behind =
    let goes_on : ltb i len ≡ true = ground arith in rw (goes_on, of_size, here, behind)

encode_loop-end :
    (fuel : ℕ) (memory : List ℕ) (len i : ℕ)
    → 0 < fuel
    → len ≤ i
    → encode_loop fuel memory len i ≡ ok []
unfolding encode_loop
encode_loop-end zero memory len i some_fuel done = absurd (omega arith)
encode_loop-end (suc fuel) memory len i some_fuel done =
    let over : ltb i len ≡ false = ground arith in rw over

length-words : (text : List ℕ) → length (words text) ≡ base64_encoded_size (length text)
unfolding words base64_encoded_size
length-words [] = refl
length-words (a ∷ []) = refl
length-words (a ∷ b ∷ []) = refl
length-words (a ∷ b ∷ c ∷ rest) = omega (arith, length-words rest)

encode_loop-words :
    (text : List ℕ) (fuel : ℕ) (memory : List ℕ) (len i : ℕ)
    → IsBytes text
    → drop i memory ≡ text ++ 0 ∷ []
    → len ≡ i + length text
    → length text < fuel
    → encode_loop fuel memory len i ≡ ok (words text)
unfolding words
encode_loop-words text zero memory len i bytes e n enough = absurd (omega arith)
encode_loop-words [] (suc fuel) memory len i bytes e n enough =
    encode_loop-end (suc fuel) memory len i (omega arith) (omega arith)
encode_loop-words (a ∷ []) (suc fuel) memory len i (ha, bytes) e n enough =
    encode_loop-step fuel memory len i 1 {block = words (a ∷ [])} (omega arith) (ground arith)
      (rw e (block_of_one a ha))
      (encode_loop-end fuel memory len (i + 3) (omega arith) (omega arith))
encode_loop-words (a ∷ b ∷ []) (suc fuel) memory len i (ha, (hb, bytes)) e n enough =
    encode_loop-step fuel memory len i 2 {block = words (a ∷ b ∷ [])} (omega arith) (ground arith)
      (rw e (block_of_two a b ha hb))
      (encode_loop-end fuel memory len (i + 3) (omega arith) (omega arith))
encode_loop-words (a ∷ b ∷ c ∷ rest) (suc fuel) memory len i (ha, (hb, (hc, bytes))) e n enough =
    let size = if ltb (len - i) 4 then len - i else 4 in
    encode_loop-step fuel memory len i size {block = four_letters a b c} (omega arith) refl
      (rw e (block_of_three a b c size (rest ++ 0 ∷ []) ha hb hc (ground arith)))
      (encode_loop-words rest fuel memory len (i + 3) bytes (drop_after i 3 memory e) (omega arith)
        (omega arith))

-- On the bytes of a text with a null byte behind them, the encoder writes the digits of six bits
-- of the text as letters, with padding, and as many letters as base64_encoded_size says.
pub base64_encode_binary-words :
    (text : List ℕ)
    → IsBytes text
    → (base64_encode_binary (text ++ 0 ∷ []) (length text) ≡ ok (words text))
      × (length (words text) ≡ base64_encoded_size (length text))
unfolding base64_encode_binary
base64_encode_binary-words text bytes = (
  encode_loop-words text (suc (length text)) (text ++ 0 ∷ []) (length text) 0 bytes refl
      (omega arith) (omega arith),
  length-words text,
)
