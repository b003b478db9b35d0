-- ===== src/Base64/RoundTrip.antt =====
-- Decoding what was encoded, and decoding illegal letters (common/perfexpert_base64.c).
use perfexpert.Prelude.{
  ℕ, zero, suc, ◌+◌, ◌-◌, ◌*◌, ◌/◌, ◌%◌, ◌^◌, ◌<◌, ◌≤◌, ◌≡◌, refl, ap, ◌∙◌, true, false, some,
  Option, List, [], ◌∷◌, ◌++◌, ◌==◌, ltb, length, take, map, arith,
}
use native.Mathlib.Nat.{add-zero, zero-add}
use perfexpert.Outcome.{Outcome, ok}
use perfexpert.Base64.{
  letter, strlen, bytes_of, base64_decode_block, after_block, decode_loop, base64_decode_binary,
  perfexpert_base64_encode, perfexpert_base64_decode, decode_digit,
}
use perfexpert.Base64.Bits.{letter-not_null, decode_digit-letter, bytes_of_lem}
use perfexpert.Base64.Words.{IsBytes, words, base64_encode_binary-words}

-- The bytes that the decoder writes for a text: those of a last block of fewer bytes are zero.
unfoldable decoded : List ℕ → List (Option ℕ)
decoded [] = []
decoded (a ∷ []) = some a ∷ some 0 ∷ some 0 ∷ []
decoded (a ∷ b ∷ []) = some a ∷ some b ∷ some 0 ∷ []
decoded (a ∷ b ∷ c ∷ rest) = some a ∷ some b ∷ some c ∷ decoded rest

bytes_of_three :
    (a b c : ℕ)
    → a < 256
    → b < 256
    → c < 256
    → bytes_of (a / 4) (a % 4 * 16 + b / 16) (b % 16 * 4 + c / 64) (c % 64) ≡ a ∷ b ∷ c ∷ []
bytes_of_three a b c ha hb hc =
    let v1 = a % 4 * 16 + b / 16 in
    let v2 = b % 16 * 4 + c / 64 in
    let first : a / 4 * 4 + v1 / 16 ≡ a = omega arith in
    let second : (v1 * 16 + v2 / 4) % 256 ≡ b = omega arith in
    let third : v2 % 4 * 64 + c % 64 ≡ c = omega arith in
    rw (
      bytes_of_lem (a / 4) v1 v2 (c % 64) (omega arith) (omega arith) (omega arith) (omega arith),
      first,
      second,
      third,
    )

decode_block-letters :
    (v0 v1 v2 v3 : ℕ)
    → v0 < 64
    → v1 < 64
    → v2 < 64
    → v3 < 64
    → base64_decode_block (letter v0) (letter v1) (letter v2) (letter v3)
      ≡ some (some 3, bytes_of v0 v1 v2 v3)
unfolding base64_decode_block
decode_block-letters v0 v1 v2 v3 h0 h1 h2 h3 = rw (
  decode_digit-letter 3 v3 (some 3) h3,
  decode_digit-letter 2 v2 (some 3) h2,
  decode_digit-letter 1 v1 (some 3) h1,
  decode_digit-letter 0 v0 (some 3) h0,
  base64_decode_block,
)

block_of_three :
    (a b c : ℕ)
    → a < 256
    → b < 256
    → c < 256
    → base64_decode_block
        (letter (a / 4))
        (letter (a % 4 * 16 + b / 16))
        (letter (b % 16 * 4 + c / 64))
        (letter (c % 64))
      ≡ some (some 3, a ∷ b ∷ c ∷ [])
block_of_three a b c ha hb hc = rw (
  decode_block-letters (a / 4) (a % 4 * 16 + b / 16) (b % 16 * 4 + c / 64) (c % 64) (omega arith)
      (omega arith) (omega arith) (omega arith),
  bytes_of_three a b c ha hb hc,
)

block_of_two :
    (a b : ℕ)
    → a < 256
    → b < 256
    → base64_decode_block (letter (a / 4)) (letter (a % 4 * 16 + b / 16)) (letter (b % 16 * 4)) b'='
      ≡ some (some 2, a ∷ b ∷ 0 ∷ [])
unfolding base64_decode_block decode_digit
block_of_two a b ha hb =
    let v1 = a % 4 * 16 + b / 16 in
    let last : b % 16 * 4 ≡ b % 16 * 4 + 0 / 64 = omega arith in
    rw (
      decode_digit-letter 2 (b % 16 * 4) (some 2) (omega arith),
      decode_digit-letter 1 v1 (some 2) (omega arith),
      decode_digit-letter 0 (a / 4) (some 2) (omega arith),
      base64_decode_block,
      last,
      bytes_of_three a b 0 ha hb (omega arith),
    )

block_of_one :
    (a : ℕ)
    → a < 256
    → base64_decode_block (letter (a / 4)) (letter (a % 4 * 16)) b'=' b'='
      ≡ some (some 1, a ∷ 0 ∷ 0 ∷ [])
unfolding base64_decode_block decode_digit
block_of_one a ha =
    let last : a % 4 * 16 ≡ a % 4 * 16 + 0 / 16 = omega arith in
    rw (
      decode_digit-letter 1 (a % 4 * 16) (some 1) (omega arith),
      decode_digit-letter 0 (a / 4) (some 1) (omega arith),
      base64_decode_block,
      last,
      bytes_of_three a 0 0 ha (omega arith) (omega arith),
    )

after_block-some :
    (n numbytes : ℕ) (bytes : List ℕ) (continue : ℕ → Outcome (Option (ℕ × List (Option ℕ))))
    {count : ℕ} {out : List (Option ℕ)}
    → numbytes + n < 2 ^ 31
    → continue (numbytes + n) ≡ ok (some (count, out))
    → after_block (some (some n, bytes)) numbytes continue
      ≡ ok (some (count, map some bytes ++ out))
unfolding after_block
after_block-some n numbytes bytes continue small e =
    let fits : ltb (numbytes + n) (2 ^ 31) ≡ true = ground (arith, small) in rw (fits, e)

four_left : (left : ℕ) → ltb 0 (suc (suc (suc (suc left)))) ≡ true
four_left left = ground arith

-- A round of the loop.
decode_loop-step :
    (fuel w0 w1 w2 w3 left numbytes : ℕ) (memory : List ℕ)
    → decode_loop (suc fuel) (w0 ∷ w1 ∷ w2 ∷ w3 ∷ memory) (suc (suc (suc (suc left)))) numbytes
      ≡ after_block (base64_decode_block w0 w1 w2 w3) numbytes (decode_loop fuel memory left)
unfolding decode_loop
decode_loop-step fuel w0 w1 w2 w3 left numbytes memory =
    let fewer : suc (suc (suc (suc left))) - 4 ≡ left = omega arith in
    rw (decode_loop, four_left left)
      (ap
        (λ k.
          after_block (base64_decode_block w0 w1 w2 w3) numbytes
            (λ total. decode_loop fuel memory k total))
        fewer)

-- A round with a block that is decoded.
decode_loop-block :
    (fuel w0 w1 w2 w3 left numbytes n : ℕ) (memory bytes : List ℕ) {count : ℕ}
    {out : List (Option ℕ)}
    → numbytes + n < 2 ^ 31
    → base64_decode_block w0 w1 w2 w3 ≡ some (some n, bytes)
    → decode_loop fuel memory left (numbytes + n) ≡ ok (some (count, out))
    → decode_loop (suc fuel) (w0 ∷ w1 ∷ w2 ∷ w3 ∷ memory) (suc (suc (suc (suc left)))) numbytes
      ≡ ok (some (count, map some bytes ++ out))
decode_loop-block fuel w0 w1 w2 w3 left numbytes n memory bytes small here behind =
    decode_loop-step fuel w0 w1 w2 w3 left numbytes memory
    ∙ rw here (after_block-some n numbytes bytes (decode_loop fuel memory left) small behind)

decode_loop-decoded :
    (text : List ℕ) (fuel numbytes : ℕ)
    → IsBytes text
    → length text < fuel
    → numbytes + length text < 2 ^ 31
    → decode_loop fuel (words text ++ 0 ∷ []) (length (words text)) numbytes
      ≡ ok (some (numbytes + length text, decoded text))
unfolding words decoded decode_loop
decode_loop-decoded text zero numbytes bytes enough small = absurd (omega arith)
decode_loop-decoded [] (suc fuel) numbytes bytes enough small = rw add-zero
decode_loop-decoded (a ∷ []) (suc (suc fuel)) numbytes (ha, bytes) enough small =
    decode_loop-block (suc fuel) (letter (a / 4)) (letter (a % 4 * 16)) b'=' b'=' 0 numbytes 1
      (0 ∷ []) _ small (block_of_one a ha) refl
decode_loop-decoded (a ∷ b ∷ []) (suc (suc fuel)) numbytes (ha, (hb, bytes)) enough small =
    decode_loop-block (suc fuel) (letter (a / 4)) (letter (a % 4 * 16 + b / 16))
      (letter (b % 16 * 4)) b'=' 0 numbytes 2 (0 ∷ []) _ small (block_of_two a b ha hb) refl
decode_loop-decoded (a ∷ tail) (suc zero) numbytes bytes enough small = absurd (omega arith)
decode_loop-decoded (a ∷ b ∷ c ∷ rest) (suc fuel) numbytes (ha, (hb, (hc, bytes))) enough small =
    let total : numbytes + length (a ∷ b ∷ c ∷ rest) ≡ numbytes + 3 + length rest = omega arith in
    rw total (
      decode_loop-block fuel (letter (a / 4)) (letter (a % 4 * 16 + b / 16))
        (letter (b % 16 * 4 + c / 64)) (letter (c % 64)) (length (words rest)) numbytes 3
        (words rest ++ 0 ∷ []) _ (omega arith) (block_of_three a b c ha hb hc)
        (decode_loop-decoded rest fuel (numbytes + 3) bytes (omega arith) (omega arith)))

-- A text without null bytes ends at the null byte behind it.
unfoldable AllNonzero : List ℕ → Type 0
AllNonzero [] = Unit
AllNonzero (x ∷ xs) = ((x == 0) ≡ false) × AllNonzero xs

words-AllNonzero : (text : List ℕ) → IsBytes text → AllNonzero (words text)
unfolding words AllNonzero
words-AllNonzero [] bytes = tt
words-AllNonzero (a ∷ []) (ha, bytes) =
    (letter-not_null _ (omega arith), (letter-not_null _ (omega arith), (refl, (refl, tt))))
words-AllNonzero (a ∷ b ∷ []) (ha, (hb, bytes)) = (
  letter-not_null _ (omega arith),
  (letter-not_null _ (omega arith), (letter-not_null _ (omega arith), (refl, tt))),
)
words-AllNonzero (a ∷ b ∷ c ∷ rest) (ha, (hb, (hc, bytes))) = (
  letter-not_null _ (omega arith),
  (
    letter-not_null _ (omega arith),
    (
      letter-not_null _ (omega arith),
      (letter-not_null _ (omega arith), words-AllNonzero rest bytes),
    ),
  ),
)

strlen-AllNonzero : (text : List ℕ) → AllNonzero text → strlen (text ++ 0 ∷ []) ≡ ok (length text)
unfolding strlen AllNonzero
strlen-AllNonzero [] h = refl
strlen-AllNonzero (x ∷ text) (h, rest) = rw (h, strlen-AllNonzero text rest)

take-decoded : (text : List ℕ) → take (length text) (decoded text) ≡ map some text
unfolding decoded
take-decoded [] = refl
take-decoded (a ∷ []) = refl
take-decoded (a ∷ b ∷ []) = refl
take-decoded (a ∷ b ∷ c ∷ rest) = ap (λ t. some a ∷ some b ∷ some c ∷ t) (take-decoded rest)

length-words_bound : (text : List ℕ) → length text ≤ length (words text)
unfolding words
length-words_bound [] = omega arith
length-words_bound (a ∷ []) = omega arith
length-words_bound (a ∷ b ∷ []) = omega arith
length-words_bound (a ∷ b ∷ c ∷ rest) = omega (arith, length-words_bound rest)

-- With memory to allocate, what perfexpert_base64_encode makes of the bytes of a non-empty text
-- of fewer than 2^31 bytes, with a null byte behind them and their number as size, is decoded by
-- perfexpert_base64_decode to the text.
pub perfexpert_base64_decode-encode :
    (text : List ℕ)
    → IsBytes text
    → 0 < length text
    → length text < 2 ^ 31
    → (encoded : List ℕ) × (perfexpert_base64_encode true (some (text ++ 0 ∷ [])) (length text)
        ≡ ok (some encoded))
      × (perfexpert_base64_decode true (encoded ++ 0 ∷ []) ≡ ok (some (map some text)))
unfolding perfexpert_base64_encode perfexpert_base64_decode base64_decode_binary
perfexpert_base64_decode-encode text bytes some_byte small =
    let sized : (length text == 0) ≡ false = ground arith in
    let fuel_left : length text < suc (length (words text)) =
      omega (arith, length-words_bound text) in
    (
      words text,
      rw (sized, (base64_encode_binary-words text bytes).0),
      rw (
        strlen-AllNonzero (words text) (words-AllNonzero text bytes),
        decode_loop-decoded text (suc (length (words text))) 0 bytes fuel_left
            (omega (arith, small)),
        zero-add,
        take-decoded text,
      ),
    )
