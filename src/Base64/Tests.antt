-- ===== src/Base64/Tests.antt =====
-- Texts on which the theorems on common/perfexpert_base64.c are applied.
use perfexpert.Prelude.{
  ℕ, ◌≡◌, refl, true, none, some, List, [], ◌∷◌, ◌++◌, length, codes, map, arith,
}
use perfexpert.Outcome.{ok}
use perfexpert.Base64.{
  letter, strlen, base64_encode_block, encode_loop, base64_encode_binary, decode_digit, bytes_of,
  base64_decode_block, after_block, decode_loop, base64_decode_binary, perfexpert_base64_encode,
  perfexpert_base64_decode, base64_index, index_of,
}
use perfexpert.Base64.Words.{IsBytes}
use perfexpert.Base64.RoundTrip.{perfexpert_base64_decode-encode}

abbrev text : List ℕ
text = codes "perf"

text-IsBytes : IsBytes text
text-IsBytes = (omega arith, (omega arith, (omega arith, (omega arith, tt))))

perfexpert_base64_decode-encode_example :
    (encoded : List ℕ) × (perfexpert_base64_encode true (some (text ++ 0 ∷ [])) (length text)
      ≡ ok (some encoded))
    × (perfexpert_base64_decode true (encoded ++ 0 ∷ []) ≡ ok (some (map some text)))
perfexpert_base64_decode-encode_example =
    perfexpert_base64_decode-encode text text-IsBytes (omega arith) (omega arith)

program : Unit {0}
unfolding base64_index letter index_of strlen base64_encode_block encode_loop base64_encode_binary
    decode_digit bytes_of base64_decode_block after_block decode_loop base64_decode_binary
    perfexpert_base64_encode perfexpert_base64_decode
program = tt

encoded_perf : base64_encode_binary (codes "perf" ++ 0 ∷ []) 4 ≡ ok (codes "cGVyZg==")
unfolding program
encoded_perf = refl

-- An illegal letter behind the first block is not reported, and takes one byte off the result.
undetected :
    perfexpert_base64_decode true (codes "cGVyZ*==" ++ 0 ∷ []) ≡ ok (some (map some (codes "pe")))
unfolding program
undetected = refl

detected : perfexpert_base64_decode true (codes "c*VyZg==" ++ 0 ∷ []) ≡ ok none
unfolding program
detected = refl
