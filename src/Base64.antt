-- ===== src/Base64.antt =====
-- common/perfexpert_base64.c: the base64 encoding. Memory is a list of bytes from a pointer on.
pub mod Bits
pub mod Words
pub mod RoundTrip
mod Tests
use perfexpert.Prelude.{
  ℕ, zero, suc, ◌+◌, ◌-◌, ◌*◌, ◌/◌, ◌%◌, Bool, true, false, Option, none, some, List, [], ◌∷◌, ◌++◌,
  ◌==◌, ltb, if◌then◌else◌, bit_and, bit_or, get_elem?, get_or, drop, take, map, codes,
}
use perfexpert.Outcome.{Outcome, ok, fault, as_int, ◌>>=◌, defined}

abbrev pub xx : ℕ
xx = 100

abbrev pub base64_list : List ℕ
base64_list = codes "ABCDEFGHIJKLMNOPQRSTUVWXYZabcdefghijklmnopqrstuvwxyz0123456789+/"

unfoldable pub base64_index : List ℕ
base64_index =
    xx ∷ xx ∷ xx ∷ xx ∷ xx ∷ xx ∷ xx ∷ xx ∷ xx ∷ xx ∷ xx ∷ xx ∷ xx ∷ xx ∷ xx ∷ xx ∷ xx ∷ xx ∷ xx
    ∷ xx ∷ xx ∷ xx ∷ xx ∷ xx ∷ xx ∷ xx ∷ xx ∷ xx ∷ xx ∷ xx ∷ xx ∷ xx ∷ xx ∷ xx ∷ xx ∷ xx ∷ xx ∷ xx
    ∷ xx ∷ xx ∷ xx ∷ xx ∷ xx ∷ 62 ∷ xx ∷ xx ∷ xx ∷ 63 ∷ 52 ∷ 53 ∷ 54 ∷ 55 ∷ 56 ∷ 57 ∷ 58 ∷ 59 ∷ 60
    ∷ 61 ∷ xx ∷ xx ∷ xx ∷ xx ∷ xx ∷ xx ∷ xx ∷ 0 ∷ 1 ∷ 2 ∷ 3 ∷ 4 ∷ 5 ∷ 6 ∷ 7 ∷ 8 ∷ 9 ∷ 10 ∷ 11 ∷ 12
    ∷ 13 ∷ 14 ∷ 15 ∷ 16 ∷ 17 ∷ 18 ∷ 19 ∷ 20 ∷ 21 ∷ 22 ∷ 23 ∷ 24 ∷ 25 ∷ xx ∷ xx ∷ xx ∷ xx ∷ xx ∷ xx
    ∷ 26 ∷ 27 ∷ 28 ∷ 29 ∷ 30 ∷ 31 ∷ 32 ∷ 33 ∷ 34 ∷ 35 ∷ 36 ∷ 37 ∷ 38 ∷ 39 ∷ 40 ∷ 41 ∷ 42 ∷ 43 ∷ 44
    ∷ 45 ∷ 46 ∷ 47 ∷ 48 ∷ 49 ∷ 50 ∷ 51 ∷ xx ∷ xx ∷ xx ∷ xx ∷ xx ∷ xx ∷ xx ∷ xx ∷ xx ∷ xx ∷ xx ∷ xx
    ∷ xx ∷ xx ∷ xx ∷ xx ∷ xx ∷ xx ∷ xx ∷ xx ∷ xx ∷ xx ∷ xx ∷ xx ∷ xx ∷ xx ∷ xx ∷ xx ∷ xx ∷ xx ∷ xx
    ∷ xx ∷ xx ∷ xx ∷ xx ∷ xx ∷ xx ∷ xx ∷ xx ∷ xx ∷ xx ∷ xx ∷ xx ∷ xx ∷ xx ∷ xx ∷ xx ∷ xx ∷ xx ∷ xx
    ∷ xx ∷ xx ∷ xx ∷ xx ∷ xx ∷ xx ∷ xx ∷ xx ∷ xx ∷ xx ∷ xx ∷ xx ∷ xx ∷ xx ∷ xx ∷ xx ∷ xx ∷ xx ∷ xx
    ∷ xx ∷ xx ∷ xx ∷ xx ∷ xx ∷ xx ∷ xx ∷ xx ∷ xx ∷ xx ∷ xx ∷ xx ∷ xx ∷ xx ∷ xx ∷ xx ∷ xx ∷ xx ∷ xx
    ∷ xx ∷ xx ∷ xx ∷ xx ∷ xx ∷ xx ∷ xx ∷ xx ∷ xx ∷ xx ∷ xx ∷ xx ∷ xx ∷ xx ∷ xx ∷ xx ∷ xx ∷ xx ∷ xx
    ∷ xx ∷ xx ∷ xx ∷ xx ∷ xx ∷ xx ∷ xx ∷ xx ∷ xx ∷ xx ∷ xx ∷ xx ∷ xx ∷ xx ∷ xx ∷ xx ∷ xx ∷ xx ∷ xx
    ∷ xx ∷ xx ∷ xx ∷ xx ∷ xx ∷ xx ∷ xx ∷ []

-- `base64_list[i]`, for the indices below 64 that the encoder makes.
unfoldable pub letter : ℕ → ℕ
letter i = get_or base64_list i 0

-- `base64_index[c]`, for a byte `c`.
unfoldable pub index_of : ℕ → ℕ
unfolding base64_index
index_of c = get_or base64_index c xx

-- `base64_encode_block`: it reads the third byte only if `len` is more than one.
unfoldable pub base64_encode_block : List ℕ → (len : ℕ) → Outcome (List ℕ)
unfolding letter
base64_encode_block memory len = do
  in0 ← defined (get_elem? memory 0)
  in1 ← defined (get_elem? memory 1)
  out2 ←
      (if ltb 1 len
        then (defined (get_elem? memory 2) >>= λ in2.
            ok (letter (bit_or (bit_and in1 0x0f * 4) (bit_and in2 0xc0 / 64))))
        else ok b'=')
  out3 ←
      (if ltb 2 len
        then (defined (get_elem? memory 2) >>= λ in2. ok (letter (bit_and in2 0x3f)))
        else ok b'=')
  ok (
      letter (in0 / 4)
      ∷ letter (bit_or (bit_and in0 0x03 * 16) (bit_and in1 0xf0 / 16))
      ∷ out2
      ∷ out3
      ∷ [])

-- The loop of `base64_encode_binary`, on fuel; `fault` also stands for fuel that has run out.
unfoldable pub encode_loop : (fuel : ℕ) → List ℕ → (len i : ℕ) → Outcome (List ℕ)
unfolding base64_encode_block
encode_loop zero memory len i = fault
encode_loop (suc fuel) memory len i =
    let block =
      base64_encode_block (drop i memory) (if ltb (len - i) 4 then len - i else 4) >>= λ letters.
      encode_loop fuel memory len (i + 3) >>= λ rest. ok (letters ++ rest) in
    if ltb i len then block else ok []

unfoldable pub base64_encode_binary : List ℕ → (len : ℕ) → Outcome (List ℕ)
unfolding encode_loop
base64_encode_binary memory len = encode_loop (suc len) memory len 0

-- `strlen`: a read past the end of the memory is a fault.
unfoldable pub strlen : List ℕ → Outcome ℕ
strlen [] = fault
strlen (c ∷ memory) = let rest = strlen memory >>= λ n. ok (suc n) in if c == 0 then ok 0 else rest

-- `base64_encoded_size` and `base64_decoded_size`
unfoldable pub base64_encoded_size : ℕ → ℕ
base64_encoded_size len = (len + 2) / 3 * 4

unfoldable pub base64_decoded_size : ℕ → ℕ
base64_decoded_size len = len / 4 * 3

-- `perfexpert_base64_encode`: `none` is `NULL`. The flag is the success of `malloc`.
unfoldable pub perfexpert_base64_encode :
    (allocated : Bool) → Option (List ℕ) → (size : ℕ) → Outcome (Option (List ℕ))
unfolding strlen base64_encode_binary
perfexpert_base64_encode allocated none size = ok none
perfexpert_base64_encode allocated (some memory) size = do
  len ← (if size == 0 then strlen memory else ok size)
  let encoded = base64_encode_binary memory len >>= λ out. ok (some out)
  if allocated then encoded else ok none

-- One round of the loop of `base64_decode_block`: the digit and the number of bytes so far, where
-- `none` is -1; `none` for the round is an illegal letter.
unfoldable pub decode_digit : (i letter : ℕ) → (numbytes : Option ℕ) → Option (ℕ × Option ℕ)
unfolding index_of
decode_digit i c numbytes =
    if c == b'='
    then some (0, if i == 0 then none else some (i - 1))
    else if index_of c == xx
    then none
    else some (index_of c, numbytes)

-- The bytes that four digits make.
unfoldable pub bytes_of : (t0 t1 t2 t3 : ℕ) → List ℕ
bytes_of t0 t1 t2 t3 =
    bit_or (t0 * 4) (t1 / 16) % 256
    ∷ bit_or (t1 * 16) (t2 / 4) % 256
    ∷ bit_or (bit_and (t2 * 64) 0xc0) t3 % 256
    ∷ []

-- `base64_decode_block`, from the last letter to the first: the bytes, and how many of them count
-- (`none` is -1); or `none`, where a letter is illegal and no byte is written.
unfoldable pub base64_decode_block : (in0 in1 in2 in3 : ℕ) → Option (Option ℕ × List ℕ)
unfolding decode_digit bytes_of
base64_decode_block in0 in1 in2 in3 = elim (decode_digit 3 in3 (some 3)) [
  | none ↦ none
  | some (t3, n3) ↦ elim (decode_digit 2 in2 n3) [
    | none ↦ none
    | some (t2, n2) ↦ elim (decode_digit 1 in1 n2) [
      | none ↦ none
      | some (t1, n1) ↦ elim (decode_digit 0 in0 n1) [
        | none ↦ none
        | some (t0, n0) ↦ some (n0, bytes_of t0 t1 t2 t3)
      ]
    ]
  ]
]

-- What a block adds to the count: -1 for an illegal letter, and then three bytes of the output
-- are passed over that nothing was written to.
abbrev pub block_count : Option (Option ℕ × List ℕ) → Option ℕ
block_count none = none
block_count (some (n, bytes)) = n

abbrev pub block_bytes : Option (Option ℕ × List ℕ) → List (Option ℕ)
block_bytes none = none ∷ none ∷ none ∷ []
block_bytes (some (n, bytes)) = map some bytes

-- `numbytes += n` on an `int`, where the count before is not negative; `none` is a negative sum.
abbrev pub add_count : ℕ → Option ℕ → Outcome (Option ℕ)
add_count numbytes none = ok (if numbytes == 0 then none else some (numbytes - 1))
add_count numbytes (some n) = as_int (numbytes + n) >>= λ total. ok (some total)

-- The round of the loop behind a block: it stops at a negative count, and `continue` is the rest of
-- the loop.
unfoldable pub after_block :
    Option (Option ℕ × List ℕ)
    → (numbytes : ℕ) → (continue : ℕ → Outcome (Option (ℕ × List (Option ℕ))))
    → Outcome (Option (ℕ × List (Option ℕ)))
after_block block numbytes continue = add_count numbytes (block_count block) >>= λ sum. elim sum [
  | none ↦ ok none
  | some total ↦ continue total >>= λ rest. elim rest [
    | none ↦ ok none
    | some (count, bytes) ↦ ok (some (count, block_bytes block ++ bytes))
  ]
]

-- The loop of `base64_decode_binary`, over the letters that are left, `left` of them before the
-- null byte. The result `none` is -1; an output byte `none` was not written.
unfoldable pub decode_loop :
    (fuel : ℕ) → List ℕ → (left numbytes : ℕ) → Outcome (Option (ℕ × List (Option ℕ)))
unfolding base64_decode_block after_block
decode_loop zero memory left numbytes = fault
decode_loop (suc fuel) memory left numbytes = elim (ltb 0 left) [
  | false ↦ ok (some (numbytes, []))
  | true ↦ do
    in3 ← defined (get_elem? memory 3)
    in2 ← defined (get_elem? memory 2)
    in1 ← defined (get_elem? memory 1)
    in0 ← defined (get_elem? memory 0)
    after_block (base64_decode_block in0 in1 in2 in3) numbytes
        (λ total. decode_loop fuel (drop 4 memory) (left - 4) total)
]

unfoldable pub base64_decode_binary : List ℕ → Outcome (Option (ℕ × List (Option ℕ)))
unfolding decode_loop strlen
base64_decode_binary memory = do len ← strlen memory; decode_loop (suc len) memory len 0

-- `perfexpert_base64_decode`: the bytes of the output before the null byte that it writes.
unfoldable pub perfexpert_base64_decode :
    (allocated : Bool) → List ℕ → Outcome (Option (List (Option ℕ)))
unfolding base64_decode_binary
perfexpert_base64_decode allocated memory =
    if allocated
    then (base64_decode_binary memory >>= λ decoded. elim decoded [
      | none ↦ ok none
      | some (numbytes, out) ↦ ok (some (take numbytes out))
    ])
    else ok none
