-- ===== src/CString/Remove.antt =====
-- `perfexpert_string_remove_char` (common/perfexpert_string.c) as a filter of the text.
use perfexpert.Prelude.{
  ℕ, zero, suc, ◌+◌, ◌^◌, ◌<◌, ◌≤◌, ◌≡◌, ◌≢◌, ◌∙◌, true, false, some, List, [], ◌∷◌, ◌++◌, ◌==◌,
  if◌then◌else◌, length, append_assoc, append-nil, length-append, Bool-cases, inl, inr, arith,
}
use perfexpert.Outcome.{Outcome, ok}
use perfexpert.Base64.{strlen}
use perfexpert.CString.{read, write, char, remove_char_loop, perfexpert_string_remove_char}
use perfexpert.CString.InPlace.{
  IsText, IsText-append, strlen-IsText, read-append, write-append, snoc, length-snoc,
}

-- The text without the bytes that are equal to the token.
unfoldable pub without : ℕ → List ℕ → List ℕ
without token [] = []
without token (c ∷ text) =
    let rest = without token text in if c == char token then rest else c ∷ rest

step_over :
    (fuel token i j n c : ℕ) (str : List ℕ)
    → strlen str ≡ ok n
    → i < n
    → read str i ≡ ok c
    → (c == char token) ≡ true
    → i + 1 < 2 ^ 31
    → remove_char_loop (suc fuel) str token i j ≡ remove_char_loop fuel str token (i + 1) j
unfolding remove_char_loop
step_over fuel token i j n c str len inside r same small = ground arith

step_keep :
    (fuel token i j n c : ℕ) (str str' : List ℕ)
    → strlen str ≡ ok n
    → i < n
    → read str i ≡ ok c
    → (c == char token) ≡ false
    → write str j c ≡ ok str'
    → i + 1 < 2 ^ 31
    → j + 1 < 2 ^ 31
    → remove_char_loop (suc fuel) str token i j ≡ remove_char_loop fuel str' token (i + 1) (j + 1)
unfolding remove_char_loop
step_keep fuel token i j n c str str' len inside r other w small_i small_j = ground arith

step_end :
    (fuel token i j n : ℕ) (str str' : List ℕ)
    → strlen str ≡ ok n
    → n ≤ i
    → write str j 0 ≡ ok str'
    → remove_char_loop (suc fuel) str token i j ≡ ok str'
unfolding remove_char_loop
step_end fuel token i j n str str' len over w = ground arith

-- The bytes between the two indices, after the first of them was written over.
unfoldable moved : List ℕ → ℕ → List ℕ
moved [] c = []
moved (x ∷ junk) c = junk ++ c ∷ []

moved-IsText : (junk : List ℕ) (c : ℕ) → IsText junk → c ≢ 0 → IsText (moved junk c)
unfolding moved
moved-IsText [] c hs h = tt
moved-IsText (x ∷ junk) c (hx, hs) h = IsText-append junk (c ∷ []) hs (h, tt)

length-moved :
    (kept junk : List ℕ) (c v : ℕ)
    → length (kept ++ junk) + 1 ≡ length ((kept ++ v ∷ []) ++ moved junk c)
unfolding moved
length-moved kept [] c v = rw (append-nil, append-nil) (length-snoc kept v)
length-moved kept (x ∷ junk) c v = omega (
  arith,
  length-append kept (x ∷ junk),
  length-append (kept ++ v ∷ []) (junk ++ c ∷ []),
  length-snoc kept v,
  length-snoc junk c,
)

write_inside :
    (kept junk after : List ℕ) (c v : ℕ)
    → write ((kept ++ junk) ++ c ∷ after) (length kept) v
      ≡ ok (((kept ++ v ∷ []) ++ moved junk c) ++ after)
unfolding moved
write_inside kept [] after c v =
    rw (append-nil kept, append-nil (kept ++ v ∷ []), ← snoc kept v after)
      (write-append kept c v after)
write_inside kept (x ∷ junk) after c v =
    rw
      (
        append_assoc kept (x ∷ junk) (c ∷ after),
        append_assoc (kept ++ v ∷ []) (junk ++ c ∷ []) after,
        ← snoc kept v ((junk ++ c ∷ []) ++ after),
        ← snoc junk c after,
      )
      (write-append kept x v (junk ++ c ∷ after))

strlen_of_parts :
    (front text rest : List ℕ)
    → IsText front
    → IsText text
    → strlen (front ++ (text ++ 0 ∷ rest)) ≡ ok (length front + length text)
strlen_of_parts front text rest hf ht =
    rw (← append_assoc front text (0 ∷ rest), ← length-append front text)
      (strlen-IsText (front ++ text) rest (IsText-append front text hf ht))

-- The string holds the text, and then whatever is left of the memory.
abbrev Holds : List ℕ → Outcome (List ℕ) → Type 0
Holds text r = (tail : List ℕ) × (r ≡ ok (text ++ 0 ∷ tail))

remove_char_loop-without :
    (token : ℕ) (text : List ℕ) (fuel : ℕ) (kept junk rest : List ℕ)
    → IsText kept
    → IsText junk
    → IsText text
    → length text < fuel
    → length (kept ++ junk) + length text < 2 ^ 31
    → Holds (kept ++ without token text) (
        remove_char_loop fuel
          ((kept ++ junk) ++ (text ++ 0 ∷ rest))
          token
          (length (kept ++ junk))
          (length kept))
unfolding without
remove_char_loop-without token text zero kept junk rest hk hj ht enough small = absurd (omega arith)
remove_char_loop-without token [] (suc fuel) kept junk rest hk hj ht enough small = (
  moved junk 0 ++ rest,
  step_end fuel token (length (kept ++ junk)) (length kept) (length (kept ++ junk)) _ _
        (strlen-IsText (kept ++ junk) rest (IsText-append kept junk hk hj)) (omega arith)
        (write_inside kept junk rest 0 0)
      ∙ rw (
        append_assoc (kept ++ 0 ∷ []) (moved junk 0) rest,
        append-nil kept,
        ← snoc kept 0 (moved junk 0 ++ rest),
      ),
)
remove_char_loop-without token (c ∷ text) (suc fuel) kept junk rest hk hj (h, ht) enough small =
    let front = kept ++ junk in
    let after = text ++ 0 ∷ rest in
    let n : length front < length front + length (c ∷ text) = omega arith in
    let len = strlen_of_parts front (c ∷ text) rest (IsText-append kept junk hk hj) (h, ht) in
    elim (Bool-cases (c == char token)) [
      | inl same ↦
          let (tail, e) =
            remove_char_loop-without token text fuel kept (junk ++ c ∷ []) rest hk
              (IsText-append junk (c ∷ []) hj (h, tt)) ht (omega arith)
              (omega (
                arith,
                small,
                length-append kept (junk ++ c ∷ []),
                length-append kept junk,
                length-snoc junk c,
              )) in
          (
            tail,
            step_over fuel token (length front) (length kept) _ c _ len n
                  (read-append front c after) same (omega arith)
                ∙ rw
                    (same, snoc front c after, length-snoc front c, append_assoc kept junk (c ∷ []))
                    e,
          )
      | inr other ↦
          let (tail, e) =
            remove_char_loop-without token text fuel (kept ++ c ∷ []) (moved junk c) rest
              (IsText-append kept (c ∷ []) hk (h, tt)) (moved-IsText junk c hj h) ht (omega arith)
              (omega (arith, small, length-moved kept junk c c)) in
          (
            tail,
            step_keep fuel token (length front) (length kept) _ c _ _ len n
                  (read-append front c after) other (write_inside kept junk after c c) (omega arith)
                  (omega (arith, length-append kept junk))
                ∙ rw
                    (
                      other,
                      length-moved kept junk c c,
                      length-snoc kept c,
                      snoc kept c (without token text),
                    )
                    e,
          )
    ]

-- On a text of fewer than 2^31 bytes, none of them null, with a null byte behind it,
-- perfexpert_string_remove_char returns, and leaves the text without the bytes that are equal to
-- the token, with a null byte behind them.
pub perfexpert_string_remove_char-without :
    (token : ℕ) (text rest : List ℕ)
    → IsText text
    → length text < 2 ^ 31
    → (tail : List ℕ) × (perfexpert_string_remove_char (some (text ++ 0 ∷ rest)) token
        ≡ ok (some (without token text ++ 0 ∷ tail)))
unfolding perfexpert_string_remove_char
perfexpert_string_remove_char-without token text rest h small =
    let fuel = suc (length (text ++ 0 ∷ rest)) in
    let (tail, e) =
      remove_char_loop-without token text fuel [] [] rest tt tt h
        (omega (arith, length-append text (0 ∷ rest))) (omega (arith, small)) in
    (tail, rw e)
