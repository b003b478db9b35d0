-- ===== src/CString/InPlace.antt =====
-- The functions of common/perfexpert_string.c that rewrite a string in place, as functions on texts.
use perfexpert.Prelude.{
  ℕ, zero, suc, ◌+◌, ◌^◌, ◌<◌, ◌≡◌, ◌≢◌, refl, sym, ap, ◌∙◌, true, false, some, List, [], ◌∷◌, ◌++◌,
  ◌==◌, ltb, length, set, map, append_assoc, length-append, arith,
}
use perfexpert.Outcome.{ok}
use perfexpert.Base64.{strlen}
use perfexpert.CString.{read, write, to_lower_loop, perfexpert_string_to_lower}

-- A text without null bytes.
abbrev pub IsText : List ℕ → Type 0
IsText [] = Unit
IsText (c ∷ text) = (c ≢ 0) × IsText text

pub IsText-append : (s t : List ℕ) → IsText s → IsText t → IsText (s ++ t)
IsText-append [] t hs ht = ht
IsText-append (c ∷ s) t (h, hs) ht = (h, IsText-append s t hs ht)

pub strlen-IsText :
    (text rest : List ℕ) → IsText text → strlen (text ++ 0 ∷ rest) ≡ ok (length text)
unfolding strlen
strlen-IsText [] rest h = refl
strlen-IsText (c ∷ text) rest (h, hs) =
    let other : (c == 0) ≡ false = ground arith in rw (other, strlen-IsText text rest hs)

-- The byte behind a stretch of the memory.
pub read-append :
    (before : List ℕ) (c : ℕ) (after : List ℕ) → read (before ++ c ∷ after) (length before) ≡ ok c
read-append [] c after = refl
read-append (b ∷ before) c after = read-append before c after

set-append :
    (before : List ℕ) (c v : ℕ) (after : List ℕ)
    → set (before ++ c ∷ after) (length before) v ≡ before ++ v ∷ after
set-append [] c v after = refl
set-append (b ∷ before) c v after = ap (◌∷◌ b) (set-append before c v after)

pub write-append :
    (before : List ℕ) (c v : ℕ) (after : List ℕ)
    → write (before ++ c ∷ after) (length before) v ≡ ok (before ++ v ∷ after)
write-append before c v after =
    let inside : ltb (length before) (length (before ++ c ∷ after)) ≡ true =
      ground (arith, length-append before (c ∷ after)) in
    rw inside (ap ok (set-append before c v after))

pub snoc :
    (before : List ℕ) (c : ℕ) (after : List ℕ) → before ++ c ∷ after ≡ (before ++ c ∷ []) ++ after
snoc before c after = sym (append_assoc before (c ∷ []) after)

pub length-snoc : (before : List ℕ) (c : ℕ) → length before + 1 ≡ length (before ++ c ∷ [])
length-snoc before c = sym (length-append before (c ∷ []))

module _ (tolower : ℕ → ℕ) where
  to_lower_loop-step :
      (fuel i c : ℕ) (str str' : List ℕ)
      → c ≢ 0
      → read str i ≡ ok c
      → write str i (tolower c) ≡ ok str'
      → i + 1 < 2 ^ 31
      → to_lower_loop tolower (suc fuel) str i ≡ to_lower_loop tolower fuel str' (i + 1)
  unfolding to_lower_loop
  to_lower_loop-step fuel i c str str' h r w small = ground arith

  to_lower_loop-map :
      (text : List ℕ) (fuel : ℕ) (before rest : List ℕ)
      → IsText text
      → length text < fuel
      → length before + length text < 2 ^ 31
      → to_lower_loop tolower fuel (before ++ (text ++ 0 ∷ rest)) (length before)
        ≡ ok (before ++ (map tolower text ++ 0 ∷ rest))
  unfolding to_lower_loop
  to_lower_loop-map text zero before rest h enough small = absurd (omega arith)
  to_lower_loop-map [] (suc fuel) before rest h enough small = rw (read-append before 0 rest)
  to_lower_loop-map (c ∷ text) (suc fuel) before rest (h, hs) enough small =
      let d = tolower c in
      let after = text ++ 0 ∷ rest in
      let step =
        to_lower_loop-step fuel (length before) c (before ++ c ∷ after) (before ++ d ∷ after) h
          (read-append before c after) (write-append before c d after) (omega arith) in
      step
      ∙ rw (snoc before d after, length-snoc before d, snoc before d (map tolower text ++ 0 ∷ rest))
          (to_lower_loop-map text fuel (before ++ d ∷ []) rest hs (omega arith)
            (omega (arith, length-snoc before d)))

  -- On a text of fewer than 2^31 bytes, none of them null, with a null byte behind it, it turns
  -- every byte of the text by tolower, and leaves what is behind the text.
  perfexpert_string_to_lower-map :
      (text rest : List ℕ)
      → IsText text
      → length text < 2 ^ 31
      → perfexpert_string_to_lower tolower (some (text ++ 0 ∷ rest))
        ≡ ok (some (map tolower text ++ 0 ∷ rest))
  unfolding perfexpert_string_to_lower
  perfexpert_string_to_lower-map text rest h small = rw (
      to_lower_loop-map text (suc (length (text ++ 0 ∷ rest))) [] rest h
        (omega (arith, length-append text (0 ∷ rest))) (omega (arith, small)))
