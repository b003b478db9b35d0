-- ===== src/CString/Replace.antt =====
-- What `perfexpert_string_replace_char` (common/perfexpert_string.c) replaces.
use perfexpert.Prelude.{
  ℕ, zero, suc, ◌+◌, ◌^◌, ◌<◌, ◌≡◌, ◌≢◌, sym, ap, ◌∙◌, some, List, [], ◌∷◌, ◌++◌, ◌==◌,
  if◌then◌else◌, length, map, append_assoc, length-append, Bool-cases, inl, inr, arith,
}
use perfexpert.Outcome.{ok}
use perfexpert.Base64.{strlen}
use perfexpert.CString.{read, write, char, replace_char_loop, perfexpert_string_replace_char}
use perfexpert.CString.InPlace.{
  IsText, IsText-append, strlen-IsText, read-append, write-append, snoc, length-snoc,
}

abbrev pub replaced : (old new : ℕ) → ℕ → ℕ
replaced old new c = if c == char old then char new else c

replace_step :
    (fuel old new i n c : ℕ) (str str' : List ℕ)
    → strlen str ≡ ok n
    → i + 1 < n
    → read str i ≡ ok c
    → (if c == char old then write str i (char new) else ok str) ≡ ok str'
    → i + 1 < 2 ^ 31
    → replace_char_loop (suc fuel) str old new i ≡ replace_char_loop fuel str' old new (i + 1)
unfolding replace_char_loop
replace_step fuel old new i n c str str' len inside r w small = ground arith

replace_end :
    (fuel old new i : ℕ) (str : List ℕ)
    → strlen str ≡ ok (i + 1)
    → replace_char_loop (suc fuel) str old new i ≡ ok str
unfolding replace_char_loop
replace_end fuel old new i str len = ground arith

write-replaced :
    (old new c : ℕ) (before after : List ℕ)
    → (if c == char old
        then write (before ++ c ∷ after) (length before) (char new)
        else ok (before ++ c ∷ after))
      ≡ ok (before ++ replaced old new c ∷ after)
write-replaced old new c before after = elim (Bool-cases (c == char old)) [
  | inl same ↦ rw same (write-append before c (char new) after)
  | inr other ↦ rw other
]

replaced-not_null : (old new c : ℕ) → c ≢ 0 → char new ≢ 0 → replaced old new c ≢ 0
replaced-not_null old new c h hn = ground arith

replace_char_loop-map :
    (old new last : ℕ) (text : List ℕ) (fuel : ℕ) (before rest : List ℕ)
    → char new ≢ 0
    → IsText before
    → IsText text
    → last ≢ 0
    → length text < fuel
    → length before + length text < 2 ^ 31
    → replace_char_loop fuel (before ++ (text ++ last ∷ 0 ∷ rest)) old new (length before)
      ≡ ok (before ++ (map (replaced old new) text ++ last ∷ 0 ∷ rest))
replace_char_loop-map old new last text zero before rest hn hb ht hl enough small =
    absurd (omega arith)
replace_char_loop-map old new last [] (suc fuel) before rest hn hb ht hl enough small =
    replace_end fuel old new (length before) _ (
      rw (snoc before last (0 ∷ rest), length-snoc before last)
        (strlen-IsText (before ++ last ∷ []) rest (IsText-append before (last ∷ []) hb (hl, tt))))
replace_char_loop-map old new last (c ∷ text) (suc fuel) before rest hn hb (h, ht) hl enough small =
    let after = text ++ last ∷ 0 ∷ rest in
    let d = replaced old new c in
    let text' = before ++ ((c ∷ text) ++ last ∷ []) in
    let same : before ++ c ∷ after ≡ text' ++ 0 ∷ rest = sym (
      append_assoc before ((c ∷ text) ++ last ∷ []) (0 ∷ rest)
      ∙ ap (λ (t : List ℕ). before ++ c ∷ t) (append_assoc text (last ∷ []) (0 ∷ rest))) in
    let len : strlen (before ++ c ∷ after) ≡ ok (length text') = rw same (
      strlen-IsText text' rest
        (IsText-append before _ hb (h, IsText-append text (last ∷ []) ht (hl, tt)))) in
    let inside : length before + 1 < length text' =
      omega
        (arith, length-append before ((c ∷ text) ++ last ∷ []), length-append text (last ∷ [])) in
    replace_step fuel old new (length before) _ c _ _ len inside (read-append before c after)
      (write-replaced old new c before after) (omega arith)
    ∙ rw
        (
          snoc before d after,
          length-snoc before d,
          snoc before d (map (replaced old new) text ++ last ∷ 0 ∷ rest),
        )
        (replace_char_loop-map old new last text fuel (before ++ d ∷ []) rest hn
          (IsText-append before (d ∷ []) hb (replaced-not_null old new c h hn, tt)) ht hl
          (omega arith) (omega (arith, length-snoc before d)))

-- On a text of at most 2^31 bytes, none of them null, that is not empty, with a null byte behind it, and for a new
-- character that is not null, perfexpert_string_replace_char returns the text with the old
-- character replaced everywhere but at the end: the last character stays as it is.
perfexpert_string_replace_char-map :
    (old new last : ℕ) (text rest : List ℕ)
    → char new ≢ 0
    → IsText text
    → last ≢ 0
    → length text < 2 ^ 31
    → perfexpert_string_replace_char (some (text ++ last ∷ 0 ∷ rest)) old new
      ≡ ok (some (map (replaced old new) text ++ last ∷ 0 ∷ rest))
unfolding perfexpert_string_replace_char
perfexpert_string_replace_char-map old new last text rest hn ht hl small = rw (
    replace_char_loop-map old new last text (suc (length (text ++ last ∷ 0 ∷ rest))) [] rest hn tt
      ht hl (omega (arith, length-append text (last ∷ 0 ∷ rest))) (omega (arith, small)))
