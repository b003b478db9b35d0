-- ===== src/CString/Tests.antt =====
-- Strings on which common/perfexpert_string.c is run, and its theorems are applied.
use perfexpert.Prelude.{ℕ, ◌≡◌, refl, some, List, [], ◌∷◌, ◌++◌, codes, arith}
use perfexpert.Outcome.{ok, fault}
use perfexpert.Base64.{strlen}
use perfexpert.CString.{
  remove_char_loop, perfexpert_string_remove_char, shift_loop, perfexpert_string_remove_char_pos,
  leading_loop, trailing_loop, perfexpert_string_remove_spaces, replace_char_loop,
  perfexpert_string_replace_char, to_lower_loop, perfexpert_string_to_lower, split_loop,
  perfexpert_string_split,
}
use perfexpert.CString.InPlace.{IsText}
use perfexpert.CString.Remove.{without, perfexpert_string_remove_char-without}

program : Unit {0}
unfolding strlen remove_char_loop perfexpert_string_remove_char shift_loop
    perfexpert_string_remove_char_pos leading_loop trailing_loop perfexpert_string_remove_spaces
    replace_char_loop perfexpert_string_replace_char to_lower_loop perfexpert_string_to_lower
    split_loop perfexpert_string_split without
program = tt

dash-IsText : IsText (codes "A-b")
dash-IsText = (λ e. omega (arith, e), (λ e. omega (arith, e), (λ e. omega (arith, e), tt)))

perfexpert_string_remove_char-without_example :
    (tail : List ℕ) × (perfexpert_string_remove_char (some (codes "A-b" ++ 0 ∷ [])) b'-'
      ≡ ok (some (codes "Ab" ++ 0 ∷ tail)))
unfolding without
perfexpert_string_remove_char-without_example =
    perfexpert_string_remove_char-without b'-' (codes "A-b") [] dash-IsText (omega arith)

-- The token is not recognized inside of quotes, which stay; empty pieces are dropped but at the end.
split_quoted :
    perfexpert_string_split (some (codes "a  \"b c\" " ++ 0 ∷ [])) b' '
    ≡ ok (0, codes "a" ∷ codes "\"b c\"" ∷ [] ∷ [])
unfolding program
split_quoted = refl

trimmed :
    perfexpert_string_remove_spaces (some (codes " a b " ++ 0 ∷ []))
    ≡ ok (some (codes "a b" ++ 0 ∷ 0 ∷ 0 ∷ []))
unfolding program
trimmed = refl

-- A string of spaces only becomes empty, and the byte before it is read.
all_spaces : perfexpert_string_remove_spaces (some (codes "  " ++ 0 ∷ [])) ≡ fault
unfolding program
all_spaces = refl

-- The last character is not replaced, and an empty string is read beyond its end.
last_kept :
    perfexpert_string_replace_char (some (codes "-a-" ++ 0 ∷ [])) b'-' b'_'
    ≡ ok (some (codes "_a-" ++ 0 ∷ []))
unfolding program
last_kept = refl

empty_overrun : perfexpert_string_replace_char (some (0 ∷ [])) b'-' b'_' ≡ fault
unfolding program
empty_overrun = refl
