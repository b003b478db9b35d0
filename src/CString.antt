-- ===== src/CString.antt =====
-- common/perfexpert_string.c: operations on a C string in place. The memory from the pointer on is a
-- list of bytes; `char` is signed, so a byte of 128 or more is negative. The indices are of type `int`.
pub mod InPlace
pub mod Remove
pub mod Replace
mod Tests
use perfexpert.Prelude.{
  ℕ, zero, suc, ◌+◌, ◌-◌, ◌%◌, ◌^◌, Bool, true, false, not, ◌&&◌, Option, none, some, List, [], ◌∷◌,
  ◌++◌, ◌==◌, ltb, if◌then◌else◌, length, get_elem?, set, drop, take,
}
use perfexpert.Outcome.{Outcome, ok, fault, as_int, ◌>>=◌, defined}
use perfexpert.Base64.{strlen}

-- `str[i]` as a value and as a place.
abbrev pub read : List ℕ → ℕ → Outcome ℕ
read str i = defined (get_elem? str i)

abbrev pub write : List ℕ → ℕ → ℕ → Outcome (List ℕ)
write str i c = if ltb i (length str) then ok (set str i c) else fault

-- `(char)token`
abbrev pub char : ℕ → ℕ
char token = token % 256

-- `token == in[i]`, for a token that is not negative.
abbrev pub is_token : (token c : ℕ) → Bool
is_token token c = ltb c 128 && c == token

-- The return codes of perfexpert_constants.h.
abbrev pub perfexpert_success : ℕ
perfexpert_success = 0

abbrev pub perfexpert_error : ℕ
perfexpert_error = 1

-- `if (NULL == str) return NULL;`
abbrev pub unless_null : Option (List ℕ) → (List ℕ → Outcome (List ℕ)) → Outcome (Option (List ℕ))
unless_null none f = ok none
unless_null (some str) f = f str >>= λ result. ok (some result)

-- The loop of `perfexpert_string_remove_char`; `output` and `str` are the same memory.
unfoldable pub remove_char_loop : (fuel : ℕ) → List ℕ → (token i j : ℕ) → Outcome (List ℕ)
unfolding strlen
remove_char_loop zero str token i j = fault
remove_char_loop (suc fuel) str token i j = do
  n ← strlen str
  elim (ltb i n) [
    | false ↦ write str j 0
    | true ↦ do
      c ← read str i
      i' ← as_int (i + 1)
      elim (c == char token) [
        | true ↦ remove_char_loop fuel str token i' j
        | false ↦ do
          str' ← write str j c
          j' ← as_int (j + 1)
          remove_char_loop fuel str' token i' j'
      ]
  ]

-- A round for each byte and one for the end are enough.
unfoldable pub perfexpert_string_remove_char :
    Option (List ℕ) → (token : ℕ) → Outcome (Option (List ℕ))
unfolding remove_char_loop
perfexpert_string_remove_char str token =
    unless_null str (λ s. remove_char_loop (suc (length s)) s token 0 0)

-- The loop that moves the bytes behind `i` one place forward, and the null byte after it.
unfoldable pub shift_loop : (fuel : ℕ) → List ℕ → (i : ℕ) → Outcome (List ℕ)
unfolding strlen
shift_loop zero str i = fault
shift_loop (suc fuel) str i = do
  i' ← as_int (i + 1)
  n ← strlen str
  elim (ltb i' n) [
    | false ↦ write str i 0
    | true ↦ do c ← read str i'; str' ← write str i c; shift_loop fuel str' i'
  ]

-- `perfexpert_string_remove_char_pos`
unfoldable pub perfexpert_string_remove_char_pos :
    Option (List ℕ) → (token pos : ℕ) → Outcome (Option (List ℕ))
unfolding shift_loop
perfexpert_string_remove_char_pos str token pos =
    unless_null str
      (λ s. do c ← read s pos; if c == char token then shift_loop (suc (length s)) s pos else ok s)

-- The two loops of `perfexpert_string_remove_spaces`.
unfoldable pub leading_loop : (fuel : ℕ) → List ℕ → Outcome (List ℕ)
unfolding shift_loop
leading_loop zero str = fault
leading_loop (suc fuel) str = do
  c ← read str 0
  elim (c == b' ') [
    | false ↦ ok str
    | true ↦ shift_loop (suc (length str)) str 0 >>= leading_loop fuel
  ]

-- `str[strlen(str) - 1]` lies before the string if it is empty.
abbrev pub last_index : ℕ → Outcome ℕ
last_index zero = fault
last_index (suc n) = ok n

unfoldable pub trailing_loop : (fuel : ℕ) → List ℕ → Outcome (List ℕ)
unfolding strlen
trailing_loop zero str = fault
trailing_loop (suc fuel) str = do
  n ← strlen str
  i ← last_index n
  c ← read str i
  elim (c == b' ') [ false ↦ ok str | true ↦ write str i 0 >>= trailing_loop fuel ]

unfoldable pub perfexpert_string_remove_spaces : Option (List ℕ) → Outcome (Option (List ℕ))
unfolding leading_loop trailing_loop
perfexpert_string_remove_spaces str =
    unless_null str
      (λ s. do s' ← leading_loop (suc (length s)) s; trailing_loop (suc (length s')) s')

-- The loop of `perfexpert_string_replace_char`: `strlen(str) - 1` is a `size_t`, and wraps for an
-- empty string.
unfoldable pub replace_char_loop : (fuel : ℕ) → List ℕ → (old new i : ℕ) → Outcome (List ℕ)
unfolding strlen
replace_char_loop zero str old new i = fault
replace_char_loop (suc fuel) str old new i = do
  n ← strlen str
  let bound = if n == 0 then 2 ^ 64 - 1 else n - 1
  elim (ltb i bound) [
    | false ↦ ok str
    | true ↦ do
      c ← read str i
      str' ← (if c == char old then write str i (char new) else ok str)
      i' ← as_int (i + 1)
      replace_char_loop fuel str' old new i'
  ]

unfoldable pub perfexpert_string_replace_char :
    Option (List ℕ) → (old new : ℕ) → Outcome (Option (List ℕ))
unfolding replace_char_loop
perfexpert_string_replace_char str old new =
    unless_null str (λ s. replace_char_loop (suc (length s)) s old new 0)

-- The C library's `tolower` on a byte is a parameter.
module _ (tolower : ℕ → ℕ) where
  unfoldable pub to_lower_loop : (fuel : ℕ) → List ℕ → (i : ℕ) → Outcome (List ℕ)
  to_lower_loop zero str i = fault
  to_lower_loop (suc fuel) str i = do
    c ← read str i
    elim (c == 0) [
      | true ↦ ok str
      | false ↦ do str' ← write str i (tolower c); i' ← as_int (i + 1); to_lower_loop fuel str' i'
    ]

  unfoldable pub perfexpert_string_to_lower : Option (List ℕ) → Outcome (Option (List ℕ))
  unfolding to_lower_loop
  perfexpert_string_to_lower str = unless_null str (λ s. to_lower_loop (suc (length s)) s 0)

-- The loop of `perfexpert_string_split`: the pieces that it allocates, in order. `i` is the place in
-- the string, and `j` that of the present piece. Where memory runs out, the macro ends the process.
unfoldable pub split_loop :
    (fuel : ℕ) → List ℕ → (token i j : ℕ) → (quoted : Bool) → Outcome (List (List ℕ))
split_loop zero str token i j quoted = fault
split_loop (suc fuel) str token i j quoted = do
  c ← read str i
  let piece = take (i - j) (drop j str)
  elim (c == 0) [
    | true ↦ ok (piece ∷ [])
    | false ↦ as_int (i + 1) >>= λ i'. elim (c == b'\"') [
      | true ↦ split_loop fuel str token i' j (not quoted)
      | false ↦ elim (is_token token c && not quoted) [
        | false ↦ split_loop fuel str token i' j quoted
        | true ↦ split_loop fuel str token i' i' quoted >>= λ pieces.
            ok (if ltb 0 (i - j) then piece ∷ pieces else pieces)
      ]
    ]
  ]

-- `perfexpert_string_split`: the return code and the pieces in `out`, before the `NULL` behind them.
unfoldable pub perfexpert_string_split : Option (List ℕ) → (token : ℕ) → Outcome (ℕ × List (List ℕ))
unfolding split_loop
perfexpert_string_split none token = ok (perfexpert_error, [])
perfexpert_string_split (some str) token = do
  pieces ← split_loop (suc (length str)) str token 0 0 false
  ok (perfexpert_success, pieces)
