-- ===== src/Macpo/Cells.antt =====
-- The maps of tools/macpo/common/histogram.h as functions on their keys.
use perfexpert.Prelude.{
  ℕ, Bool, ◌==◌, ◌≡◌, ◌∙◌, refl, ap, ◌&&◌, if◌then◌else◌, true, Bool-cases, inl, inr, option_both,
  none, some, List, [], ◌∷◌, arith,
}
use perfexpert.Macpo.Histogram.{
  find, replaced, inserted, assign, get_bin, set_bin, increment_bin, Hist, Multigram, HistId,
  or_empty, map_into_histogram, with_histogram, get, set, increment,
}

module _ {V : Type 0} where
  find-replaced :
      (k j : ℕ) (w v : V) (l : List (ℕ × V))
      → find k l ≡ some v
      → find j (replaced k w l) ≡ (if j == k then some w else find j l)
  unfolding find replaced
  find-replaced k j w v [] found = ground arith
  find-replaced k j w v ((i, u) ∷ l) found = ground (arith, find-replaced k j w v l)

  find-inserted :
      (k j : ℕ) (w : V) (l : List (ℕ × V))
      → find k l ≡ none
      → find j (inserted k w l) ≡ (if j == k then some w else find j l)
  unfolding find inserted
  find-inserted k j w [] missing = ground arith
  find-inserted k j w ((i, u) ∷ l) missing = ground (arith, find-inserted k j w l)

  pub find-assign :
      (k j : ℕ) (w : V) (l : List (ℕ × V))
      → find j (assign k w l) ≡ (if j == k then some w else find j l)
  unfolding assign
  find-assign k j w l =
      option_both (λ (z : List (ℕ × V)). find j z ≡ (if j == k then some w else find j l))
        (find k l) (λ missing. find-inserted k j w l missing)
        (λ v found. find-replaced k j w v l found)

abbrev pub same_id : HistId → HistId → Bool
same_id a b =
    a.thread_id == b.thread_id
    && (a.function_address == b.function_address && a.line_number == b.line_number)

or_empty-assign :
    {A : Type 0} (k j : ℕ) (w : List A) (l : List (ℕ × List A))
    → or_empty (find j (assign k w l)) ≡ (if j == k then w else or_empty (find j l))
or_empty-assign k j w l = ap or_empty (find-assign k j w l) ∙ ground arith

pub map_into_histogram-with_histogram :
    {V : Type 0} (m : Multigram V) (id id' : HistId) (h : Hist V)
    → map_into_histogram (with_histogram m id h) id'
      ≡ (if same_id id' id then h else map_into_histogram m id')
unfolding map_into_histogram with_histogram
map_into_histogram-with_histogram m id id' h =
    let functions = or_empty (find id.thread_id m) in
    let lines = or_empty (find id.function_address functions) in
    let a =
      or_empty-assign id.thread_id id'.thread_id
        (assign id.function_address (assign id.line_number h lines) functions) m in
    let b =
      or_empty-assign id.function_address id'.function_address (assign id.line_number h lines)
        functions in
    let c = or_empty-assign id.line_number id'.line_number h lines in ground (arith, a, b, c)

pub map_into_histogram-same_id :
    {V : Type 0} (m : Multigram V) (id id' : HistId)
    → same_id id' id ≡ true
    → map_into_histogram m id ≡ map_into_histogram m id'
unfolding map_into_histogram
map_into_histogram-same_id m id id' same =
    let a : id.thread_id ≡ id'.thread_id = ground arith in
    let b : id.function_address ≡ id'.function_address = ground arith in
    let c : id.line_number ≡ id'.line_number = ground arith in rw (a, b, c) refl

module _ {V : Type 0} (zero_value : V) where
  -- What is stored for a histogram and a bin.
  unfoldable pub value : Multigram V → HistId → (bin : ℕ) → V
  value m id bin = get_bin zero_value (map_into_histogram m id) bin

  pub get_bin-assign :
      (h : Hist V) (bin bin' : ℕ) (v : V)
      → get_bin zero_value (assign bin v h) bin'
        ≡ (if bin' == bin then v else get_bin zero_value h bin')
  unfolding get_bin
  get_bin-assign h bin bin' v = ground (arith, find-assign bin bin' v h)

  value-with_histogram :
      (m : Multigram V) (id id' : HistId) (bin bin' : ℕ) (v : V)
      → value (with_histogram m id (assign bin v (map_into_histogram m id))) id' bin'
        ≡ (if same_id id' id && bin' == bin then v else value m id' bin')
  unfolding value
  value-with_histogram m id id' bin bin' v =
      ap (λ (h : Hist V). get_bin zero_value h bin')
        (map_into_histogram-with_histogram m id id' (assign bin v (map_into_histogram m id)))
      ∙ elim (Bool-cases (same_id id' id)) [
        | inl e ↦ rw e (
            get_bin-assign (map_into_histogram m id) bin bin' v
            ∙ ap (λ (h : Hist V). if bin' == bin then v else get_bin zero_value h bin')
                (map_into_histogram-same_id m id id' e))
        | inr e ↦ rw e refl
      ]

  pub value-get :
      (m : Multigram V) (id id' : HistId) (bin bin' : ℕ)
      → value (get zero_value m id bin).0 id' bin' ≡ value m id' bin'
  unfolding get value
  value-get m id id' bin bin' =
      ap (λ (h : Hist V). get_bin zero_value h bin')
        (map_into_histogram-with_histogram m id id' (map_into_histogram m id)
          ∙ elim (Bool-cases (same_id id' id)) [
            | inl e ↦ rw e (map_into_histogram-same_id m id id' e)
            | inr e ↦ rw e refl
          ])

  pub value-set :
      (m : Multigram V) (id id' : HistId) (bin bin' : ℕ) (v : V)
      → value (set zero_value m id bin v) id' bin'
        ≡ (if same_id id' id && bin' == bin then v else value m id' bin')
  unfolding set set_bin
  value-set m id id' bin bin' v = value-with_histogram m id id' bin bin' v

  pub value-increment :
      (add : V → V → V) (m : Multigram V) (id id' : HistId) (bin bin' : ℕ) (v : V)
      → value (increment zero_value add m id bin v).0 id' bin'
        ≡ (if same_id id' id && bin' == bin then add (value m id bin) v else value m id' bin')
  unfolding increment increment_bin value
  value-increment add m id id' bin bin' v =
      value-with_histogram m id id' bin bin' (add (value m id bin) v)

  -- The nested maps of a multigram_t act as one map on the quadruples of thread, function, line
  -- and bin: get answers the value and changes none, set changes the value of its place only,
  -- and increment adds to that one only and answers the sum.
  pub value_after_calls :
      (add : V → V → V) (m : Multigram V) (id id' : HistId) (bin bin' : ℕ) (v : V)
      → ((get zero_value m id bin).1 ≡ value m id bin)
        × (value (get zero_value m id bin).0 id' bin' ≡ value m id' bin')
        × (value (set zero_value m id bin v) id' bin'
            ≡ (if same_id id' id && bin' == bin then v else value m id' bin'))
        × ((increment zero_value add m id bin v).1 ≡ add (value m id bin) v)
        × (value (increment zero_value add m id bin v).0 id' bin'
            ≡ (if same_id id' id && bin' == bin then add (value m id bin) v else value m id' bin'))
  unfolding get increment increment_bin value
  value_after_calls add m id id' bin bin' v = (
    refl,
    value-get m id id' bin bin',
    value-set m id id' bin bin' v,
    refl,
    value-increment add m id id' bin bin' v,
  )
