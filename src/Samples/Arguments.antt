-- ===== src/Samples/Arguments.antt =====
-- The readers of command-line numbers and lists in gprofiler/gprofiler_types.py. `int` and `split` are
-- Python's; an ArgumentTypeError is a refusal.
use gprofiler.Prelude.{
  String, ◌≡◌, ◌↔◌, refl, sym, ap, ◌∙◌, inl, inr, Bool, true, false, not, ◌||◌, ◌&&◌, Option, none,
  some, List, [], ◌∷◌, arith,
}
use gprofiler.Prelude.Tests.{if◌then◌else◌, ltb, Bool-cases, Option-cases}
use gprofiler.Prelude.Lists.{contains}
use gprofiler.Prelude.Result.{Exn, Result, ok, err, ◌>>=◌, ok-injective}
use gprofiler.Prelude.Integers.{ℤ}

-- a < b and a <= b
abbrev pub lt_int : ℤ → ℤ → Bool
lt_int (ℤ.pos a) (ℤ.pos b) = ltb a b
lt_int (ℤ.pos a) (ℤ.negsuc b) = false
lt_int (ℤ.negsuc a) (ℤ.pos b) = true
lt_int (ℤ.negsuc a) (ℤ.negsuc b) = ltb b a

abbrev pub le_int : ℤ → ℤ → Bool
le_int a b = not (lt_int b a)

abbrev int_or_fail : Option ℤ → Result ℤ
int_or_fail none = err Exn.value_error
int_or_fail (some n) = ok n

module _ (int : String → Option ℤ) where
  unfoldable pub positive_integer : String → Result ℤ
  positive_integer value_str = int_or_fail (int value_str) >>= λ value.
      if le_int value (ℤ.pos 0) then err Exn.argument_type_error else ok value

  unfoldable pub nonnegative_integer : String → Result ℤ
  nonnegative_integer value_str = int_or_fail (int value_str) >>= λ value.
      if lt_int value (ℤ.pos 0) then err Exn.argument_type_error else ok value

  -- integer_range(min_range, max_range)(value_str)
  unfoldable pub integer_range : ℤ → ℤ → String → Result ℤ
  integer_range min_range max_range value_str = int_or_fail (int value_str) >>= λ value.
      if lt_int value min_range || le_int max_range value
      then err Exn.argument_type_error
      else ok value

  abbrev all_ints : List String → Option (List ℤ)
  all_ints [] = some []
  all_ints (text ∷ more) = both (int text) (all_ints more)
    where
      both : Option ℤ → Option (List ℤ) → Option (List ℤ)
      both (some n) (some ns) = some (n ∷ ns)
      both n ns = none

  abbrev list_or_fail : Option (List ℤ) → Result (List ℤ)
  list_or_fail none = err Exn.argument_type_error
  list_or_fail (some ns) = ok ns

  unfoldable pub integers_list : (String → List String) → String → Result (List ℤ)
  integers_list split_commas value_str = list_or_fail (all_ints (split_commas value_str))

-- The loop of `comma_separated_enum_list`.
abbrev all_allowed : List String → List String → Bool
all_allowed options [] = true
all_allowed options (v ∷ vs) = contains v options && all_allowed options vs

unfoldable pub comma_separated_enum_list :
    (String → List String) → List String → String → Result (List String)
comma_separated_enum_list split_commas options value =
    if all_allowed options (split_commas value)
    then ok (split_commas value)
    else err Exn.argument_type_error

in_range :
    (min_range max_range m : ℤ)
    → (lt_int m min_range || le_int max_range m) ≡ false
    → (le_int min_range m ≡ true) × (lt_int m max_range ≡ true)
in_range min_range max_range m h = (ground arith, ground arith)

ranged : ℤ → ℤ → ℤ → Result ℤ
ranged min_range max_range value =
    if lt_int value min_range || le_int max_range value
    then err Exn.argument_type_error
    else ok value

ranged-ok :
    (min_range max_range m n : ℤ)
    → ranged min_range max_range m ≡ ok n
    → (m ≡ n) × (le_int min_range n ≡ true) × (lt_int n max_range ≡ true)
unfolding ranged
ranged-ok min_range max_range m n h = elim (Bool-cases (lt_int m min_range || le_int max_range m)) [
  | inl outside ↦ let k : err Exn.argument_type_error ≡ ok n = simp outside at h in cc
  | inr inside ↦
      let k : ok m ≡ ok n = simp inside at h in
      let e = ok-injective k in
      let (low, high) = in_range min_range max_range m inside in
      (e, rw (sym e) low, rw (sym e) high)
]

-- A value comes back exactly if it is the one that `int` reads and it lies in the range: from the lower
-- bound on, and below the upper bound, which is left out.
integer_range_iff :
    (int : String → Option ℤ) (min_range max_range n : ℤ) (value_str : String)
    → (integer_range int min_range max_range value_str ≡ ok n)
      ↔ ((int value_str ≡ some n) × (le_int min_range n ≡ true) × (lt_int n max_range ≡ true))
unfolding integer_range ranged
integer_range_iff int min_range max_range n value_str = (onto, back)
  where
    onto :
        integer_range int min_range max_range value_str ≡ ok n
        → (int value_str ≡ some n) × (le_int min_range n ≡ true) × (lt_int n max_range ≡ true)
    onto h = elim (Option-cases (int value_str)) [
      | inl fails ↦ let k : err Exn.value_error ≡ ok n = simp fails at h in cc
      | inr (m, reads) ↦
          let k : ranged min_range max_range m ≡ ok n = simp reads at h in
          let (e, low, high) = ranged-ok min_range max_range m n k in (reads ∙ ap some e, low, high)
    ]

    back :
        (int value_str ≡ some n) × (le_int min_range n ≡ true) × (lt_int n max_range ≡ true)
        → integer_range int min_range max_range value_str ≡ ok n
    back (reads, low, high) =
        let within : (lt_int n min_range || le_int max_range n) ≡ false = ground arith in
        simp (reads, within) refl
