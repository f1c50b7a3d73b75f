-- ===== src/Samples/Counters.antt =====
-- `collections.Counter` over stacks: `StackToSampleCount` of gprofiler/gprofiler_types.py.
use gprofiler.Prelude.{
  ℕ, ◌+◌, String, ◌≡◌, refl, ap, inl, inr, false, Option, none, some, List, [], ◌∷◌, ◌++◌, arith,
  ◌==◌, eq_iff,
}
use gprofiler.Prelude.Tests.{Bool-cases}
use gprofiler.Prelude.Lists.{contains, IsDistinct, IsDistinct-middle}
use gprofiler.Prelude.Dict.{Dict, lookup, insert}

abbrev pub Counter : Type 0
Counter = Dict ℕ

abbrev pub or_zero : Option ℕ → ℕ
or_zero none = 0
or_zero (some n) = n

-- counter[key], which is 0 for a missing key
abbrev pub count_of : String → Counter → ℕ
count_of key d = or_zero (lookup key d)

-- counter[key] += n
unfoldable pub increase : String → ℕ → Counter → Counter
increase key n d = insert key (count_of key d + n) d

-- sum(counter.values())
unfoldable pub total : Counter → ℕ
total [] = 0
total ((key, n) ∷ more) = n + total more

abbrev pub keys {ℓ} : {V : Type ℓ} → Dict V → List String
keys [] = []
keys ((key, value) ∷ more) = key ∷ keys more

pub total-insert :
    (key : String) (n : ℕ) (d : Counter) → total (insert key n d) + count_of key d ≡ total d + n
unfolding total insert lookup
total-insert key n [] = omega arith
total-insert key n ((first, old) ∷ more) = elim (Bool-cases (first == key)) [
  | inl same ↦ simp same (omega arith)
  | inr other ↦ let rest = total-insert key n more in simp other (omega (arith, rest))
]

pub total-increase : (key : String) (n : ℕ) (d : Counter) → total (increase key n d) ≡ total d + n
unfolding increase
total-increase key n d = omega (arith, total-insert key (count_of key d + n) d)

-- A key that is not there is put behind the others.
pub insert_new {ℓ} :
    {V : Type ℓ} (key : String) (value : V) (d : Dict V)
    → contains key (keys d) ≡ false
    → insert key value d ≡ d ++ ((key, value) ∷ [])
unfolding insert contains
insert_new key value [] new = refl
insert_new key value ((first, old) ∷ more) new =
    let rest = insert_new key value more (ground arith) in
    ground (arith, rest, eq_iff key first, eq_iff first key)

pub lookup_new {ℓ} :
    {V : Type ℓ} (key : String) (d : Dict V) → contains key (keys d) ≡ false → lookup key d ≡ none
unfolding lookup contains
lookup_new key [] new = refl
lookup_new key ((first, old) ∷ more) new =
    let rest = lookup_new key more (ground arith) in
    ground (arith, rest, eq_iff key first, eq_iff first key)

pub total-append : (front back : Counter) → total (front ++ back) ≡ total front + total back
unfolding total
total-append [] back = omega arith
total-append ((key, n) ∷ front) back = omega (arith, total-append front back)

pub increase_new :
    (key : String) (n : ℕ) (d : Counter)
    → contains key (keys d) ≡ false
    → increase key n d ≡ d ++ ((key, n) ∷ [])
unfolding increase
increase_new key n d new =
    let e : count_of key d + n ≡ n = rw (lookup_new key d new) (omega arith) in
    rw (insert_new key (count_of key d + n) d new) (ap (λ m. d ++ ((key, m) ∷ [])) e)

pub keys-append {ℓ} :
    {V : Type ℓ} (front back : Dict V) → keys (front ++ back) ≡ keys front ++ keys back
keys-append [] back = refl
keys-append ((key, value) ∷ front) back = ap (λ ks. key ∷ ks) (keys-append front back)

-- A dict that holds a key once has none of it before.
pub middle_is_new {ℓ} :
    {V : Type ℓ} (front : Dict V) (key : String) (value : V) (back : Dict V)
    → IsDistinct (keys (front ++ ((key, value) ∷ back)))
    → contains key (keys front) ≡ false
middle_is_new front key value back d =
    let d' : IsDistinct (keys front ++ (key ∷ keys back)) =
      simp (keys-append front ((key, value) ∷ back)) at d in
    IsDistinct-middle (keys front) key (keys back) d'
