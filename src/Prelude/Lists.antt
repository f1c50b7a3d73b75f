-- ===== src/Prelude/Lists.antt =====
-- Lists measured by native numbers, predicates by recursion, and sets of texts as lists.
use Prim.Native.Nat.{ℕ, zero, suc, ◌+◌, ◌-◌, ◌≤◌}
use Prim.Native.String.{String}
use mathlib.Core.Path.{◌≡◌, refl}
use mathlib.Core.Logic.{inl, inr}
use mathlib.Core.Bool.{Bool, true, false, not, ◌&&◌, ◌||◌}
use mathlib.Core.List.{List, [], ◌∷◌, ◌++◌}
use native.Mathlib.Omega.{arith}
use text.Mathlib.Text.{◌==◌}
use text.Mathlib.TextEquality.{eq_iff}
use gprofiler.Prelude.Tests.{Bool-cases}

module _ {ℓ} {A : Type ℓ} where
  abbrev pub length : List A → ℕ
  length [] = 0
  length (x ∷ xs) = suc (length xs)

  abbrev pub is_empty : List A → Bool
  is_empty [] = true
  is_empty (x ∷ xs) = false

  abbrev pub take : ℕ → List A → List A
  take zero xs = []
  take (suc n) [] = []
  take (suc n) (x ∷ xs) = x ∷ take n xs

  abbrev pub drop : ℕ → List A → List A
  drop zero xs = xs
  drop (suc n) [] = []
  drop (suc n) (x ∷ xs) = drop n xs

  pub length-append : (xs ys : List A) → length (xs ++ ys) ≡ length xs + length ys
  length-append [] ys = omega arith
  length-append (x ∷ xs) ys = omega (arith, length-append xs ys)

  pub length-take-le : (n : ℕ) (xs : List A) → length (take n xs) ≤ n
  length-take-le zero xs = omega arith
  length-take-le (suc n) [] = omega arith
  length-take-le (suc n) (x ∷ xs) = omega (arith, length-take-le n xs)

  pub length-drop : (n : ℕ) (xs : List A) → length (drop n xs) ≡ length xs - n
  length-drop zero xs = omega arith
  length-drop (suc n) [] = omega arith
  length-drop (suc n) (x ∷ xs) = omega (arith, length-drop n xs)

-- A predicate on all elements, which computes to a tuple.
abbrev pub All {ℓ κ} : {A : Type ℓ} → (A → Type κ) → List A → Type κ
All Q [] = Unit
All Q (first ∷ more) = Q first × All Q more

pub All-append {ℓ κ} :
    {A : Type ℓ} (Q : A → Type κ) (front back : List A)
    → All Q front
    → All Q back
    → All Q (front ++ back)
All-append Q [] back none_in all_back = all_back
All-append Q (a ∷ front) back (here, in_front) all_back =
    (here, All-append Q front back in_front all_back)

-- A Python `in` on a list or a set of texts.
unfoldable pub contains : String → List String → Bool
contains a [] = false
contains a (x ∷ xs) = a == x || contains a xs

pub contains-append :
    (a : String) (xs ys : List String) → contains a (xs ++ ys) ≡ (contains a xs || contains a ys)
unfolding contains
contains-append a [] ys = refl
contains-append a (x ∷ xs) ys = ground (arith, contains-append a xs ys)

-- No text twice.
abbrev pub IsDistinct : List String → Type 0
IsDistinct [] = Unit
IsDistinct (x ∷ xs) = (contains x xs ≡ false) × IsDistinct xs

pub IsDistinct-snoc :
    (xs : List String) (a : String)
    → contains a xs ≡ false
    → IsDistinct xs
    → IsDistinct (xs ++ (a ∷ []))
unfolding contains
IsDistinct-snoc [] a h d = (refl, tt)
IsDistinct-snoc (x ∷ xs) a h d = (
  ground (arith, contains-append x xs (a ∷ []), eq_iff x a, eq_iff a x),
  IsDistinct-snoc xs a (ground arith) d.1,
)

-- The intersection of two sets of texts is empty.
unfoldable pub disjoint : List String → List String → Bool
unfolding contains
disjoint [] ys = true
disjoint (x ∷ xs) ys = not (contains x ys) && disjoint xs ys

pub disjoint-contains :
    (a : String) (xs ys : List String)
    → disjoint xs ys ≡ true
    → contains a xs ≡ true
    → contains a ys ≡ false
unfolding disjoint
disjoint-contains a [] ys d h = cc
disjoint-contains a (x ∷ xs) ys d h = elim (Bool-cases (a == x)) [
  | inl same ↦ let e : a ≡ x = (eq_iff a x).0 same in rw e (ground arith)
  | inr other ↦ disjoint-contains a xs ys (ground arith) (ground arith)
]

pub IsDistinct-middle :
    (xs : List String) (a : String) (ys : List String)
    → IsDistinct (xs ++ (a ∷ ys))
    → contains a xs ≡ false
unfolding contains
IsDistinct-middle [] a ys d = refl
IsDistinct-middle (x ∷ xs) a ys d =
    ground
      (arith, contains-append x xs (a ∷ ys), eq_iff x a, eq_iff a x, IsDistinct-middle xs a ys d.1)
