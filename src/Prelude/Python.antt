-- ===== src/Prelude/Python.antt =====
-- Python's `str` methods, a parameter of the code that walks text; sets of texts and `sorted`.
use Prim.Native.Nat.{Ordering}
use Prim.Native.String.{String, compare}
use mathlib.Core.Path.{◌≡◌}
use mathlib.Core.Logic.{inl, inr}
use mathlib.Core.Bool.{Bool, true, false, ◌||◌}
use mathlib.Core.List.{List, [], ◌∷◌, ◌++◌}
use native.Mathlib.Omega.{arith}
use text.Mathlib.Text.{◌==◌}
use text.Mathlib.TextEquality.{eq_iff}
use gprofiler.Prelude.Tests.{if◌then◌else◌, Bool-cases}
use gprofiler.Prelude.Lists.{
  contains, contains-append, All, All-append, IsDistinct, IsDistinct-snoc,
}

-- What the code uses of Python's `str`: only its calls are modelled.
pub record StrMethods : Type 0 where
  pub splitlines : String → List String
  pub strip : String → String
  pub split : String → List String
  pub lower : String → String

-- A set of texts is a list with no text twice, in the order of insertion: s.add(x)
unfoldable pub add : String → List String → List String
unfolding contains
add x s = if contains x s then s else s ++ (x ∷ [])

pub add-IsDistinct : (x : String) (s : List String) → IsDistinct s → IsDistinct (add x s)
unfolding add
add-IsDistinct x s d = elim (Bool-cases (contains x s)) [
  | inl old ↦ rw old d
  | inr new ↦ rw new (IsDistinct-snoc s x new d)
]

pub add-All {ℓ} :
    (P : String → Type ℓ) (x : String) (s : List String) → P x → All P s → All P (add x s)
unfolding add
add-All P x s p h = elim (Bool-cases (contains x s)) [
  | inl old ↦ rw old h
  | inr new ↦ rw new (All-append P s (x ∷ []) h (p, tt))
]

pub contains-add :
    (x y : String) (s : List String) → contains y (add x s) ≡ (y == x || contains y s)
unfolding add contains
contains-add x y s = elim (Bool-cases (contains x s)) [
  | inl old ↦ rw old (ground (arith, eq_iff y x, old))
  | inr new ↦ rw new (ground (arith, contains-append y s (x ∷ [])))
]

-- sorted(texts): by code points.
abbrev pub le_text : String → String → Bool
le_text a b = elim (compare a b) [ Ordering.gt ↦ false | _ ↦ true ]

abbrev pub insert_sorted : String → List String → List String
insert_sorted x [] = x ∷ []
insert_sorted x (y ∷ ys) = let r = insert_sorted x ys in if le_text x y then x ∷ y ∷ ys else y ∷ r

unfoldable pub sorted : List String → List String
sorted [] = []
sorted (x ∷ xs) = insert_sorted x (sorted xs)
