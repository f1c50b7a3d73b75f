-- ===== src/Samples/Splits.antt =====
-- `str.split` and `str.rsplit` with `maxsplit=1`, for a separator of one character; `none` is the text
-- without the separator, whose unpacking raises ValueError.
use Prim.Native.Char.{Char}
use Prim.Native.String.{[] as empty, ◌∷◌ as ◌⋮◌, ◌++◌}
use text.Mathlib.Text.{starts_with}
use text.Mathlib.TextPositions.{eq_refl}
use text.Mathlib.TextLemmas.{nil-append, cons-append}
use gprofiler.Prelude.{
  ℕ, suc, String, ◌≡◌, refl, sym, ap, inl, inr, Bool, true, false, Option, none, some, arith, ◌==◌,
  eq_iff,
}
use gprofiler.Prelude.Tests.{if◌then◌else◌, Bool-cases}

abbrev pub letter : Char → String
letter c = c ⋮ empty

abbrev pub extend : Char → Option (String × String) → Option (String × String)
extend c none = none
extend c (some (front, back)) = some (c ⋮ front, back)

-- text.split(sep, maxsplit=1)
unfoldable pub split_first : String → String → Option (String × String)
split_first sep empty = none
split_first sep (c ⋮ s) =
    let rest = split_first sep s in if letter c == sep then some (empty, s) else extend c rest

abbrev last_step : String → Char → String → Option (String × String) → Option (String × String)
last_step sep c s none = if letter c == sep then some (empty, s) else none
last_step sep c s (some (front, back)) = some (c ⋮ front, back)

-- text.rsplit(sep, maxsplit=1), and text.rpartition(sep) where the separator occurs
unfoldable pub split_last : String → String → Option (String × String)
split_last sep empty = none
split_last sep (c ⋮ s) = last_step sep c s (split_last sep s)

-- text.count(sub), for a `sub` that cannot overlap itself, as ";" and "[unknown]"
unfoldable pub count : String → String → ℕ
count sub empty = 0
count sub (c ⋮ s) = let n = count sub s in if starts_with (c ⋮ s) sub then suc n else n

-- No character of the text is the separator.
unfoldable pub lacks : String → String → Bool
lacks sep empty = true
lacks sep (c ⋮ s) = let rest = lacks sep s in if letter c == sep then false else rest

-- A text with one more letter before it.
pub letter-append : (c : Char) (s : String) → letter c ++ s ≡ c ⋮ s
letter-append c s = rw (cons-append, nil-append)

-- A part that lacks the separator comes back, whatever stands behind the separator.
pub split_first-lem :
    (c : Char) (front back : String)
    → lacks (letter c) front ≡ true
    → split_first (letter c) (front ++ (letter c ++ back)) ≡ some (front, back)
unfolding split_first lacks
split_first-lem c empty back h = rw (nil-append, letter-append) (simp (eq_refl (letter c)) refl)
split_first-lem c (d ⋮ front) back h = rw cons-append (elim (Bool-cases (letter d == letter c)) [
  | inl same ↦ ground arith
  | inr differs ↦
      let rest = split_first-lem c front back (ground arith) in simp (differs, rest) refl
])

split_last-lacks : (sep s : String) → lacks sep s ≡ true → split_last sep s ≡ none
unfolding split_last lacks
split_last-lacks sep empty h = refl
split_last-lacks sep (d ⋮ s) h = elim (Bool-cases (letter d == sep)) [
  | inl same ↦ ground arith
  | inr differs ↦ simp (differs, split_last-lacks sep s (ground arith)) refl
]

pub split_last-lem :
    (c : Char) (front back : String)
    → lacks (letter c) back ≡ true
    → split_last (letter c) (front ++ (letter c ++ back)) ≡ some (front, back)
unfolding split_last
split_last-lem c empty back h =
    rw (nil-append, letter-append)
      (simp (split_last-lacks (letter c) back h, eq_refl (letter c)) refl)
split_last-lem c (d ⋮ front) back h =
    rw cons-append
      (ap (last_step (letter c) d (front ++ (letter c ++ back))) (split_last-lem c front back h))

-- What the split at the first separator returns is the text, and the front lacks the separator.
extend-some :
    (c : Char) (o : Option (String × String)) {front back : String}
    → extend c o ≡ some (front, back)
    → (tail : String) × (o ≡ some (tail, back)) × (front ≡ c ⋮ tail)
extend-some c none h = cc
extend-some c (some (tail, rest)) h = let e : rest ≡ _ = cc in (tail, rw e refl, cc)

pub split_first-parts :
    (sep text front back : String)
    → split_first sep text ≡ some (front, back)
    → (text ≡ front ++ (sep ++ back)) × (lacks sep front ≡ true)
unfolding split_first lacks
split_first-parts sep empty front back h = cc
split_first-parts sep (c ⋮ s) front back h = elim (Bool-cases (letter c == sep)) [
  | inl same ↦
      let e : some (empty, s) ≡ some (front, back) = simp same at h in
      let f : front ≡ empty = cc in
      let g : back ≡ s = cc in
      let k : letter c ≡ sep = (eq_iff (letter c) sep).0 same in
      rw (f, g, sym k) (rw (nil-append, letter-append) (refl, refl))
  | inr differs ↦
      let e : extend c (split_first sep s) ≡ some (front, back) = simp differs at h in
      let (tail, t, f) = extend-some c (split_first sep s) e in
      let (whole, front_lacks) = split_first-parts sep s tail back t in
      rw f (rw cons-append (ap (λ r. c ⋮ r) whole, simp differs front_lacks))
]
