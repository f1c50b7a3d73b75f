-- ===== src/Samples/Collapsed/Printed.antt =====
-- Counters printed as gprofiler/merge.py prints them, and read again by
-- gprofiler/utils/collapsed_format.py.
use mathlib.Core.List.{append-nil, append_assoc}
use Prim.Native.String.{[] as empty, ◌∷◌ as ◌⋮◌, ◌++◌ as ◌⧺◌}
use text.Mathlib.TextLemmas.{nil-append, cons-append, append-eq-nil_iff}
use text.Mathlib.Text.{starts_with}
use gprofiler.Prelude.{
  ℕ, zero, suc, ◌/◌, ◌%◌, String, ◌≡◌, refl, ◌∙◌, inl, inr, true, false, Option, none, some, List,
  [], ◌∷◌, ◌++◌, map, arith, ◌==◌, eq_iff,
}
use gprofiler.Prelude.Tests.{Bool-cases, if_both, ltb}
use gprofiler.Prelude.Lists.{All, IsDistinct}
use gprofiler.Prelude.Python.{StrMethods}
use gprofiler.Prelude.Integers.{ℤ}
use gprofiler.Perf.Numbers.{show, show_within, digit, pick}
use gprofiler.Samples.Splits.{letter, lacks, split_last, split_last-lem}
use gprofiler.Samples.Counters.{Counter, keys, increase, increase_new, middle_is_new}
use gprofiler.Samples.Collapsed.{
  Line, Parsing, read_line, parse_line, parse_lines, parsing_start, parse_one_collapsed,
}

-- f"{stack} {count}"
abbrev pub print_line : String × ℕ → String
print_line (stack, n) = stack ⧺ (" " ⧺ show n)

lacks-append :
    (sep front back : String)
    → lacks sep front ≡ true
    → lacks sep back ≡ true
    → lacks sep (front ⧺ back) ≡ true
unfolding lacks
lacks-append sep empty back f b = rw nil-append b
lacks-append sep (c ⋮ front) back f b = rw cons-append (elim (Bool-cases (letter c == sep)) [
  | inl same ↦ ground arith
  | inr other ↦ simp other (lacks-append sep front back (ground arith) b)
])

lacks-pick :
    (sep : String) (n : ℕ) (ds : List String)
    → All (λ d. lacks sep d ≡ true) ds
    → lacks sep (pick n ds) ≡ true
unfolding lacks
lacks-pick sep n [] h = refl
lacks-pick sep zero (d ∷ ds) h = h.0
lacks-pick sep (suc n) (d ∷ ds) h = lacks-pick sep n ds h.1

-- No digit is the separator.
abbrev pub NoDigit : String → Type 0
NoDigit sep =
    All (λ d. lacks sep d ≡ true) ("0" ∷ "1" ∷ "2" ∷ "3" ∷ "4" ∷ "5" ∷ "6" ∷ "7" ∷ "8" ∷ "9" ∷ [])

lacks-digit : (sep : String) (n : ℕ) → NoDigit sep → lacks sep (digit n) ≡ true
lacks-digit sep n h =
    lacks-pick sep n ("0" ∷ "1" ∷ "2" ∷ "3" ∷ "4" ∷ "5" ∷ "6" ∷ "7" ∷ "8" ∷ "9" ∷ []) h

lacks-show_within : (sep : String) (f n : ℕ) → NoDigit sep → lacks sep (show_within f n) ≡ true
lacks-show_within sep zero n h = lacks-digit sep n h
lacks-show_within sep (suc f) n h =
    if_both (λ text. lacks sep text ≡ true) (ltb n 10) (digit n)
      (show_within f (n / 10) ⧺ digit (n % 10)) (lacks-digit sep n h)
      (lacks-append sep (show_within f (n / 10)) (digit (n % 10))
        (lacks-show_within sep f (n / 10) h) (lacks-digit sep (n % 10) h))

pub lacks-show : (sep : String) (n : ℕ) → NoDigit sep → lacks sep (show n) ≡ true
lacks-show sep n h = lacks-show_within sep n n h

NoDigit-blank : NoDigit " "
unfolding lacks
NoDigit-blank = (refl, (refl, (refl, (refl, (refl, (refl, (refl, (refl, (refl, (refl, tt))))))))))

split-printed :
    (stack : String) (n : ℕ) → split_last " " (print_line (stack, n)) ≡ some (stack, show n)
split-printed stack n = split_last-lem " " stack (show n) (lacks-show " " n NoDigit-blank)

-- What the code that prints and the text's methods must grant for a line to be read again.
unfoldable pub IsPrintable : StrMethods → (String → Option ℤ) → String × ℕ → Type 0
IsPrintable str int (stack, n) =
    ((stack == "") ≡ false)
    × (str.strip (print_line (stack, n)) ≡ print_line (stack, n))
    × (starts_with (print_line (stack, n)) "#" ≡ false)
    × (int (show n) ≡ some (ℤ.pos n))

module _ (str : StrMethods) (int : String → Option ℤ) (no_empty : int "" ≡ none) where
  shown_not_empty : (n : ℕ) → int (show n) ≡ some (ℤ.pos n) → (show n == "") ≡ false
  shown_not_empty n reads = elim (Bool-cases (show n == "")) [
    | inl shut ↦
        let e : show n ≡ "" = (eq_iff (show n) "").0 shut in
        let f : int (show n) ≡ none = rw e no_empty in cc (f, reads)
    | inr other ↦ other
  ]

  line_not_empty :
      (stack : String) (n : ℕ) → (stack == "") ≡ false → (print_line (stack, n) == "") ≡ false
  line_not_empty stack n h = elim (Bool-cases (print_line (stack, n) == "")) [
    | inl shut ↦
        let e : print_line (stack, n) ≡ "" = (eq_iff (print_line (stack, n)) "").0 shut in
        let f = append-eq-nil_iff.0 e in ground (arith, f.0, eq_iff stack "")
    | inr other ↦ other
  ]

  read-printed :
      (stack : String) (n : ℕ)
      → IsPrintable str int (stack, n)
      → read_line int (str.strip (print_line (stack, n))) ≡ Line.sample stack n
  unfolding read_line IsPrintable
  read-printed stack n h =
      let e = line_not_empty stack n h.0 in
      let f = shown_not_empty n h.3 in simp (h.1, split-printed stack n, e, h.2, h.0, f, h.3) refl

  lines-printed :
      (stacks : Counter) (s : Parsing)
      → IsDistinct (keys (s.stacks ++ stacks))
      → All (IsPrintable str int) stacks
      → (parse_lines str int none (map print_line stacks) s).stacks ≡ s.stacks ++ stacks
  unfolding parse_lines parse_line increase
  lines-printed [] s d h = rw append-nil refl
  lines-printed ((stack, n) ∷ more) s d h =
      let new = middle_is_new s.stacks stack n more d in
      let s' : Parsing = parse_line none (Line.sample stack n) s in
      let put : s'.stacks ≡ s.stacks ++ ((stack, n) ∷ []) = increase_new stack n s.stacks new in
      let whole : s'.stacks ++ more ≡ s.stacks ++ ((stack, n) ∷ more) =
        rw (put, append_assoc) refl in
      let d'' : IsDistinct (keys (s'.stacks ++ more)) = rw whole d in
      let one : (parse_lines str int none (map print_line more)
            (parse_line none (read_line int (str.strip (print_line (stack, n)))) s)).stacks
          ≡ s.stacks ++ ((stack, n) ∷ more) =
        rw (read-printed stack n h.0) (lines-printed more s' d'' h.1 ∙ whole) in
      one

  -- Counters of which no two entries have the same stack come back from their printed lines, when the
  -- stacks are not empty, their lines have no blanks at the ends and no "#" in front, `int` reads their
  -- printed counts and refuses the empty text, and the text's lines are the printed ones.
  pub parse_one_collapsed-print :
      (stacks : Counter) (text : String)
      → IsDistinct (keys stacks)
      → All (IsPrintable str int) stacks
      → str.splitlines text ≡ map print_line stacks
      → (parse_one_collapsed str int text none).stacks ≡ stacks
  unfolding parse_one_collapsed
  parse_one_collapsed-print stacks text d h shown =
      rw shown (lines-printed stacks parsing_start d h)
