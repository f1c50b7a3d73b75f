-- ===== src/Perf/Script/Blocks.antt =====
-- How many samples `parse_perf_script_from_iterator` of gprofiler/utils/perf.py counts.
use mathlib.Core.List.{append-nil, append_assoc}
use gprofiler.Prelude.{
  ℕ, ◌+◌, String, ◌≡◌, refl, sym, ap, ◌∙◌, inl, inr, Bool, true, false, ◌&&◌, ◌||◌, not, Option,
  none, some, List, [], ◌∷◌, ◌++◌, arith, ◌==◌, eq_iff,
}
use text.Mathlib.Text.{starts_with}
use gprofiler.Prelude.Tests.{if◌then◌else◌, Bool-cases}
use gprofiler.Prelude.Lists.{is_empty, All}
use gprofiler.Prelude.Python.{StrMethods}
use gprofiler.Prelude.Result.{Result, ok, err}
use gprofiler.Prelude.Mapping.{fetch, store}
use gprofiler.Samples.Counters.{Counter, total, increase, total-increase}
use gprofiler.Samples.Document.{join_lines}
use gprofiler.Perf.Script.{
  Regexes, Sample, collapse_stack, or_new, count_stack, count_sample, process_single_sample,
  finish_sample, parse_lines, parse_perf_script_from_iterator,
}

-- The samples of all processes.
unfoldable pub all_total : {K : Type 0} → List (K × Counter) → ℕ
all_total [] = 0
all_total ((pid, counter) ∷ more) = total counter + all_total more

abbrev pub one_if : Bool → ℕ
one_if true = 1
one_if false = 0

-- Blocks of lines, each with a blank line behind it.
unfoldable pub printed : String → List (List String) → List String
printed blank [] = []
printed blank (block ∷ blocks) = block ++ (blank ∷ printed blank blocks)

module _ {K : Type 0} (python : StrMethods) (regexes : Regexes K) (insert_dso_name : Bool)
    (same : K → K → Bool) where
  all_total-store :
      (pid : K) (counter : Counter) (d : List (K × Counter))
      → all_total (store same pid counter d)
          + total (or_new python regexes insert_dso_name same (fetch same pid d))
        ≡ all_total d + total counter
  unfolding all_total store fetch total
  all_total-store pid counter [] = omega arith
  all_total-store pid counter ((first, old) ∷ more) = elim (Bool-cases (same first pid)) [
    | inl found ↦ simp found (omega arith)
    | inr other ↦ let rest = all_total-store pid counter more in simp other (omega (arith, rest))
  ]

  abbrev pub collapses : Result String → Bool
  collapses (ok stack) = true
  collapses (err raised) = false

  abbrev pub has_stack : Result (Sample K) → Bool
  has_stack (err raised) = false
  has_stack (ok sample) = stack_collapses sample.comm sample.stack
    where
      stack_collapses : String → Option String → Bool
      stack_collapses comm none = false
      stack_collapses comm (some stack) =
          collapses (collapse_stack python regexes insert_dso_name comm stack)

  -- A text that is matched and has a stack, all of whose lines are matched, and is no comment.
  unfoldable pub is_counted : String → Bool
  is_counted text =
      not (python.strip text == "" || starts_with text "#") && has_stack (regexes.match_sample text)

  count_stack-total :
      (pid : K) (stack : Result String) (d : List (K × Counter))
      → all_total (
          count_stack python regexes insert_dso_name same pid
            (or_new python regexes insert_dso_name same (fetch same pid d))
            stack
            d)
        ≡ all_total d + one_if (collapses stack)
  count_stack-total pid (ok stack) d =
      let counter = or_new python regexes insert_dso_name same (fetch same pid d) in
      let law = total-increase stack 1 counter in
      let rest = all_total-store pid (increase stack 1 counter) d in omega (arith, law, rest)
  count_stack-total pid (err raised) d =
      let counter = or_new python regexes insert_dso_name same (fetch same pid d) in
      let rest = all_total-store pid counter d in omega (arith, rest)

  count_sample-total :
      (match : Result (Sample K)) (d : List (K × Counter))
      → all_total (count_sample python regexes insert_dso_name same match d)
        ≡ all_total d + one_if (has_stack match)
  count_sample-total (err raised) d = omega arith
  count_sample-total (ok sample) d = of_stack sample.stack
    where
      of_stack :
          (stack : Option String)
          → all_total (
              count_sample python regexes insert_dso_name same
                (ok (record sample { stack = stack }))
                d)
            ≡ all_total d + one_if (has_stack (ok (record sample { stack = stack })))
      of_stack none = omega arith
      of_stack (some stack) =
          count_stack-total sample.pid
            (collapse_stack python regexes insert_dso_name sample.comm stack) d

  process_single_sample-total :
      (text : String) (d : List (K × Counter))
      → all_total (process_single_sample python regexes insert_dso_name same text d)
        ≡ all_total d + one_if (is_counted text)
  unfolding process_single_sample is_counted
  process_single_sample-total text d =
      elim (Bool-cases (python.strip text == "" || starts_with text "#")) [
        | inl skipped ↦ simp skipped (omega arith)
        | inr read ↦ simp read (count_sample-total (regexes.match_sample text) d)
      ]

  -- How many samples a block of lines counts for.
  unfoldable pub counted : List String → ℕ
  counted block = if is_empty block then 0 else one_if (is_counted (join_lines block))

  finish_sample-total :
      (block : List String) (d : List (K × Counter))
      → all_total (finish_sample python regexes insert_dso_name same block d)
        ≡ all_total d + counted block
  unfolding finish_sample counted
  finish_sample-total [] d = omega arith
  finish_sample-total (line ∷ lines) d = process_single_sample-total (join_lines (line ∷ lines)) d

  unfoldable pub all_counted : List (List String) → ℕ
  all_counted [] = 0
  all_counted (block ∷ blocks) = counted block + all_counted blocks

  -- A block all of whose lines have more than spaces.
  abbrev pub IsBlock : List String → Type 0
  IsBlock block = All (λ line. (python.strip line == "") ≡ false) block

  pub parse_lines-block :
      (block rest lines : List String) (d : List (K × Counter))
      → IsBlock block
      → parse_lines python regexes insert_dso_name same (block ++ rest) lines d
        ≡ parse_lines python regexes insert_dso_name same rest (lines ++ block) d
  unfolding parse_lines
  parse_lines-block [] rest lines d h = rw (append-nil lines) refl
  parse_lines-block (line ∷ block) rest lines d h = simp (h.0) (
      parse_lines-block block rest (lines ++ (line ∷ [])) d h.1
      ∙ ap (λ l. parse_lines python regexes insert_dso_name same rest l d)
          (append_assoc lines (line ∷ []) block))

  parse_lines-total :
      (blank : String) (blocks : List (List String)) (last : List String) (d : List (K × Counter))
      → python.strip blank ≡ ""
      → All IsBlock blocks
      → IsBlock last
      → all_total
          (parse_lines python regexes insert_dso_name same (printed blank blocks ++ last) [] d)
        ≡ all_total d + (all_counted blocks + counted last)
  unfolding printed all_counted parse_lines
  parse_lines-total blank [] last d e h k =
      let all =
        ap (λ l. parse_lines python regexes insert_dso_name same l [] d) (sym (append-nil last))
        ∙ parse_lines-block last [] [] d k in
      let one = finish_sample-total last d in rw all (omega (arith, one))
  parse_lines-total blank (block ∷ blocks) last d e h k =
      let d' = finish_sample python regexes insert_dso_name same block d in
      let found : (python.strip blank == "") ≡ true = (eq_iff (python.strip blank) "").1 e in
      let first = parse_lines-block block (blank ∷ (printed blank blocks ++ last)) [] d h.0 in
      let one = finish_sample-total block d in
      let rest = parse_lines-total blank blocks last d' e h.1 k in
      let joined : (block ++ (blank ∷ printed blank blocks)) ++ last
          ≡ block ++ (blank ∷ (printed blank blocks ++ last)) =
        append_assoc block (blank ∷ printed blank blocks) last in
      rw joined (rw first (simp found (omega (arith, rest, one))))

  -- For blocks of lines with more than spaces, each with a blank line behind it but for the last: the
  -- counts of all processes and stacks sum up to the number of blocks that are read, that is, blocks whose
  -- text is no comment, is matched, and has a stack all of whose lines are matched. A block that is not
  -- read, or a last one without a blank line, neither loses nor adds a sample of another block.
  pub parse_perf_script-total :
      (blank : String) (blocks : List (List String)) (last : List String)
      → python.strip blank ≡ ""
      → All IsBlock blocks
      → IsBlock last
      → all_total (
          parse_perf_script_from_iterator python regexes insert_dso_name same
            (printed blank blocks ++ last))
        ≡ all_counted blocks + counted last
  unfolding parse_perf_script_from_iterator all_total
  parse_perf_script-total blank blocks last e h k =
      let all = parse_lines-total blank blocks last [] e h k in omega (arith, all)
