-- ===== src/Profilers/Smart/Parsed.antt =====
-- The merge of two outputs of `perf script`, as `snapshot` of gprofiler/profilers/perf.py composes them.
use gprofiler.Prelude.{
  ℕ, ◌+◌, String, ◌≡◌, refl, ◌∙◌, inl, inr, Bool, true, false, sym, ap, eq_iff, ◌||◌, Option, none,
  some, List, [], ◌∷◌, ◌++◌, arith, ◌==◌,
}
use text.Mathlib.Text.{starts_with}
use gprofiler.Prelude.Tests.{eqb, eqb_iff, Bool-cases}
use gprofiler.Prelude.Lists.{is_empty, All}
use gprofiler.Prelude.Dict.{insert}
use gprofiler.Prelude.Python.{StrMethods}
use gprofiler.Prelude.Result.{Result, ok, err}
use gprofiler.Prelude.Mapping.{fetch, store, fetch-store}
use gprofiler.Samples.Counters.{Counter, increase, count_of}
use gprofiler.Samples.Document.{join_lines}
use mathlib.Core.List.{append-nil, append_assoc}
use gprofiler.Perf.Script.Blocks.{printed, IsBlock, parse_lines-block}
use gprofiler.Perf.Script.{
  count_stack, Regexes, Sample, collapse_stack, or_new, count_sample, process_single_sample,
  finish_sample, parse_lines, parse_perf_script_from_iterator,
}
use gprofiler.Profilers.Smart.{ProcessCounters, merge_fp_and_dwarf_results}
use gprofiler.Profilers.Smart.Merged.{IsDict, HasStacks, merge_fp_and_dwarf_results-best_for}

-- A dict of processes that all have stacks.
abbrev IsSampled : ProcessCounters → Type 0
IsSampled d = IsDict d × All (λ p. HasStacks (p.1)) d

HasStacks-increase : (stack : String) (counter : Counter) → HasStacks (increase stack 1 counter)
unfolding increase insert
HasStacks-increase stack counter = inserted (count_of stack counter + 1) counter
  where
    inserted : (n : ℕ) (c : Counter) → HasStacks (insert stack n c)
    inserted n [] = refl
    inserted n ((first, old) ∷ more) = elim (Bool-cases (first == stack)) [
      | inl same ↦ simp same refl
      | inr other ↦ simp other refl
    ]

IsSampled-store :
    (pid : ℕ) (counter : Counter) (d : ProcessCounters)
    → HasStacks counter
    → IsSampled d
    → IsSampled (store eqb pid counter d)
unfolding store fetch
IsSampled-store pid counter [] h s = ((refl, tt), (h, tt))
IsSampled-store pid counter ((first, old) ∷ more) h s = elim (Bool-cases (eqb first pid)) [
  | inl same ↦ simp same (s.0, (h, s.1.1))
  | inr other ↦
      let rest = IsSampled-store pid counter more h (s.0.1, s.1.1) in
      let apart : eqb pid first ≡ false = ground (arith, eqb_iff pid first, eqb_iff first pid) in
      let gone : fetch eqb first (store eqb pid counter more) ≡ none =
        fetch-store eqb eqb_iff pid first counter more ∙ rw apart (s.0.0) in
      simp other ((gone, rest.0), (s.1.0, rest.1))
]

module _ (python : StrMethods) (regexes : Regexes ℕ) (insert_dso_name : Bool) where
  abbrev collapses : Result String → Bool
  collapses (ok stack) = true
  collapses (err raised) = false

  abbrev stack_collapses : String → Option String → Bool
  stack_collapses comm none = true
  stack_collapses comm (some stack) =
      collapses (collapse_stack python regexes insert_dso_name comm stack)

  -- A text that is not matched is no sample; the stack of one that is can be collapsed, if it has one.
  abbrev match_collapses : Result (Sample ℕ) → Bool
  match_collapses (err raised) = true
  match_collapses (ok sample) = stack_collapses sample.comm sample.stack

  -- A block of lines without an unreadable stack: none, a comment, no sample, or one whose stack's lines
  -- are all matched.
  unfoldable pub is_readable : List String → Bool
  is_readable block =
      let text = join_lines block in
      is_empty block
      || ((python.strip text == "" || starts_with text "#")
          || match_collapses (regexes.match_sample text))

  count_stack-IsSampled :
      (pid : ℕ) (stack : Result String) (d : ProcessCounters)
      → collapses stack ≡ true
      → IsSampled d
      → IsSampled (
          count_stack python regexes insert_dso_name eqb pid
            (or_new python regexes insert_dso_name eqb (fetch eqb pid d))
            stack
            d)
  count_stack-IsSampled pid (err raised) d h s = cc
  count_stack-IsSampled pid (ok stack) d h s =
      let counter = or_new python regexes insert_dso_name eqb (fetch eqb pid d) in
      IsSampled-store pid (increase stack 1 counter) d (HasStacks-increase stack counter) s

  count_sample-IsSampled :
      (match : Result (Sample ℕ)) (d : ProcessCounters)
      → match_collapses match ≡ true
      → IsSampled d
      → IsSampled (count_sample python regexes insert_dso_name eqb match d)
  count_sample-IsSampled (err raised) d h s = s
  count_sample-IsSampled (ok sample) d h s = of_stack sample.stack h
    where
      of_stack :
          (stack : Option String)
          → stack_collapses sample.comm stack ≡ true
          → IsSampled (
              count_sample python regexes insert_dso_name eqb
                (ok (record sample { stack = stack }))
                d)
      of_stack none k = s
      of_stack (some stack) k =
          count_stack-IsSampled sample.pid
            (collapse_stack python regexes insert_dso_name sample.comm stack) d k s

  finish_sample-IsSampled :
      (block : List String) (d : ProcessCounters)
      → is_readable block ≡ true
      → IsSampled d
      → IsSampled (finish_sample python regexes insert_dso_name eqb block d)
  unfolding finish_sample process_single_sample is_readable
  finish_sample-IsSampled [] d h s = s
  finish_sample-IsSampled (line ∷ lines) d h s =
      let text = join_lines (line ∷ lines) in
      elim (Bool-cases (python.strip text == "" || starts_with text "#")) [
        | inl skipped ↦ simp skipped s
        | inr read ↦
            let k : match_collapses (regexes.match_sample text) ≡ true = simp read at h in
            simp read (count_sample-IsSampled (regexes.match_sample text) d k s)
      ]

  -- Blocks of lines with more than spaces, all readable.
  abbrev pub AllReadable : List (List String) → Type 0
  AllReadable blocks =
      All (λ block. IsBlock python regexes insert_dso_name eqb block × (is_readable block ≡ true))
        blocks

  parse_lines-IsSampled :
      (blank : String) (blocks : List (List String)) (last : List String) (d : ProcessCounters)
      → python.strip blank ≡ ""
      → AllReadable blocks
      → AllReadable (last ∷ [])
      → IsSampled d
      → IsSampled
          (parse_lines python regexes insert_dso_name eqb (printed blank blocks ++ last) [] d)
  unfolding printed parse_lines
  parse_lines-IsSampled blank [] last d e h k s =
      let all =
        ap (λ l. parse_lines python regexes insert_dso_name eqb l [] d) (sym (append-nil last))
        ∙ parse_lines-block python regexes insert_dso_name eqb last [] [] d k.0.0 in
      rw all (finish_sample-IsSampled last d k.0.1 s)
  parse_lines-IsSampled blank (block ∷ blocks) last d e h k s =
      let found : (python.strip blank == "") ≡ true = (eq_iff (python.strip blank) "").1 e in
      let first =
        parse_lines-block python regexes insert_dso_name eqb block
          (blank ∷ (printed blank blocks ++ last)) [] d h.0.0 in
      let rest =
        parse_lines-IsSampled blank blocks last
          (finish_sample python regexes insert_dso_name eqb block d) e h.1 k
          (finish_sample-IsSampled block d h.0.1 s) in
      let joined : (block ++ (blank ∷ printed blank blocks)) ++ last
          ≡ block ++ (blank ∷ (printed blank blocks ++ last)) =
        append_assoc block (blank ∷ printed blank blocks) last in
      rw joined (rw first (simp found rest))

  -- What is read from blocks of lines, each with a blank line behind it but for the last.
  unfoldable pub read_blocks : String → List (List String) → List String → ProcessCounters
  read_blocks blank blocks last =
      parse_perf_script_from_iterator python regexes insert_dso_name eqb
        (printed blank blocks ++ last)

  -- For two outputs of `perf script` in blocks of lines, with process ids from 0 on: if no block is a
  -- sample with a stack that cannot be read, while comments, blocks that are no samples and samples
  -- without a stack may be among them, then the merge of what is read from the two returns, so no average
  -- is taken of a process without stacks.
  pub merge_fp_and_dwarf_results-read_blocks :
      (draws : ℕ → String → ℕ) (blank : String) (fp dwarf : List (List String))
      (fp_last dwarf_last : List String)
      → python.strip blank ≡ ""
      → AllReadable fp
      → AllReadable (fp_last ∷ [])
      → AllReadable dwarf
      → AllReadable (dwarf_last ∷ [])
      → (merged : ProcessCounters) × (merge_fp_and_dwarf_results draws
            (read_blocks blank fp fp_last)
            (read_blocks blank dwarf dwarf_last)
          ≡ ok merged)
  unfolding read_blocks parse_perf_script_from_iterator
  merge_fp_and_dwarf_results-read_blocks draws blank fp dwarf fp_last dwarf_last e h k h' k' =
      let a = parse_lines-IsSampled blank fp fp_last [] e h k (tt, tt) in
      let b = parse_lines-IsSampled blank dwarf dwarf_last [] e h' k' (tt, tt) in
      let (merged, returned, best) =
        merge_fp_and_dwarf_results-best_for draws (read_blocks blank fp fp_last)
          (read_blocks blank dwarf dwarf_last) a.0 a.1 b.1 in
      (merged, returned)
