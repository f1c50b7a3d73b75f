-- ===== src/Samples/ErrorStacks.antt =====
-- `ProfilingErrorStack` of gprofiler/gprofiler_types.py: a counter of one stack that says why a process
-- has no samples. Stacks have no line breaks, which the pattern's dots would stop at.
pub mod Attached
use Prim.Native.String.{[] as empty, ◌∷◌ as ◌⋮◌, ◌++◌ as ◌⧺◌, len, slice}
use text.Mathlib.Text.{find?}
use text.Mathlib.TextLemmas.{append_cancel_left}
use gprofiler.Prelude.{
  ℕ, suc, ◌+◌, String, ◌≡◌, refl, sym, ap, ◌∙◌, inl, inr, Bool, true, false, Option, none, some,
  List, [], ◌∷◌, ◌++◌, arith, ◌==◌, eq_iff,
}
use gprofiler.Prelude.Tests.{Bool-cases}
use gprofiler.Prelude.Lists.{contains, IsDistinct}
use gprofiler.Prelude.Result.{Exn, Result, ok, err, ◌>>=◌}
use gprofiler.Samples.Splits.{split_first, lacks, split_first-lem, split_first-parts}
use gprofiler.Samples.Counters.{Counter, keys, increase, total}
use gprofiler.Prelude.Dict.{insert}

-- What stands behind the first occurrence of a part in a text.
abbrev behind : String → String → Option String
behind part text = elim (find? text part) [
  | none ↦ none
  | some i ↦ some (slice text (i + len part) (len text))
]

-- `.+` takes one character at least.
abbrev drop_letter : String → Option String
drop_letter empty = none
drop_letter (c ⋮ s) = some s

abbrev then_behind : String → Option String → Option String
then_behind part none = none
then_behind part (some text) = elim (drop_letter text) [
  | none ↦ none
  | some more ↦ behind part more
]

-- PROFILING_ERROR_STACK_PATTERN.match(stack), for ".*;\[Profiling .+: .+\]"
unfoldable pub matches_error : String → Bool
matches_error stack = elim (then_behind "]" (then_behind ": " (behind ";[Profiling " stack))) [
  | none ↦ false
  | some rest ↦ true
]

unfoldable pub is_error_stack : Counter → Bool
is_error_stack [] = false
is_error_stack ((stack, n) ∷ []) = matches_error stack
is_error_stack (first ∷ second ∷ more) = false

-- ProfilingErrorStack(what, reason, comm), whose constructor asserts the pattern
unfoldable pub profiling_error_stack : String → String → String → Result Counter
profiling_error_stack what reason comm =
    let stacks = increase (comm ⧺ (";[Profiling " ⧺ (what ⧺ (": " ⧺ (reason ⧺ "]"))))) 1 [] in
    elim (is_error_stack stacks) [ true ↦ ok stacks | false ↦ err Exn.assertion_error ]

-- Two parts of a text; a text without ";" cannot be unpacked.
abbrev pub unpacked : Option (String × String) → Result (String × String)
unpacked none = err Exn.value_error
unpacked (some parts) = ok parts

abbrev pub unpack : String → Result (String × String)
unpack text = unpacked (split_first ";" text)

-- f"{comm};{error_frame};{stack}"
abbrev pub annotate : String → String × String → String
annotate error_frame (comm, stack) = comm ⧺ (";" ⧺ (error_frame ⧺ (";" ⧺ stack)))

-- The loop over source_stacks.items().
unfoldable pub attach_frames : String → Counter → Counter → Result Counter
attach_frames error_frame [] dest = ok dest
attach_frames error_frame ((frame, n) ∷ more) dest = unpack frame >>= λ parts.
    attach_frames error_frame more (insert (annotate error_frame parts) n dest)

-- next(iter(error_stack)) of an empty counter raises StopIteration.
unfoldable pub attach_error_to_stacks : Counter → Counter → Result Counter
attach_error_to_stacks source_stacks [] = err Exn.other_error
attach_error_to_stacks source_stacks ((stack, n) ∷ more) =
    unpack stack >>= λ parts. attach_frames (parts.1) source_stacks []
