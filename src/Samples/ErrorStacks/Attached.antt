-- ===== src/Samples/ErrorStacks/Attached.antt =====
-- What `attach_error_to_stacks` of gprofiler/gprofiler_types.py returns.
use Prim.Native.String.{◌++◌ as ◌⧺◌}
use text.Mathlib.TextLemmas.{append_cancel_left}
use mathlib.Core.List.{append-nil, append_assoc}
use gprofiler.Prelude.{
  ℕ, String, ◌≡◌, refl, sym, ap, ◌∙◌, inl, inr, Bool, true, false, ◌&&◌, Option, none, some, [],
  ◌∷◌, ◌++◌, arith, ◌==◌, eq_iff,
}
use gprofiler.Prelude.Tests.{Bool-cases, Option-cases, is_some, if◌then◌else◌}
use gprofiler.Prelude.Lists.{contains, IsDistinct}
use gprofiler.Prelude.Result.{Exn, ok, err}
use gprofiler.Prelude.Dict.{insert}
use gprofiler.Samples.Splits.{split_first, split_first-lem, split_first-parts}
use gprofiler.Samples.Counters.{Counter, keys, insert_new, middle_is_new, total}
use gprofiler.Samples.ErrorStacks.{annotate, attach_frames, attach_error_to_stacks}

-- The frames of a stack with the error's frame as the second one, put together here on their own.
abbrev pub with_second : String → Option (String × String) → String → String
with_second error_frame none frame = frame
with_second error_frame (some (comm, others)) frame = comm ⧺ (";" ⧺ (error_frame ⧺ (";" ⧺ others)))

-- A counter with the error's frame behind the command of each stack.
unfoldable pub annotated : String → Counter → Counter
annotated error_frame [] = []
annotated error_frame ((frame, n) ∷ more) =
    (with_second error_frame (split_first ";" frame) frame, n) ∷ annotated error_frame more

-- Every stack has a frame behind its command.
unfoldable pub all_split : Counter → Bool
all_split [] = true
all_split ((frame, n) ∷ more) = is_some (split_first ";" frame) && all_split more

annotate-injective :
    (error_frame frame frame' : String) (parts parts' : String × String)
    → split_first ";" frame ≡ some parts
    → split_first ";" frame' ≡ some parts'
    → annotate error_frame parts ≡ annotate error_frame parts'
    → frame ≡ frame'
annotate-injective error_frame frame frame' (comm, stack) (comm', stack') h h' e =
    let (whole, front) = split_first-parts ";" frame comm stack h in
    let (whole', front') = split_first-parts ";" frame' comm' stack' h' in
    let s = split_first-lem ";" comm (error_frame ⧺ (";" ⧺ stack)) front in
    let s' = split_first-lem ";" comm' (error_frame ⧺ (";" ⧺ stack')) front' in
    let e' = sym s ∙ ap (split_first ";") e ∙ s' in
    let same_comm : comm ≡ comm' = cc in
    let same_rest : error_frame ⧺ (";" ⧺ stack) ≡ error_frame ⧺ (";" ⧺ stack') = cc in
    let same_stack =
      append_cancel_left ";" stack stack'
        (append_cancel_left error_frame (";" ⧺ stack) (";" ⧺ stack') same_rest) in
    cc (whole, whole', same_comm, same_stack)

contains-annotated :
    (error_frame frame : String) (parts : String × String) (source : Counter)
    → split_first ";" frame ≡ some parts
    → all_split source ≡ true
    → contains frame (keys source) ≡ false
    → contains (annotate error_frame parts) (keys (annotated error_frame source)) ≡ false
unfolding contains annotated all_split
contains-annotated error_frame frame parts [] h a new = refl
contains-annotated error_frame frame parts ((first, n) ∷ more) h a new =
    let rest = contains-annotated error_frame frame parts more h (ground arith) (ground arith) in
    elim (Option-cases (split_first ";" first)) [
      | inl fails ↦
          let k : (is_some (split_first ";" first)) ≡ false = rw fails refl in ground arith
      | inr (parts', splits) ↦
          rw splits (elim (Bool-cases (annotate error_frame parts == annotate error_frame parts')) [
            | inl same ↦
                let e =
                  annotate-injective error_frame frame first parts parts' h splits
                    ((eq_iff (annotate error_frame parts) (annotate error_frame parts')).0 same) in
                ground (arith, e, eq_iff frame first)
            | inr other ↦ simp (other, rest) refl
          ])
    ]

IsDistinct-annotated :
    (error_frame : String) (source : Counter)
    → all_split source ≡ true
    → IsDistinct (keys source)
    → IsDistinct (keys (annotated error_frame source))
unfolding annotated all_split
IsDistinct-annotated error_frame [] a d = tt
IsDistinct-annotated error_frame ((frame, n) ∷ more) a d =
    let rest = IsDistinct-annotated error_frame more (ground arith) d.1 in
    elim (Option-cases (split_first ";" frame)) [
      | inl fails ↦
          let k : (is_some (split_first ";" frame)) ≡ false = rw fails refl in ground arith
      | inr (parts, splits) ↦
          rw splits
            (contains-annotated error_frame frame parts more splits (ground arith) d.0, rest)
    ]

attach_frames-fails :
    (error_frame : String) (source dest : Counter)
    → all_split source ≡ false
    → attach_frames error_frame source dest ≡ err Exn.value_error
unfolding attach_frames all_split
attach_frames-fails error_frame [] dest a = cc
attach_frames-fails error_frame ((frame, n) ∷ more) dest a =
    elim (Option-cases (split_first ";" frame)) [
      | inl fails ↦ simp fails refl
      | inr (parts, splits) ↦
          let rest =
            attach_frames-fails error_frame more (insert (annotate error_frame parts) n dest)
              (simp splits at a) in
          simp (splits, rest) refl
    ]

attach_frames-lem :
    (error_frame : String) (source dest : Counter)
    → all_split source ≡ true
    → IsDistinct (keys (dest ++ annotated error_frame source))
    → attach_frames error_frame source dest ≡ ok (dest ++ annotated error_frame source)
unfolding attach_frames annotated all_split
attach_frames-lem error_frame [] dest a d = rw append-nil refl
attach_frames-lem error_frame ((frame, n) ∷ more) dest a d =
    elim (Option-cases (split_first ";" frame)) [
      | inl fails ↦
          let k : (is_some (split_first ";" frame)) ≡ false = rw fails refl in ground arith
      | inr (parts, splits) ↦
          let d' : IsDistinct
              (keys (dest ++ ((annotate error_frame parts, n) ∷ annotated error_frame more))) =
            simp splits at d in
          let new =
            middle_is_new dest (annotate error_frame parts) n (annotated error_frame more) d' in
          let put = insert_new (annotate error_frame parts) n dest new in
          let whole =
            append_assoc dest ((annotate error_frame parts, n) ∷ []) (annotated error_frame more) in
          let rest =
            attach_frames-lem error_frame more (dest ++ ((annotate error_frame parts, n) ∷ []))
              (ground arith) (rw whole d') in
          simp (splits, put, rest, whole) refl
    ]

total-annotated :
    (error_frame : String) (source : Counter) → total (annotated error_frame source) ≡ total source
unfolding total annotated
total-annotated error_frame [] = refl
total-annotated error_frame ((frame, n) ∷ more) = omega (arith, total-annotated error_frame more)

-- For source stacks of which no two are the same, and an error stack with a command and an error frame:
-- if each source stack has a ";", the result has the same counts in the same order, each under its stack
-- with the error frame put between the command and the others, no two of the new stacks the same, so no
-- sample is lost; if some source stack has no ";", the call raises ValueError.
pub attach_error_to_stacks-lem :
    (source : Counter) (error comm error_frame : String) (n : ℕ)
    → IsDistinct (keys source)
    → split_first ";" error ≡ some (comm, error_frame)
    → let result = attach_error_to_stacks source ((error, n) ∷ []) in
      if all_split source
      then ((result ≡ ok (annotated error_frame source))
          × IsDistinct (keys (annotated error_frame source))
          × (total (annotated error_frame source) ≡ total source))
      else (result ≡ err Exn.value_error)
unfolding attach_error_to_stacks
attach_error_to_stacks-lem source error comm error_frame n d h =
    elim (Bool-cases (all_split source)) [
      | inl all ↦
          let d' = IsDistinct-annotated error_frame source all d in
          simp (h, all)
            (attach_frames-lem error_frame source [] all d', d', total-annotated error_frame source)
      | inr some_fails ↦ simp (h, some_fails) (attach_frames-fails error_frame source [] some_fails)
    ]
