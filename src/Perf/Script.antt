-- ===== src/Perf/Script.antt =====
-- The reading of what `perf script` prints, of gprofiler/utils/perf.py. The two regular expressions and
-- `str` are parameters, and so are process ids, which perf may report as -1.
pub mod Blocks
pub mod Tests
use Prim.Native.String.{◌++◌ as ◌⧺◌}
use text.Mathlib.Text.{starts_with}
use gprofiler.Prelude.{
  ℕ, String, Bool, true, false, ◌&&◌, ◌||◌, not, Option, none, some, List, [], ◌∷◌, ◌++◌, ◌==◌,
}
use gprofiler.Prelude.Tests.{if◌then◌else◌, ltb}
use gprofiler.Prelude.Lists.{is_empty}
use gprofiler.Prelude.Python.{StrMethods}
use gprofiler.Prelude.Result.{Exn, Result, ok, err, ◌>>=◌}
use gprofiler.Prelude.Mapping.{fetch, store}
use gprofiler.Samples.Splits.{count, split_first}
use gprofiler.Samples.Counters.{Counter, increase}
use gprofiler.Samples.Document.{join_lines}

-- The groups of FRAME_REGEX: the symbol, and the library's name of either form.
pub record Frame : Type 0 where
  pub symbol : String
  pub dso : String

-- The groups of SAMPLE_REGEX that are used, with the number that `int` reads.
pub record Sample (K : Type 0) : Type 0 where
  pub pid : K
  pub comm : String
  pub stack : Option String

-- The regular expressions; a sample that is not matched, or whose pid is no number, raises.
pub record Regexes (K : Type 0) : Type 0 where
  pub match_frame : String → Option Frame
  pub match_sample : String → Result (Sample K)

abbrev front_or_whole : String → Option (String × String) → String
front_or_whole whole none = whole
front_or_whole whole (some (front, back)) = front

-- sub in text
abbrev is_in : String → String → Bool
is_in sub text = ltb 0 (count sub text)

unfoldable pub frame_text : Bool → Frame → String
frame_text insert_dso_name frame =
    let sym = front_or_whole frame.symbol (split_first "+" frame.symbol) in
    if sym == "[unknown]" && not (frame.dso == "unknown")
    then "(" ⧺ (frame.dso ⧺ ")")
    else if is_in "kernel" frame.dso || is_in "vmlinux" frame.dso
    then sym ⧺ "_[k]"
    else if insert_dso_name
    then sym ⧺ (" (" ⧺ (frame.dso ⧺ ")"))
    else sym

-- ";".join(texts), for the first text and the others
unfoldable pub join_frames : String → List String → String
join_frames first [] = first
join_frames first (next ∷ more) = first ⧺ (";" ⧺ join_frames next more)

module _ {K : Type 0} (python : StrMethods) (regexes : Regexes K) (insert_dso_name : Bool) where
  abbrev append_frame : Option Frame → List String → Result (List String)
  append_frame none funcs = err Exn.assertion_error
  append_frame (some frame) funcs = ok (funcs ++ (frame_text insert_dso_name frame ∷ []))

  -- The lines are read from the last to the first, so each one's frame comes behind those below it.
  unfoldable pub collect_frames : List String → Result (List String)
  collect_frames [] = ok []
  collect_frames (line ∷ lines) =
      collect_frames lines >>= λ funcs. append_frame (regexes.match_frame line) funcs

  unfoldable pub collapse_stack : String → String → Result String
  collapse_stack comm stack =
      collect_frames (python.splitlines stack) >>= λ funcs. ok (join_frames comm funcs)

  module _ (same : K → K → Bool) where
    abbrev pub or_new : Option Counter → Counter
    or_new none = []
    or_new (some counter) = counter

    -- The process is entered before collapse_stack is called, whose exception is caught.
    abbrev pub count_stack : K → Counter → Result String → List (K × Counter) → List (K × Counter)
    count_stack pid counter (ok stack) d = store same pid (increase stack 1 counter) d
    count_stack pid counter (err raised) d = store same pid counter d

    abbrev pub count_sample : Result (Sample K) → List (K × Counter) → List (K × Counter)
    count_sample (err raised) d = d
    count_sample (ok sample) d = count_if_stack sample.pid sample.comm sample.stack d
      where
        count_if_stack : K → String → Option String → List (K × Counter) → List (K × Counter)
        count_if_stack pid comm none d = d
        count_if_stack pid comm (some stack) d =
            count_stack pid (or_new (fetch same pid d)) (collapse_stack comm stack) d

    unfoldable pub process_single_sample : String → List (K × Counter) → List (K × Counter)
    process_single_sample sample d =
        if python.strip sample == "" || starts_with sample "#"
        then d
        else count_sample (regexes.match_sample sample) d

    -- What is done where a sample's lines end.
    unfoldable pub finish_sample : List String → List (K × Counter) → List (K × Counter)
    finish_sample lines d = if is_empty lines then d else process_single_sample (join_lines lines) d

    unfoldable pub parse_lines : List String → List String → List (K × Counter) → List (K × Counter)
    parse_lines [] lines d = finish_sample lines d
    parse_lines (line ∷ more) lines d =
        if python.strip line == ""
        then parse_lines more [] (finish_sample lines d)
        else parse_lines more (lines ++ (line ∷ [])) d

    unfoldable pub parse_perf_script_from_iterator : List String → List (K × Counter)
    parse_perf_script_from_iterator perf_iterator = parse_lines perf_iterator [] []
