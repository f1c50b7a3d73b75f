-- ===== src/Perf/Script/Tests.antt =====
-- Runs of the reading of `perf script`, of gprofiler/utils/perf.py.
use gprofiler.Prelude.{ℕ, ◌≡◌, refl, Bool, true, false, none, some, [], ◌∷◌, ◌++◌, ◌==◌}
use gprofiler.Prelude.Tests.{if◌then◌else◌, eqb}
use gprofiler.Prelude.Python.{StrMethods}
use gprofiler.Prelude.Result.{Exn, ok, err}
use gprofiler.Prelude.Mapping.{fetch, store}
use gprofiler.Samples.Document.{join_lines}
use gprofiler.Perf.Script.{
  Regexes, Sample, collapse_stack, collect_frames, process_single_sample, finish_sample,
  parse_lines, parse_perf_script_from_iterator,
}
use gprofiler.Perf.Script.Blocks.{
  all_total, printed, counted, all_counted, is_counted, parse_perf_script-total,
}

-- Texts without spaces at their ends, one line each.
abbrev python : StrMethods
python = record { splitlines = λ s. s ∷ []; strip = λ s. s; split = λ s. s ∷ []; lower = λ s. s }

abbrev sample_of : Bool → Bool → Sample ℕ
sample_of true second = record { pid = 7; comm = "app"; stack = some "1 main" }
sample_of false true = record { pid = 7; comm = "app"; stack = some "bad" }
sample_of false false = record { pid = 8; comm = "sh"; stack = none }

abbrev regexes : Regexes ℕ
regexes = record {
  match_frame =
      λ line. if line == "bad" then none else some (record { symbol = "main+0x1"; dso = "app" });
  match_sample = λ text.
      if text == "noise"
      then err Exn.other_error
      else ok (sample_of (text == "good") (text == "broken"));
}

parse_perf_script-total_example :
    all_total (
      parse_perf_script_from_iterator python regexes false eqb
        (printed "" (("good" ∷ []) ∷ ("noise" ∷ []) ∷ ("broken" ∷ []) ∷ []) ++ ("good" ∷ [])))
    ≡ 2
unfolding all_counted counted is_counted join_lines collapse_stack collect_frames
parse_perf_script-total_example =
    parse_perf_script-total python regexes false eqb ""
      (("good" ∷ []) ∷ ("noise" ∷ []) ∷ ("broken" ∷ []) ∷ []) ("good" ∷ []) refl
      ((refl, tt), ((refl, tt), ((refl, tt), tt))) (refl, tt)

-- The process of a sample whose stack is not matched is entered without a stack.
broken_run : parse_perf_script_from_iterator python regexes false eqb ("broken" ∷ []) ≡ (7, []) ∷ []
unfolding parse_perf_script_from_iterator parse_lines finish_sample process_single_sample join_lines
    collapse_stack collect_frames store fetch
broken_run = refl
