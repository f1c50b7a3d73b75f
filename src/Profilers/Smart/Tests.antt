-- ===== src/Profilers/Smart/Tests.antt =====
-- Runs of the model of gprofiler/profilers/perf.py.
use gprofiler.Prelude.{ℕ, String, Bool, true, false, ◌≡◌, refl, Option, none, some, [], ◌∷◌}
use gprofiler.Prelude.Tests.{eqb}
use gprofiler.Prelude.Result.{Exn, Result, ok, err}
use gprofiler.Prelude.Mapping.{fetch}
use gprofiler.Samples.Splits.{count}
use gprofiler.Profilers.Smart.{
  ProcessCounters, merge_fp_and_dwarf_results, get_average_frame_count, sum_frames, user_part,
  split_front,
}
use gprofiler.Prelude.Python.{StrMethods}
use gprofiler.Perf.Script.{Frame, Regexes, Sample, collapse_stack, collect_frames}
use text.Mathlib.Text.{starts_with}
use gprofiler.Samples.Document.{join_lines}
use gprofiler.Profilers.Smart.Parsed.{
  read_blocks, is_readable, merge_fp_and_dwarf_results-read_blocks,
}
use gprofiler.Profilers.Smart.Merged.{
  ratio_of_samples, best_for, merge_fp_and_dwarf_results-best_for,
}

abbrev fp_perf : ProcessCounters
fp_perf = (1, ("app;main", 4) ∷ []) ∷ (2, ("sh;main;run_[k];call_[k]", 2) ∷ []) ∷ []

abbrev dwarf_perf : ProcessCounters
dwarf_perf = (1, ("app;main;[unknown];work;read", 2) ∷ []) ∷ (3, ("ls;main", 1) ∷ []) ∷ []

abbrev no_draw : ℕ → String → ℕ
no_draw pid stack = 1

merge_fp_and_dwarf_results-best_for_example :
    let r = ratio_of_samples fp_perf dwarf_perf in
    (merged : ProcessCounters) × (merge_fp_and_dwarf_results no_draw fp_perf dwarf_perf ≡ ok merged)
    × ((asked : ℕ)
        → fetch eqb asked merged
          ≡ best_for (no_draw asked) r (fetch eqb asked fp_perf) (fetch eqb asked dwarf_perf) none)
unfolding fetch
merge_fp_and_dwarf_results-best_for_example =
    merge_fp_and_dwarf_results-best_for no_draw fp_perf dwarf_perf (refl, (refl, tt))
      (refl, (refl, tt)) (refl, (refl, tt))

-- A stack whose kernel frames are followed by another one is as deep as its other frames.
deep_run :
    get_average_frame_count ("sh;main;run_[k];call_[k]" ∷ [])
    ≡ ok (record { frames = 2; unknown = 0; samples = 1 })
unfolding get_average_frame_count sum_frames user_part split_front count
deep_run = refl

-- One with a single kernel frame, the last, is counted with it.
one_kernel_frame_run :
    get_average_frame_count ("sh;main;run_[k]" ∷ [])
    ≡ ok (record { frames = 3; unknown = 0; samples = 1 })
unfolding get_average_frame_count sum_frames user_part split_front count
one_kernel_frame_run = refl

abbrev python : StrMethods
python = record { splitlines = λ s. s ∷ []; strip = λ s. s; split = λ s. s ∷ []; lower = λ s. s }

-- Lines of a frame start with a digit here, as the first line of a sample does not.
abbrev frame_of : Bool → Option Frame
frame_of true = some (record { symbol = "main+0x1"; dso = "app" })
frame_of false = none

abbrev sample_of : Bool → Result (Sample ℕ)
sample_of true = ok (record { pid = 7; comm = "app"; stack = some "1 main" })
sample_of false = err Exn.other_error

abbrev regexes : Regexes ℕ
regexes = record {
  match_frame = λ line. frame_of (starts_with line "1 ");
  match_sample = λ text. sample_of (starts_with text "app 7/7");
}

merge_fp_and_dwarf_results-read_blocks_example :
    (merged : ProcessCounters) × (merge_fp_and_dwarf_results no_draw
        (read_blocks python regexes false ""
          (("app 7/7" ∷ "1 main" ∷ []) ∷ ("noise" ∷ []) ∷ [])
          ("# end" ∷ []))
        (read_blocks python regexes false "" [] ("app 7/7" ∷ "1 main" ∷ []))
      ≡ ok merged)
unfolding is_readable join_lines collapse_stack collect_frames
merge_fp_and_dwarf_results-read_blocks_example =
    merge_fp_and_dwarf_results-read_blocks python regexes false no_draw ""
      (("app 7/7" ∷ "1 main" ∷ []) ∷ ("noise" ∷ []) ∷ []) [] ("# end" ∷ [])
      ("app 7/7" ∷ "1 main" ∷ []) refl (((refl, (refl, tt)), refl), (((refl, tt), refl), tt))
      (((refl, tt), refl), tt) tt (((refl, (refl, tt)), refl), tt)
