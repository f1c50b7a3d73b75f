-- ===== src/Profilers/Smart.antt =====
-- The choice between perf's two kinds of stacks in smart mode, of gprofiler/profilers/perf.py: averages and
-- ratios are exact fractions where Python has floats. What `perf script` printed is given as counters.
pub mod Merged
pub mod Parsed
pub mod Tests
use Prim.Native.Char.{Char}
use Prim.Native.String.{[] as empty, ◌∷◌ as ◌⋮◌}
use text.Mathlib.Text.{starts_with}
use gprofiler.Prelude.{
  ℕ, suc, ◌+◌, ◌*◌, String, Bool, true, false, Option, none, some, List, [], ◌∷◌,
}
use gprofiler.Prelude.Tests.{if◌then◌else◌, ltb, eqb}
use gprofiler.Prelude.Lists.{is_empty}
use gprofiler.Prelude.Result.{Exn, Result, ok, err, ◌>>=◌}
use gprofiler.Prelude.Mapping.{fetch, store}
use gprofiler.Samples.Splits.{count}
use gprofiler.Samples.Counters.{Counter, keys, total}
use gprofiler.Samples.Scaling.{Ratio, scale_sample_counts}

abbrev pub ProcessCounters : Type 0
ProcessCounters = List (ℕ × Counter)

abbrev put_letter : Char → Option String → Option String
put_letter c none = none
put_letter c (some front) = some (c ⋮ front)

-- text.split(sep, 1)[0] where the separator occurs
unfoldable pub split_front : String → String → Option String
split_front sep empty = none
split_front sep (c ⋮ s) =
    let rest = split_front sep s in
    if starts_with (c ⋮ s) sep then some empty else put_letter c rest

abbrev or_split : Option String → Option String → Option String
or_split none second = second
or_split (some front) second = some front

-- The part of a stack before its kernel frames, if either separator is found.
unfoldable pub user_part : String → Option String
user_part sample = or_split (split_front "_[k];" sample) (split_front "_[k] " sample)

-- The mean of numbers that may be negative: (frames - unknown) / samples
pub record Average : Type 0 where
  pub frames : ℕ
  pub unknown : ℕ
  pub samples : ℕ

-- Adds frame_count_in_sample, one more where no kernel frames are found.
abbrev pub count_frames : String → Option String → Average → Average
count_frames sample none a = record {
  frames = suc (count ";" sample) + a.frames;
  unknown = count "[unknown]" sample + a.unknown;
  samples = suc a.samples;
}
count_frames sample (some user) a = record {
  frames = count ";" user + a.frames;
  unknown = count "[unknown]" user + a.unknown;
  samples = suc a.samples;
}

unfoldable pub sum_frames : List String → Average
sum_frames [] = record { frames = 0; unknown = 0; samples = 0 }
sum_frames (sample ∷ more) = count_frames sample (user_part sample) (sum_frames more)

-- Without samples the division fails.
unfoldable pub get_average_frame_count : List String → Result Average
get_average_frame_count [] = err Exn.other_error
get_average_frame_count (sample ∷ more) = ok (sum_frames (sample ∷ more))

-- a > b, for averages of at least one sample
unfoldable pub is_above : Average → Average → Bool
is_above a b =
    ltb (b.frames * a.samples + a.unknown * b.samples)
      (a.frames * b.samples + b.unknown * a.samples)

-- What one process of fp_perf gets.
abbrev pub deepest_stacks : (String → ℕ) → Ratio → Counter → Option Counter → Result Counter
deepest_stacks draws r fp none = ok fp
deepest_stacks draws r fp (some dwarf) = get_average_frame_count (keys fp) >>= λ fp_average.
    get_average_frame_count (keys dwarf) >>= λ dwarf_average.
    ok (if is_above fp_average dwarf_average then fp else scale_sample_counts draws r dwarf)

unfoldable pub add_highest_avg_depth_stacks_per_process :
    (ℕ → String → ℕ)
    → Ratio
    → ProcessCounters
    → ProcessCounters
    → ProcessCounters
    → Result ProcessCounters
add_highest_avg_depth_stacks_per_process draws r dwarf_perf [] merged = ok merged
add_highest_avg_depth_stacks_per_process draws r dwarf_perf ((pid, fp) ∷ more) merged =
    deepest_stacks (draws pid) r fp (fetch eqb pid dwarf_perf) >>= λ stacks.
    add_highest_avg_depth_stacks_per_process draws r dwarf_perf more (store eqb pid stacks merged)

-- sum([sum(stacks.values()) for stacks in perf.values()])
unfoldable pub total_samples : ProcessCounters → ℕ
total_samples [] = 0
total_samples ((pid, stacks) ∷ more) = total stacks + total_samples more

unfoldable pub fp_to_dwarf_sample_ratio : ℕ → ℕ → Ratio
fp_to_dwarf_sample_ratio total_fp total_dwarf =
    if eqb total_dwarf 0
    then record { above = 0; below = 1 }
    else record { above = total_fp; below = total_dwarf }

unfoldable pub merge_fp_and_dwarf_results :
    (ℕ → String → ℕ) → ProcessCounters → ProcessCounters → Result ProcessCounters
merge_fp_and_dwarf_results draws fp_perf dwarf_perf =
    if is_empty fp_perf
    then ok dwarf_perf
    else if is_empty dwarf_perf
    then ok fp_perf
    else add_highest_avg_depth_stacks_per_process draws
        (fp_to_dwarf_sample_ratio (total_samples fp_perf) (total_samples dwarf_perf)) dwarf_perf
        fp_perf []
