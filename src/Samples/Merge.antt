-- ===== src/Samples/Merge.antt =====
-- `merge_profiles` of gprofiler/merge.py: the runtime profilers' samples in place of perf's.
pub mod Totals
use gprofiler.Prelude.{
  ℕ, ◌+◌, ◌≤◌, ◌<◌, String, ◌≡◌, refl, Bool, true, false, not, ◌&&◌, ◌||◌, Option, none, some, List,
  [], ◌∷◌, arith, ◌==◌,
}
use gprofiler.Prelude.Tests.{if◌then◌else◌, eqb, ltb, is_some}
use gprofiler.Prelude.Lists.{is_empty}
use gprofiler.Prelude.Result.{Exn, Result, ok, err, ◌>>=◌}
use gprofiler.Prelude.Mapping.{fetch, store}
use gprofiler.Samples.Counters.{Counter, total}
use gprofiler.Samples.ErrorStacks.{is_error_stack, attach_error_to_stacks}
use gprofiler.Samples.Scaling.{Ratio, scale_sample_counts}
use gprofiler.Samples.Metadata.{ProfileData}

abbrev pub Profiles : Type 0 → Type 0
Profiles M = List (ℕ × ProfileData M)

-- profile.container_name in [None, ""]
abbrev is_unnamed : Option String → Bool
is_unnamed none = true
is_unnamed (some name) = name == ""

module _ {M : Type 0} where
  -- sum(process_perf.stacks.values()), which is 0 where perf has no samples of the process
  abbrev pub perf_samples : Option (ProfileData M) → ℕ
  perf_samples none = 0
  perf_samples (some perf) = total perf.stacks

  abbrev perf_stacks : Option (ProfileData M) → Counter
  perf_stacks none = []
  perf_stacks (some perf) = perf.stacks

  -- profile.stacks, scaled by perf's samples or with the error attached to perf's stacks
  unfoldable pub merged_stacks :
      (String → ℕ) → Option (ProfileData M) → ProfileData M → Result Counter
  merged_stacks draws process_perf profile =
      let perf_count = perf_samples process_perf in
      if is_some process_perf && (ltb 0 perf_count && is_error_stack profile.stacks)
      then attach_error_to_stacks (perf_stacks process_perf) profile.stacks
      else if ltb 0 perf_count
      then ok (
          scale_sample_counts draws (record { above = perf_count; below = total profile.stacks })
            profile.stacks)
      else ok profile.stacks

  abbrev perf_container : Option (ProfileData M) → Option String
  perf_container none = none
  perf_container (some perf) = perf.container_name

  unfoldable pub merged_container : Option (ProfileData M) → ProfileData M → Option String
  merged_container process_perf profile =
      if is_unnamed profile.container_name && is_some (perf_container process_perf)
      then perf_container process_perf
      else profile.container_name

  unfoldable pub merge_profile :
      (String → ℕ) → Option (ProfileData M) → ProfileData M → Result (ProfileData M)
  merge_profile draws process_perf profile =
      if ltb 0 (total profile.stacks)
      then (merged_stacks draws process_perf profile >>= λ stacks. ok (record profile {
        stacks = stacks;
        container_name = merged_container process_perf profile;
      }))
      else err Exn.assertion_error

  -- The loop over the runtime profilers' processes, with the random draws of each process.
  unfoldable pub merge_loop : (ℕ → String → ℕ) → Profiles M → Profiles M → Result (Profiles M)
  merge_loop draws perf_profiles [] = ok perf_profiles
  merge_loop draws perf_profiles ((pid, profile) ∷ more) =
      let merged = merge_profile (draws pid) (fetch eqb pid perf_profiles) profile in
      if is_empty profile.stacks
      then merge_loop draws perf_profiles more
      else merged >>= λ profile'. merge_loop draws (store eqb pid profile' perf_profiles) more
