-- ===== src/Samples/Merge/Totals.antt =====
-- What `merge_profiles` of gprofiler/merge.py leaves of each process.
use mathlib.Core.Path.{subst}
use gprofiler.Prelude.{
  ℕ, ◌+◌, ◌≤◌, ◌<◌, String, ◌≡◌, ◌⊎◌, refl, ap, inl, inr, true, false, ◌&&◌, Option, none, some, [],
  ◌∷◌, arith,
}
use gprofiler.Prelude.Tests.{if◌then◌else◌, eqb, eqb_iff, ltb, is_some, Bool-cases}
use gprofiler.Prelude.Lists.{is_empty, length, All, IsDistinct}
use gprofiler.Prelude.Result.{Result, ok, ◌>>=◌, >>=-eq-ok, ok-injective}
use gprofiler.Prelude.Mapping.{fetch, store, fetch-store}
use gprofiler.Samples.Counters.{keys, total}
use gprofiler.Samples.ErrorStacks.{is_error_stack}
use gprofiler.Samples.Scaling.{scale_sample_counts, scale_sample_counts-total}
use gprofiler.Samples.Metadata.{ProfileData}
use gprofiler.Samples.Merge.{
  Profiles, perf_samples, merged_stacks, merged_container, merge_profile, merge_loop,
}

module _ {M : Type 0} where
  -- No process twice, as in a dict.
  abbrev pub IsDict : Profiles M → Type 0
  IsDict [] = Unit
  IsDict ((pid, profile) ∷ more) = (fetch eqb pid more ≡ none) × IsDict more

  abbrev one_process :
      (String → ℕ)
      → Option (ProfileData M)
      → Option (ProfileData M)
      → Result (Option (ProfileData M))
  one_process draws perf none = ok perf
  one_process draws perf (some profile) =
      if is_empty profile.stacks
      then ok perf
      else (merge_profile draws perf profile >>= λ profile'. ok (some profile'))

  -- What a process ends up with, said of the process alone: perf's profile where the runtime profilers
  -- have no stack of it, else the merge of both.
  unfoldable pub merged_for :
      (ℕ → String → ℕ) → ℕ → Profiles M → Profiles M → Result (Option (ProfileData M))
  merged_for draws pid perf_profiles profiles =
      one_process (draws pid) (fetch eqb pid perf_profiles) (fetch eqb pid profiles)

  not_again :
      (pid asked : ℕ) (more : Profiles M)
      → eqb pid asked ≡ true
      → fetch eqb pid more ≡ none
      → fetch eqb asked more ≡ none
  not_again pid asked more same gone =
      subst (λ q. fetch eqb q more ≡ none) ((eqb_iff pid asked).0 same) gone

  -- If the merge returns and no process has two runtime profiles, then every process, whatever its number,
  -- ends up with what its own profiles determine: no process disappears, is mixed with another one, or
  -- gets samples from nowhere.
  pub merge_loop-merged_for :
      (draws : ℕ → String → ℕ) (perf_profiles profiles merged : Profiles M) (asked : ℕ)
      → IsDict profiles
      → merge_loop draws perf_profiles profiles ≡ ok merged
      → merged_for draws asked perf_profiles profiles ≡ ok (fetch eqb asked merged)
  unfolding merge_loop merged_for fetch
  merge_loop-merged_for draws perf [] merged asked d h =
      ap (λ m. ok (fetch eqb asked m)) (ok-injective h)
  merge_loop-merged_for draws perf ((pid, profile) ∷ more) merged asked d h =
      elim (Bool-cases (is_empty profile.stacks)) [
        | inl no_stacks ↦
            let h' : merge_loop draws perf more ≡ ok merged = simp no_stacks at h in
            let rest = merge_loop-merged_for draws perf more merged asked d.1 h' in
            elim (Bool-cases (eqb pid asked)) [
              | inl same ↦
                  let gone = not_again pid asked more same d.0 in
                  let r : ok (fetch eqb asked perf) ≡ ok (fetch eqb asked merged) =
                    simp gone at rest in
                  simp (same, no_stacks) r
              | inr other ↦ simp other rest
            ]
        | inr stacks ↦
            let h' : (merge_profile (draws pid) (fetch eqb pid perf) profile >>= λ profile'.
            merge_loop draws (store eqb pid profile' perf) more)
                ≡ ok merged =
              simp stacks at h in
            let (profile', one, h'') =
              >>=-eq-ok (merge_profile (draws pid) (fetch eqb pid perf) profile)
                (λ profile'. merge_loop draws (store eqb pid profile' perf) more) h' in
            let rest =
              merge_loop-merged_for draws (store eqb pid profile' perf) more merged asked d.1 h'' in
            let law = fetch-store eqb eqb_iff pid asked profile' perf in
            elim (Bool-cases (eqb pid asked)) [
              | inl same ↦
                  let gone = not_again pid asked more same d.0 in
                  let one' =
                    subst (λ q. merge_profile (draws q) (fetch eqb q perf) profile ≡ ok profile')
                      ((eqb_iff pid asked).0 same) one in
                  let r : ok (some profile') ≡ ok (fetch eqb asked merged) =
                    simp (gone, law, same) at rest in
                  simp (same, stacks, one') r
              | inr other ↦
                  let r : one_process (draws asked) (fetch eqb asked perf) (fetch eqb asked more)
                      ≡ ok (fetch eqb asked merged) =
                    simp (law, other) at rest in
                  simp other r
            ]
      ]

  -- A profile with samples, none of which says that profiling failed, or one without stacks.
  unfoldable pub IsReady : ProfileData M → Type 0
  IsReady profile =
      (is_empty profile.stacks ≡ true)
      ⊎ ((0 < total profile.stacks) × (is_error_stack profile.stacks ≡ false))

  -- The merge of a profile that is no error stack.
  unfoldable pub plain_merge : (String → ℕ) → Option (ProfileData M) → ProfileData M → ProfileData M
  plain_merge draws process_perf profile = record profile {
    stacks =
        if ltb 0 (perf_samples process_perf)
        then scale_sample_counts draws
            (record { above = perf_samples process_perf; below = total profile.stacks })
            profile.stacks
        else profile.stacks;
    container_name = merged_container process_perf profile;
  }

  merge_profile-plain :
      (draws : String → ℕ) (process_perf : Option (ProfileData M)) (profile : ProfileData M)
      → 0 < total profile.stacks
      → is_error_stack profile.stacks ≡ false
      → merge_profile draws process_perf profile ≡ ok (plain_merge draws process_perf profile)
  unfolding merge_profile merged_stacks plain_merge
  merge_profile-plain draws process_perf profile h no_error =
      let n = perf_samples process_perf in
      let some_samples : ltb 0 (total profile.stacks) ≡ true = ground arith in
      let no_attaching : (is_some process_perf && (ltb 0 n && is_error_stack profile.stacks))
          ≡ false =
        ground arith in
      elim (Bool-cases (ltb 0 n)) [
        | inl sampled ↦ simp no_attaching (simp (some_samples, sampled) refl)
        | inr not_sampled ↦ simp no_attaching (simp (some_samples, not_sampled) refl)
      ]

  -- For a runtime profile with samples that is no error stack and has no stack twice, the merge with what
  -- perf has of the process, if anything, returns a profile; where perf has samples its counts sum up to
  -- perf's but for one at most for each of the profile's stacks, and else its stacks are unchanged.
  pub merge_profile-total :
      (draws : String → ℕ) (process_perf : Option (ProfileData M)) (profile : ProfileData M)
      → IsDistinct (keys profile.stacks)
      → 0 < total profile.stacks
      → is_error_stack profile.stacks ≡ false
      → (merged : ProfileData M) × (merge_profile draws process_perf profile ≡ ok merged)
        × (if ltb 0 (perf_samples process_perf)
            then (total merged.stacks ≤ perf_samples process_perf + length profile.stacks)
              × (perf_samples process_perf ≤ total merged.stacks + length profile.stacks)
            else (merged.stacks ≡ profile.stacks))
  unfolding plain_merge
  merge_profile-total draws process_perf profile d h no_error = (
    plain_merge draws process_perf profile,
    merge_profile-plain draws process_perf profile h no_error,
    elim (Bool-cases (ltb 0 (perf_samples process_perf))) [
      | inl sampled ↦
          rw sampled
            (scale_sample_counts-total draws (perf_samples process_perf) profile.stacks d h)
      | inr not_sampled ↦ rw not_sampled refl
    ],
  )

  -- If every runtime profile has samples and is no error stack, or has no stacks, then the merge returns
  -- profiles for any draws and any samples of perf.
  merge_loop-returns :
      (draws : ℕ → String → ℕ) (perf_profiles profiles : Profiles M)
      → All (λ p. IsReady (p.1)) profiles
      → (merged : Profiles M) × (merge_loop draws perf_profiles profiles ≡ ok merged)
  unfolding merge_loop IsReady
  merge_loop-returns draws perf [] h = (perf, refl)
  merge_loop-returns draws perf ((pid, profile) ∷ more) (inl no_stacks, h) =
      simp no_stacks (merge_loop-returns draws perf more h)
  merge_loop-returns draws perf ((pid, profile) ∷ more) (inr (samples, no_error), h) =
      let one = merge_profile-plain (draws pid) (fetch eqb pid perf) profile samples no_error in
      let profile' = plain_merge (draws pid) (fetch eqb pid perf) profile in
      elim (Bool-cases (is_empty profile.stacks)) [
        | inl no_stacks ↦ simp no_stacks (merge_loop-returns draws perf more h)
        | inr stacks ↦
            simp (stacks, one) (merge_loop-returns draws (store eqb pid profile' perf) more h)
      ]
