-- ===== src/Agent/Snapshot.antt =====
-- `start` and `_snapshot` of gprofiler/main.py. Profilers, the file system and the server are parameters.
use gprofiler.Prelude.{
  ℕ, String, Bool, true, false, not, ◌&&◌, Option, none, some, List, [], ◌∷◌, ◌++◌,
}
use gprofiler.Prelude.Tests.{if◌then◌else◌, ltb, eqb}
use gprofiler.Prelude.Lists.{is_empty}
use gprofiler.Prelude.Result.{Exn, Result, ok, err, ◌>>=◌}
use gprofiler.Prelude.Mapping.{fetch, store}
use gprofiler.Samples.Metadata.{EnrichmentOptions, Dictionaries, ProfileData}
use gprofiler.Samples.Merge.{Profiles, merge_loop}
use gprofiler.Samples.ContainerNames.{ContainerNamesClient}
use gprofiler.Samples.Document.{Header, Surroundings, concatenate_profiles}

-- A profiler: its class, what should_skip_due_to_system_threshold() returns or raises if there is one, and
-- whether start() returns.
pub record Profiler : Type 0 where
  pub name : String
  pub is_system_profiler : Bool
  pub skips_on_threshold : Option (Result Bool)
  pub can_start : Bool

-- The number of processes, none where counting them fails, against a threshold that 0 switches off.
abbrev exceeds : ℕ → Option ℕ → Bool
exceeds threshold none = false
exceeds threshold (some total_processes) = ltb threshold total_processes

unfoldable pub skip_system_profilers : ℕ → Option ℕ → Bool
skip_system_profilers threshold counted = not (eqb threshold 0) && exceeds threshold counted

abbrev or_skip : Option (Result Bool) → Bool
or_skip none = true
or_skip (some (ok skips)) = skips
or_skip (some (err raised)) = false

abbrev raises : Option (Result Bool) → Bool
raises (some (err raised)) = true
raises other = false

unfoldable pub is_skipped : Bool → Profiler → Bool
is_skipped skip p = skip && (p.is_system_profiler && or_skip p.skips_on_threshold)

-- Neither the test nor start() raises, for a profiler that is not skipped.
unfoldable pub starts : Bool → Profiler → Bool
starts skip p = not (skip && (p.is_system_profiler && raises p.skips_on_threshold)) && p.can_start

-- The profilers that are kept, and those that are started.
pub record Starting : Type 0 where
  pub process_profilers : List Profiler
  pub started : List String

unfoldable pub start_process_profilers : Bool → List Profiler → Starting
start_process_profilers skip [] = record { process_profilers = []; started = [] }
start_process_profilers skip (p ∷ ps) =
    let rest = start_process_profilers skip ps in
    if is_skipped skip p
    then record rest { process_profilers = p ∷ rest.process_profilers }
    else if starts skip p
    then record { process_profilers = p ∷ rest.process_profilers; started = p.name ∷ rest.started }
    else rest

-- The system profiler is the last one; its failure is the caller's.
unfoldable pub start : ℕ → Option ℕ → List Profiler → Profiler → Result Starting
start threshold counted process_profilers system_profiler =
    let skip = skip_system_profilers threshold counted in
    let s = start_process_profilers skip process_profilers in
    if is_skipped skip system_profiler
    then ok s
    else if starts skip system_profiler
    then ok (record s { started = s.started ++ (system_profiler.name ∷ []) })
    else err Exn.other_error

module _ {M : Type 0} where
  -- d.update(other)
  unfoldable pub update_all : Profiles M → Profiles M → Profiles M
  update_all d [] = d
  update_all d ((pid, profile) ∷ more) = update_all (store eqb pid profile d) more

  -- The results of the process profilers as they complete; a failed one is reported and left out.
  unfoldable pub collect_results : List (Result (Profiles M)) → Profiles M → Profiles M
  collect_results [] profiles = profiles
  collect_results (ok result ∷ more) profiles = collect_results more (update_all profiles result)
  collect_results (err raised ∷ more) profiles = collect_results more profiles

  abbrev merged_object : ProfileData M → Option (ProfileData M) → ProfileData M
  merged_object profile none = profile
  merged_object profile (some merged) = merged

  -- The merge stores each runtime profile itself among perf's, so what it changed is changed in both.
  unfoldable pub shared_profiles : Profiles M → Profiles M → Profiles M
  shared_profiles merged [] = []
  shared_profiles merged ((pid, profile) ∷ more) =
      let rest = shared_profiles merged more in
      if is_empty profile.stacks
      then (pid, profile) ∷ rest
      else (pid, merged_object profile (fetch eqb pid merged)) ∷ rest

module _ {M J : Type 0} (dicts : Dictionaries M) (dumps : Header M J → String)
    (options : EnrichmentOptions) (external : ℕ → Option M) where
  -- Without a system profiler its result is empty and there is nothing to merge with.
  abbrev pub merge_or_not : Bool → (ℕ → String → ℕ) → Profiles M → Profiles M → Result (Profiles M)
  merge_or_not true draws system_result process_profiles = ok process_profiles
  merge_or_not false draws system_result process_profiles =
      merge_loop draws system_result process_profiles

  -- What the first text, for the flamegraph, leaves: perf's and the other profiles, and the client.
  abbrev pub first_text :
      Bool
      → Bool
      → Surroundings J
      → (ℕ → String → ℕ)
      → Option ContainerNamesClient
      → Profiles M
      → Profiles M
      → Result ((Profiles M × Profiles M) × Option ContainerNamesClient)
  first_text false is_noop surroundings draws client system_result process_profiles =
      ok ((system_result, process_profiles), client)
  first_text true is_noop surroundings draws client system_result process_profiles =
      merge_or_not is_noop draws system_result process_profiles >>= λ merged. ok (
        (if is_noop
            then (system_result, process_profiles)
            else (merged, shared_profiles merged process_profiles)),
        (concatenate_profiles dicts dumps options surroundings external client merged).1,
      )

  -- The profile's text and the client, from the results of the system profiler and the others.
  unfoldable pub snapshot_text :
      Bool
      → Bool
      → Surroundings J
      → (ℕ → String → ℕ)
      → (ℕ → String → ℕ)
      → Option ContainerNamesClient
      → Profiles M
      → Profiles M
      → Result (String × Option ContainerNamesClient)
  snapshot_text flamegraph is_noop surroundings first_draws draws client system_result
        process_profiles =
      first_text flamegraph is_noop surroundings first_draws client system_result process_profiles
      >>= λ before.
          if is_noop && not (is_empty system_result)
          then err Exn.assertion_error
          else (merge_or_not is_noop draws (before.0.0) (before.0.1) >>= λ merged.
              ok (concatenate_profiles dicts dumps options surroundings external (before.1) merged))
