-- ===== src/Samples/Tests.antt =====
-- Runs of the models of gprofiler/merge.py, gprofiler/utils/collapsed_format.py,
-- gprofiler/gprofiler_types.py and gprofiler/containers_client.py.
use Prim.Native.String.{◌++◌ as ◌⧺◌}
use gprofiler.Prelude.{
  ℕ, ◌+◌, ◌≤◌, String, ◌≡◌, refl, true, false, Option, none, some, [], ◌∷◌, arith, ◌==◌,
}
use gprofiler.Prelude.Tests.{if◌then◌else◌, ltb, eqb}
use gprofiler.Prelude.Lists.{length, contains, IsDistinct}
use gprofiler.Prelude.Python.{StrMethods}
use gprofiler.Prelude.Integers.{ℤ}
use gprofiler.Prelude.Result.{Exn, ok, err}
use gprofiler.Prelude.Mapping.{fetch, store}
use gprofiler.Samples.Splits.{split_first}
use gprofiler.Samples.Counters.{Counter, keys, total}
use gprofiler.Samples.Collapsed.{parse_one_collapsed}
use gprofiler.Samples.Collapsed.Accounting.{sample_total, skipped_lines, parse_one_collapsed-total}
use gprofiler.Samples.Collapsed.Printed.{IsPrintable, parse_one_collapsed-print}
use gprofiler.Samples.ErrorStacks.{is_error_stack, matches_error, attach_error_to_stacks}
use gprofiler.Samples.ErrorStacks.Attached.{annotated, all_split, attach_error_to_stacks-lem}
use gprofiler.Samples.Metadata.{EnrichmentOptions, ProfileData, Dictionaries}
use gprofiler.Samples.Scaling.{scale_sample_counts, scale_loop, scaled_value, rounds_up}
use gprofiler.Prelude.Dict.{insert}
use gprofiler.Samples.Merge.{
  Profiles, perf_samples, merged_stacks, merged_container, merge_profile, merge_loop,
}
use gprofiler.Samples.Merge.Totals.{merged_for, merge_profile-total, merge_loop-merged_for}
use gprofiler.Samples.ContainerNames.{
  Runtimes, ContainerNamesClient, reset_cache, client_container_name,
}
use gprofiler.Samples.ContainerNames.Listed.{is_listed, IsListed, client_container_name-IsListed}

abbrev profile_of : Counter → ProfileData String
profile_of stacks = record {
  stacks = stacks;
  appid = some "app";
  app_metadata = some "python";
  container_name = some "web";
}

abbrev own : ProfileData String
own = profile_of (("a;x", 1) ∷ ("a;y", 1) ∷ [])

abbrev sampled : ProfileData String
sampled = profile_of (("a;b", 5) ∷ [])

abbrev no_draw : String → ℕ
no_draw stack = 0

merge_profile-total_example :
    (merged : ProfileData String) × (merge_profile no_draw (some sampled) own ≡ ok merged)
    × (if ltb 0 (perf_samples (some sampled))
        then (total merged.stacks ≤ perf_samples (some sampled) + length own.stacks)
          × (perf_samples (some sampled) ≤ total merged.stacks + length own.stacks)
        else (merged.stacks ≡ own.stacks))
unfolding total is_error_stack contains
merge_profile-total_example =
    merge_profile-total no_draw (some sampled) own (refl, (refl, tt)) (omega arith) refl

abbrev perf_profiles : Profiles String
perf_profiles = (1, sampled) ∷ (2, sampled) ∷ []

abbrev merged_profiles : Profiles String
merged_profiles = (1, profile_of (("a;x", 3) ∷ ("a;y", 3) ∷ [])) ∷ (2, sampled) ∷ []

merge_loop-merged_for_example :
    merged_for (λ pid. no_draw) 1 perf_profiles ((1, own) ∷ []) ≡ ok (fetch eqb 1 merged_profiles)
unfolding merge_loop merge_profile merged_stacks merged_container scale_sample_counts scale_loop
    scaled_value rounds_up total is_error_stack insert store fetch
merge_loop-merged_for_example =
    merge_loop-merged_for (λ pid. no_draw) perf_profiles ((1, own) ∷ []) merged_profiles 1
      (refl, tt) refl

abbrev error_text : String
error_text = "a;[Profiling error: gone]"

attach_error_to_stacks-lem_example :
    let source : Counter = ("a;b", 5) ∷ ("c;d;e", 2) ∷ [] in
    (attach_error_to_stacks source ((error_text, 1) ∷ [])
      ≡ ok (annotated "[Profiling error: gone]" source))
    × IsDistinct (keys (annotated "[Profiling error: gone]" source))
    × (total (annotated "[Profiling error: gone]" source) ≡ total source)
unfolding split_first contains all_split
attach_error_to_stacks-lem_example =
    attach_error_to_stacks-lem (("a;b", 5) ∷ ("c;d;e", 2) ∷ []) error_text "a"
      "[Profiling error: gone]" 1 (refl, (refl, tt)) refl

-- Texts of which the lines are known.
abbrev one_line : String → StrMethods
one_line line = record {
  splitlines = λ text. line ∷ [];
  strip = λ text. text;
  split = λ text. text ∷ [];
  lower = λ text. text;
}

-- An int() that reads one number.
abbrev two_only : String → Option ℤ
two_only text = if text == "2" then some (ℤ.pos 2) else none

parse_one_collapsed-total_example :
    let result = parse_one_collapsed (one_line "main;run 2") two_only "main;run 2" (some "java") in
    (total result.stacks ≡ sample_total (one_line "main;run 2") two_only ("main;run 2" ∷ []))
    × (result.total_lines ≡ 1)
    × (result.parsed_lines
          + length result.bad_lines
          + skipped_lines (one_line "main;run 2") two_only ("main;run 2" ∷ [])
        ≡ result.total_lines)
parse_one_collapsed-total_example =
    parse_one_collapsed-total (one_line "main;run 2") two_only (some "java") "main;run 2"

parse_one_collapsed-print_example :
    (parse_one_collapsed (one_line "main;run 2") two_only "text" none).stacks ≡ ("main;run", 2) ∷ []
unfolding IsPrintable contains
parse_one_collapsed-print_example =
    parse_one_collapsed-print (one_line "main;run 2") two_only refl (("main;run", 2) ∷ []) "text"
      (refl, tt) ((refl, refl, refl, refl), tt) refl

abbrev by_text : Dictionaries String
by_text = record { same = λ a b. a == b; update = λ own outer. outer }

abbrev all_on : EnrichmentOptions
all_on = record {
  profile_api_version = none;
  container_names = true;
  application_identifiers = true;
  application_metadata = true;
}

abbrev no_external : ℕ → Option String
no_external pid = none

abbrev docker : Runtimes
docker = record {
  list_containers = ok (("id", "web") ∷ []);
  process_container_id = λ pid. ok (some "id");
}

abbrev gone : Runtimes
gone = record {
  list_containers = err Exn.other_error;
  process_container_id = λ pid. err Exn.other_error;
}

abbrev fresh_client : ContainerNamesClient
fresh_client = record {
  has_runtimes = true;
  pid_to_container_name = [];
  current_container_names = [];
  container_id_to_name = [];
}

client_container_name-IsListed_example :
    let (name, c') = client_container_name docker 7 fresh_client in
    IsListed c'
    × (is_listed name c'.current_container_names ≡ true)
    × IsListed (reset_cache c')
    × (client_container_name gone 7 c' ≡ (name, c'))
unfolding IsListed
client_container_name-IsListed_example =
    client_container_name-IsListed docker gone 7 fresh_client (tt, tt)

-- Tests of the readers of text and of numbers.
error_pattern : is_error_stack ((error_text, 1) ∷ []) ≡ true
unfolding is_error_stack matches_error
error_pattern = refl

no_error_pattern : is_error_stack (("a;b", 1) ∷ []) ≡ false
unfolding is_error_stack matches_error
no_error_pattern = refl
