-- ===== src/Agent/Tests.antt =====
-- Runs of the models of gprofiler/main.py.
use Prim.Native.String.{◌++◌ as ◌⧺◌}
use gprofiler.Prelude.{ℕ, String, ◌≡◌, refl, true, false, Option, none, some, [], ◌∷◌, ◌==◌}
use gprofiler.Prelude.Result.{ok}
use gprofiler.Perf.Numbers.{show}
use gprofiler.Samples.Splits.{split_first, lacks}
use gprofiler.Samples.Metadata.{
  EnrichmentOptions, Dictionaries, ProfileData, with_appid, enrich_and_finalize_stack,
  enrich_pid_stacks, prefixed, enrich_profiles, register, get_container_name,
}
use gprofiler.Samples.Merge.{Profiles}
use gprofiler.Samples.ContainerNames.{ContainerNamesClient, reset_cache}
use gprofiler.Samples.Document.{
  Header, Surroundings, join_lines, make_profile_metadata, concatenate_profiles,
}
use gprofiler.Agent.Snapshot.{
  Profiler, Starting, skip_system_profilers, is_skipped, starts, start, snapshot_text,
}
use gprofiler.Agent.Starting.{keep_if, names, start-keep_if}
use gprofiler.Agent.Stripped.{strip_line, strip_line-enrich}
use gprofiler.Agent.Containers.{Lists, snapshot_text-Lists}

abbrev pyspy : Profiler
pyspy = record {
  name = "pyspy";
  is_system_profiler = false;
  skips_on_threshold = none;
  can_start = false;
}

abbrev ebpf : Profiler
ebpf = record {
  name = "ebpf";
  is_system_profiler = true;
  skips_on_threshold = none;
  can_start = true;
}

abbrev ruby : Profiler
ruby = record {
  name = "ruby";
  is_system_profiler = false;
  skips_on_threshold = none;
  can_start = true;
}

abbrev perf : Profiler
perf = record {
  name = "perf";
  is_system_profiler = true;
  skips_on_threshold = some (ok false);
  can_start = true;
}

start-keep_if_example :
    (s : Starting) × (start 2 (some 3) (pyspy ∷ ebpf ∷ ruby ∷ []) perf ≡ ok s)
    × (s.process_profilers ≡ ebpf ∷ ruby ∷ [])
    × (s.started ≡ "ruby" ∷ "perf" ∷ [])
unfolding skip_system_profilers keep_if names is_skipped starts
start-keep_if_example = start-keep_if 2 (some 3) (pyspy ∷ ebpf ∷ ruby ∷ []) perf

abbrev options : EnrichmentOptions
options = record {
  profile_api_version = none;
  container_names = true;
  application_identifiers = true;
  application_metadata = true;
}

abbrev dicts : Dictionaries String
dicts = record { same = λ a b. a == b; update = λ a b. b }

abbrev profile : ProfileData String
profile = record {
  stacks = ("main;f", 3) ∷ [];
  appid = some "app";
  app_metadata = some "python";
  container_name = some "web";
}

strip_line-enrich_example :
    let e = (enrich_pid_stacks dicts options profile (none ∷ []) none).0 in
    strip_line true (enrich_and_finalize_stack options e ("main;f", 3))
    ≡ with_appid "main;f" (prefixed (some "app")) ⧺ (" " ⧺ show 3)
unfolding lacks
strip_line-enrich_example =
    strip_line-enrich dicts options profile (none ∷ []) none "main;f" 3 refl refl

abbrev surroundings : Surroundings String
surroundings = record {
  metadata = "";
  profiling_mode = "cpu";
  metrics = "";
  hwmetrics = none;
  htmlblob = none;
  flamegraph_html = none;
}

abbrev dumps : Header String String → String
dumps header = join_lines header.containers

abbrev no_external : ℕ → Option String
no_external pid = none

abbrev client : ContainerNamesClient
client = record {
  has_runtimes = true;
  pid_to_container_name = (7, "web") ∷ [];
  current_container_names = "web" ∷ [];
  container_id_to_name = [];
}

abbrev no_draw : ℕ → String → ℕ
no_draw pid stack = 0

abbrev profiles : Profiles String
profiles = (7, profile) ∷ []

abbrev written : String × Option ContainerNamesClient
written = ("# \n1;web;main;appid: app;f 3", some (reset_cache client))

snapshot_text-Lists_example : Lists dicts dumps options no_external refl [] (written.0)
unfolding snapshot_text concatenate_profiles join_lines make_profile_metadata enrich_profiles
    reset_cache enrich_and_finalize_stack enrich_pid_stacks register get_container_name split_first
snapshot_text-Lists_example =
    snapshot_text-Lists dicts dumps options no_external refl true true surroundings no_draw no_draw
      client [] profiles written refl
