-- ===== src/Perf/Tests.antt =====
-- Runs of the hardware events, the cgroups and the perf process.
use gprofiler.Prelude.{◌≤◌, String, ◌≡◌, refl, ◌⊎◌, true, false, none, some, List, [], ◌∷◌}
use gprofiler.Prelude.Lists.{length, contains, All}
use gprofiler.Prelude.Python.{StrMethods}
use gprofiler.Prelude.Result.{Result, ok, err, other_error, timeout_expired, stop_event_set}
use gprofiler.Perf.Events.{
  validate_and_normalize_events, exited, raised, pmu_event_aliases, is_supported,
}
use gprofiler.Perf.Events.Validation.{validate-contains}
use gprofiler.Perf.PmuManager.{Host}
use gprofiler.Perf.Cgroups.{System}
use gprofiler.Perf.Cgroups.Usage.{CgroupResourceUsage}
use gprofiler.Perf.Cgroups.Top.{get_top_cgroup_names_for_perf}
use gprofiler.Perf.Cgroups.Bounds.{names-IsUsable}
use gprofiler.Perf.Cgroups.Containers.{IsUsable}
use gprofiler.Perf.Process.{Settings, PerfProcess, Launch, made, new_perf_process, restart}
use gprofiler.Perf.Discovery.{SupportedPerfEvent, perf_default, Trial}
use gprofiler.Perf.Process.Lifetime.{IsTracked, restart-IsTracked}

abbrev asked : List String
asked = "cpu-cycles" ∷ "bogus" ∷ "instructions" ∷ "cycles" ∷ []

validate-contains_example : contains "cycles" (validate_and_normalize_events asked) ≡ true
unfolding pmu_event_aliases is_supported contains
validate-contains_example = validate-contains "cpu-cycles" asked refl refl

-- One event to a line, which needs no stripping.
abbrev python : StrMethods
python = record {
  splitlines = λ text. text ∷ "instructions" ∷ [];
  strip = λ text. text;
  split = λ text. text ∷ [];
  lower = λ text. text;
}

abbrev host : Host
host = record { resource_perf = ok "/opt/perf"; perf_list = λ path. exited 0 "cpu-cycles" }

abbrev later : Host
later = record { resource_perf = err other_error; perf_list = λ path. raised timeout_expired }

-- A host with one cgroup of each controller and one container.
abbrev system : System
system = record {
  exists = λ path. true;
  is_dir = λ path. true;
  read = λ path. some "5";
  read_lines = λ path. none;
  listdir = λ path. none;
  walk = λ base. base ∷ "/sys/fs/cgroup/memory/web" ∷ [];
  glob = λ pattern. ok [];
  set_order = λ paths. paths;
  run = λ command. ok (record { returncode = 0; stdout = "-G" });
  strip = λ text. text;
  lower = λ text. text;
  words = λ text. text ∷ [];
  split_on = λ mark text. text ∷ text ∷ [];
  parse_int = λ text. some 5;
  parse_percent = λ text. some 1200;
}

abbrev names_or : Result (List String) → List String
names_or (ok names) = names
names_or (err e) = []

abbrev found : List String
found = names_or (get_top_cgroup_names_for_perf system 5 0)

names_found : get_top_cgroup_names_for_perf system 5 0 ≡ ok found
unfolding get_top_cgroup_names_for_perf
names_found = refl

names-IsUsable_example : ((length found ≤ 5) ⊎ (length found ≤ 1)) × All (IsUsable system) found
names-IsUsable_example = names-IsUsable system 5 0 found names_found

abbrev web : CgroupResourceUsage
web = record {
  cgroup_path = "/sys/fs/cgroup/memory/web";
  name = "web";
  cpu_usage = 5;
  memory_usage = 5;
}

abbrev settings : Settings
settings = record {
  frequency = 11;
  output_path = "/tmp/perf";
  is_dwarf = false;
  inject_jit = false;
  extra_args = [];
  processes_to_profile = none;
  switch_timeout_s = 15;
  use_cgroups = true;
  max_cgroups = 5;
  max_docker_containers = 0;
  perf_events = [];
}

abbrev nowhere : System
nowhere = record system { exists = λ path. false; read = λ path. none }

abbrev process_or : PerfProcess → Result PerfProcess → PerfProcess
process_or p (ok q) = q
process_or p (err e) = p

abbrev fresh : PerfProcess
fresh = made settings ("-a" ∷ []) []

abbrev on_cgroups : PerfProcess
on_cgroups = process_or fresh (new_perf_process system settings)

abbrev launched : Launch
launched = record { spawned = ok 4; waited = ok true; clock = 1000 }

abbrev interrupted : Launch
interrupted = record { spawned = ok 5; waited = err stop_event_set; clock = 1000 }

restart-IsTracked_example : IsTracked (restart launched fresh).0
restart-IsTracked_example = restart-IsTracked launched fresh refl refl

-- The default event gives no samples, the CPU clock does.
abbrev trial : SupportedPerfEvent → Trial
trial perf_default = record { launch = launched; samples = ok 0 }
trial event = record { launch = launched; samples = ok 3 }
