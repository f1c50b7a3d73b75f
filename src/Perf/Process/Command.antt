-- ===== src/Perf/Process/Command.antt =====
-- The command line of `perf record` for cgroups, gprofiler/utils/perf_process.py.
use Prim.Native.String.{String, [] as none_left, ◌∷◌ as ◌⋮◌, ◌++◌ as ◌<>◌}
use Prim.Native.String.append.{nil as append_nil, cons as append_cons}
use gprofiler.Prelude.{ℕ, ◌+◌, ◌≡◌, refl, true, false, none, List, [], ◌∷◌}
use gprofiler.Prelude.Tests.{if◌then◌else◌}
use gprofiler.Prelude.Lists.{is_empty}
use gprofiler.Prelude.Result.{Result, ok}
use gprofiler.Perf.Numbers.{num_parts}
use gprofiler.Perf.Cgroups.{System, is_cgroup_available}
use gprofiler.Perf.Process.{Settings, made, new_perf_process, repeat_all, events_or_cycles}

-- How many names perf reads where these are joined by commas: a name without a comma is one.
unfoldable pub total_parts : List String → ℕ
total_parts [] = 0
total_parts (name ∷ names) = num_parts name + total_parts names

-- What comes after the cgroups' names in a command line: the events that are asked for or the default,
-- each one once for each name, unless the caller gives arguments of its own.
abbrev pub args_for : Settings → List String → List String
args_for s names =
    if is_empty s.extra_args
    then repeat_all (total_parts names) (events_or_cycles s.perf_events)
    else s.extra_args

-- Where cgroups are asked for and the host has none, and no processes are given, the constructor
-- returns a process for the whole system.
unavailable_cgroups_ignored :
    (sys : System) (s : Settings)
    → s.use_cgroups ≡ true
    → is_cgroup_available sys ≡ false
    → s.processes_to_profile ≡ none
    → new_perf_process sys s ≡ ok (made s ("-a" ∷ []) [])
unfolding new_perf_process
unavailable_cgroups_ignored sys s asked missing all = simp (asked, missing, all) refl
