-- ===== src/Perf/Process.antt =====
-- gprofiler/utils/perf_process.py: the `perf record` process, its command line and its restarts.
-- Popen objects are numbers; `live` holds those that this object started and that were not ended since.
pub mod Command
pub mod Lifetime
use Prim.Native.String.{◌++◌ as ◌<>◌}
use gprofiler.Prelude.{
  ℕ, zero, suc, ◌-◌, ◌*◌, String, Bool, true, false, not, ◌&&◌, Option, none, some, List, [], ◌∷◌,
  ◌++◌, map, ◌==◌,
}
use gprofiler.Prelude.Tests.{if◌then◌else◌, leb, eqb, is_some}
use gprofiler.Prelude.Lists.{is_empty}
use gprofiler.Prelude.Result.{
  Exn, Result, ok, err, timeout_error, assertion_error, perf_no_supported_event, ◌>>=◌,
}
use gprofiler.Perf.Numbers.{show, join_commas, num_parts}
use gprofiler.Perf.Cgroups.{System, is_cgroup_available}
use gprofiler.Perf.Cgroups.Top.{get_top_cgroup_names_for_perf, validate_perf_cgroup_support}

-- The constructor's arguments; a process is its pid.
pub record Settings : Type 0 where
  pub frequency : ℕ
  pub output_path : String
  pub is_dwarf : Bool
  pub inject_jit : Bool
  pub extra_args : List String
  pub processes_to_profile : Option (List ℕ)
  pub switch_timeout_s : ℕ
  pub use_cgroups : Bool
  pub max_cgroups : ℕ
  pub max_docker_containers : ℕ
  pub perf_events : List String

pub record PerfProcess : Type 0 where
  pub settings : Settings
  pub events : List String
  pub pid_args : List String
  pub cgroup_args : List String
  pub start_time_ : ℕ
  pub start_time : Option ℕ
  pub process : Option ℕ
  pub live : List ℕ

abbrev pub restart_after_s : ℕ
restart_after_s = 600

abbrev pub perf_memory_usage_threshold : ℕ
perf_memory_usage_threshold = 200 * 1024 * 1024

abbrev mmap_size : Bool → ℕ
mmap_size true = 257
mmap_size false = 129

-- perf_events if perf_events else ["cycles"]
abbrev pub events_or_cycles : List String → List String
events_or_cycles [] = "cycles" ∷ []
events_or_cycles (e ∷ es) = e ∷ es

abbrev pub made : Settings → List String → List String → PerfProcess
made s pid_args cgroup_args = record {
  settings = s;
  events = events_or_cycles s.perf_events;
  pid_args = pid_args;
  cgroup_args = cgroup_args;
  start_time_ = 0;
  start_time = none;
  process = none;
  live = [];
}

-- Any failure to find a cgroup is PerfNoSupportedEvent: there is no fallback to the whole system.
abbrev pub with_cgroups : Settings → Result (List String) → Result PerfProcess
with_cgroups s (ok (c ∷ cs)) = ok (made s ("-a" ∷ []) ("-G" ∷ join_commas (c ∷ cs) ∷ []))
with_cgroups s found = err perf_no_supported_event

abbrev pub without_cgroups : Settings → Option (List ℕ) → PerfProcess
without_cgroups s none = made s ("-a" ∷ []) []
without_cgroups s (some pids) = made s ("--pid" ∷ join_commas (map show pids) ∷ []) []

-- `use_cgroups and is_cgroup_available() and validate_perf_cgroup_support()`
abbrev pub cgroups_usable : System → Settings → Result Bool
cgroups_usable sys s =
    if s.use_cgroups && is_cgroup_available sys then validate_perf_cgroup_support sys else ok false

abbrev pub chosen : System → Settings → Bool → Result PerfProcess
chosen sys s true =
    with_cgroups s (get_top_cgroup_names_for_perf sys s.max_cgroups s.max_docker_containers)
chosen sys s false = ok (without_cgroups s s.processes_to_profile)

unfoldable pub new_perf_process : System → Settings → Result PerfProcess
new_perf_process sys s = do usable ← cgroups_usable sys s; chosen sys s usable

-- "-e" and the event, so many times, for each event
abbrev pub repeat : ℕ → String → List String
repeat zero event = []
repeat (suc n) event = "-e" ∷ event ∷ repeat n event

abbrev pub repeat_all : ℕ → List String → List String
repeat_all n [] = []
repeat_all n (e ∷ es) = repeat n e ++ repeat_all n es

-- The argument behind the first "-G" that has one behind it.
unfoldable pub cgroup_arg : List String → Option String
cgroup_arg [] = none
cgroup_arg (a ∷ []) = none
cgroup_arg (a ∷ b ∷ more) = if a == "-G" then some b else cgroup_arg (b ∷ more)

-- An empty argument counts as none.
abbrev pub events_for : Option String → List String → List String
events_for none events = repeat_all 1 events
events_for (some arg) events =
    if arg == "" then repeat_all 1 events else repeat_all (num_parts arg) events

unfoldable pub event_args : PerfProcess → List String
event_args p =
    if not (is_empty p.cgroup_args) && is_empty p.settings.extra_args
    then events_for (cgroup_arg p.cgroup_args) p.events
    else if is_empty p.settings.extra_args
    then repeat_all 1 p.events
    else p.settings.extra_args

-- `perf` is the path of the bundled perf.
unfoldable pub get_perf_cmd : String → PerfProcess → List String
get_perf_cmd perf p =
    (perf
      ∷ "record"
      ∷ "-F"
      ∷ show p.settings.frequency
      ∷ "-g"
      ∷ "-o"
      ∷ p.settings.output_path
      ∷ ("--switch-output=" <> show p.settings.switch_timeout_s <> "s,signal")
      ∷ "--switch-max-files=1"
      ∷ "-m"
      ∷ show (mmap_size p.settings.is_dwarf)
      ∷ p.pid_args)
    ++ (event_args p ++ (p.cgroup_args ++ (if p.settings.inject_jit then "-k" ∷ "1" ∷ [] else [])))

-- How one start went outside: the Popen or its error, what `wait_event` returns, and the clock after it.
pub record Launch : Type 0 where
  pub spawned : Result ℕ
  pub waited : Result Bool
  pub clock : ℕ

abbrev pub is_timeout : Exn → Bool
is_timeout timeout_error = true
is_timeout e = false

abbrev pub ended : ℕ → List ℕ → List ℕ
ended n [] = []
ended n (m ∷ ms) = let rest = ended n ms in if eqb m n then rest else m ∷ rest

-- The state after a call, and the exception that leaves it, if one does.
-- The clock goes to `start_time`; `start_time_` is the attribute `_start_time`. Only a TimeoutError kills the process.
abbrev pub after_wait : Launch → ℕ → Result Bool → PerfProcess → PerfProcess × Option Exn
after_wait l n (ok b) p =
    (record p { start_time = some l.clock; process = some n; live = n ∷ p.live }, none)
after_wait l n (err e) p = (if is_timeout e then p else record p { live = n ∷ p.live }, some e)

abbrev pub spawn : Launch → Result ℕ → PerfProcess → PerfProcess × Option Exn
spawn l (err e) p = (p, some e)
spawn l (ok n) p = after_wait l n l.waited p

unfoldable pub start : Launch → PerfProcess → PerfProcess × Option Exn
start l p = spawn l l.spawned p

abbrev pub stop_process : Option ℕ → PerfProcess → PerfProcess
stop_process none p = p
stop_process (some n) p = record p { process = none; live = ended n p.live }

unfoldable pub stop : PerfProcess → PerfProcess
stop p = stop_process p.process p

-- `exited` tells which of the processes were found dead by poll().
abbrev running : (ℕ → Bool) → Option ℕ → Bool
running exited none = false
running exited (some n) = not (exited n)

unfoldable pub is_running : (ℕ → Bool) → PerfProcess → Bool
is_running exited p = running exited p.process

unfoldable pub restart : Launch → PerfProcess → PerfProcess × Option Exn
restart l p = start l (stop p)

unfoldable pub restart_if_not_running : (ℕ → Bool) → Launch → PerfProcess → PerfProcess × Option Exn
restart_if_not_running exited l p = if is_running exited p then (p, none) else restart l p

-- `now` is the clock and `rss` the memory of the process.
abbrev rss_checked : Option ℕ → Bool → Launch → PerfProcess → PerfProcess × Option Exn
rss_checked none exceeded l p = (p, some assertion_error)
rss_checked (some n) true l p = restart l p
rss_checked (some n) false l p = (p, none)

unfoldable pub restart_if_rss_exceeded : ℕ → ℕ → Launch → PerfProcess → PerfProcess × Option Exn
restart_if_rss_exceeded now rss l p =
    rss_checked p.process
      (leb restart_after_s (now - p.start_time_) && leb perf_memory_usage_threshold rss) l p
