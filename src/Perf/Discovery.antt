-- ===== src/Perf/Discovery.antt =====
-- `SupportedPerfEvent` and `discover_appropriate_perf_event` of gprofiler/utils/perf.py.
-- The counts that only choose a log message are left out.
pub mod First
use gprofiler.Prelude.{
  ℕ, zero, suc, String, Bool, true, false, Option, none, some, List, [], ◌∷◌, ◌++◌,
}
use gprofiler.Prelude.Tests.{if◌then◌else◌, ltb}
use gprofiler.Prelude.Result.{Exn, Result, ok, err, perf_no_supported_event}
use gprofiler.Perf.Process.{Settings, PerfProcess, Launch, made, start, stop}

pub data SupportedPerfEvent : Type 0 where
  perf_default perf_sw_cpu_clock perf_sw_task_clock : SupportedPerfEvent

-- The members in the order of the class.
abbrev pub supported_perf_events : List SupportedPerfEvent
supported_perf_events = perf_default ∷ perf_sw_cpu_clock ∷ perf_sw_task_clock ∷ []

unfoldable pub perf_extra_args : SupportedPerfEvent → List String
perf_extra_args perf_default = []
perf_extra_args perf_sw_cpu_clock = "-e" ∷ "cpu-clock" ∷ []
perf_extra_args perf_sw_task_clock = "-e" ∷ "task-clock" ∷ []

-- How the trial of an event goes outside: the start of perf, and how many samples are parsed from its output.
pub record Trial : Type 0 where
  pub launch : Launch
  pub samples : Result ℕ

-- A process for the whole system, whatever is to be profiled later.
abbrev pub discovery_settings : String → ℕ → SupportedPerfEvent → Settings
discovery_settings output_path max_cgroups event = record {
  frequency = 11;
  output_path = output_path;
  is_dwarf = false;
  inject_jit = false;
  extra_args = perf_extra_args event ++ ("--" ∷ "sleep" ∷ "0.5" ∷ []);
  processes_to_profile = none;
  switch_timeout_s = 15;
  use_cgroups = false;
  max_cgroups = max_cgroups;
  max_docker_containers = 0;
  perf_events = [];
}

abbrev has_samples : Option Exn → Result ℕ → Bool
has_samples none (ok n) = ltb 0 n
has_samples raised samples = false

-- The body of the `try` with its `finally`: were there samples, and which processes still run after the stop?
unfoldable pub try_event : Trial → PerfProcess → Bool × List ℕ
try_event t p =
    let (p', raised) = start t.launch p in (has_samples raised t.samples, (stop p').live)

module _ (output_path : String) (max_cgroups : ℕ) (trial : SupportedPerfEvent → Trial) where
  abbrev pub trial_of : SupportedPerfEvent → Bool × List ℕ
  trial_of event =
      try_event (trial event)
        (made (discovery_settings output_path max_cgroups event) ("-a" ∷ []) [])

  -- The event that is used, and the processes that were left running.
  unfoldable pub discover_loop : List SupportedPerfEvent → Result SupportedPerfEvent × List ℕ
  discover_loop [] = (err perf_no_supported_event, [])
  discover_loop (e ∷ es) =
      let (worked, left) = trial_of e in
      let (event, more) = discover_loop es in if worked then (ok e, left) else (event, left ++ more)

  unfoldable pub discover_appropriate_perf_event : Result SupportedPerfEvent × List ℕ
  discover_appropriate_perf_event = discover_loop supported_perf_events
