-- ===== src/Profilers/Base/Tests.antt =====
-- Runs of the model of gprofiler/profilers/profiler_base.py.
use gprofiler.Prelude.{
  ℕ, ◌+◌, ◌*◌, ◌≤◌, String, ◌≡◌, refl, Bool, true, false, none, some, List, [], ◌∷◌,
}
use gprofiler.Prelude.Tests.{if◌then◌else◌, eqb}
use gprofiler.Prelude.Lists.{length}
use gprofiler.Prelude.Mapping.{fetch}
use gprofiler.Samples.Metadata.{ProfileData}
use gprofiler.Profilers.Base.{Process, Outcome, Future, wait_for_profiles, get_top_processes_by_cpu}
use gprofiler.Profilers.Base.Selection.{count_if, Above, get_top_processes_by_cpu-Above}
use gprofiler.Profilers.Base.Results.{last_profile, wait_for_profiles-last_profile}
use gprofiler.Samples.ErrorStacks.{matches_error}
use gprofiler.Samples.Merge.{Profiles}
use gprofiler.Prelude.Result.{ok}
use gprofiler.Profilers.Base.Spawning.{
  State, Look, Event, step, run, proc_exec_callback, check_process,
}
use gprofiler.Profilers.Base.Spawning.Backoff.{all_left, IsWaiting, fires, executions, run-fires}
use gprofiler.Profilers.Base.Spawning.Apart.{IsApart, run-IsApart}

abbrev busy : ℕ → ℕ → Process
busy pid percent = record { pid = pid; comm = some "app"; cpu_percent = some percent }

abbrev three : List Process
three = busy 1 10 ∷ busy 2 30 ∷ busy 3 20 ∷ []

get_top_processes_by_cpu-Above_example :
    let top = get_top_processes_by_cpu three 2 in
    (if eqb 2 0 then (top ≡ three) else (length top ≤ 2))
    × ((dropped : List Process) × ((test : Process → Bool)
          → count_if test top + count_if test dropped ≡ count_if test three)
        × Above top dropped)
get_top_processes_by_cpu-Above_example = get_top_processes_by_cpu-Above three 2

abbrev sampled : ProfileData String
sampled = record {
  stacks = ("a;b", 5) ∷ [];
  appid = none;
  app_metadata = none;
  container_name = none;
}

abbrev some_futures : List (Future String)
some_futures =
    record { future_pid = 1; future_comm = "a"; outcome = Outcome.returned sampled }
    ∷ record { future_pid = 2; future_comm = "b"; outcome = Outcome.raised "OSError" }
    ∷ record { future_pid = 3; future_comm = "c"; outcome = Outcome.went_down }
    ∷ []

wait_for_profiles-last_profile_example :
    (results : Profiles String) × (wait_for_profiles some_futures [] ≡ ok results)
    × ((pid : ℕ)
        → fetch eqb pid results
          ≡ last_profile pid some_futures (fetch {V = ProfileData String} eqb pid []))
unfolding matches_error
wait_for_profiles-last_profile_example =
    wait_for_profiles-last_profile some_futures [] (tt, (refl, (refl, tt)))

abbrev watching : State
watching = record {
  is_profiling_spawning = true;
  preexisting_pids = 4 ∷ [];
  futures = [];
  queue = [];
}

abbrev found : Bool → Look
found wanted = record {
  is_running = true;
  is_own_child = false;
  should_profile = wanted;
  has_time_left = true;
  comm = some "new";
}

-- Two processes start; one is looked at twice and then profiled, the other was there before.
abbrev events : List Event
events =
    Event.executed 5 true
    ∷ Event.fired 0 (some (found false))
    ∷ Event.fired 0 (some (found true))
    ∷ Event.executed 4 true
    ∷ Event.fired 0 (some (found true))
    ∷ []

abbrev watched : State
watched = record {
  is_profiling_spawning = true;
  preexisting_pids = 4 ∷ [];
  futures = (5, "new") ∷ [];
  queue = [];
}

run-fires_example :
    (fires events + all_left watched.queue ≤ all_left watching.queue + 4 * executions events)
    × IsWaiting watched.queue
unfolding run step proc_exec_callback check_process
run-fires_example = run-fires events watching watched tt refl

run-IsApart_example : (watched.preexisting_pids ≡ watching.preexisting_pids) × IsApart watched
unfolding run step proc_exec_callback check_process IsApart
run-IsApart_example = run-IsApart events watching watched tt refl
