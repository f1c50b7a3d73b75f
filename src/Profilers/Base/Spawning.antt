-- ===== src/Profilers/Base/Spawning.antt =====
-- `SpawningProcessProfilerBase` of gprofiler/profilers/profiler_base.py: processes that start while a
-- profiler runs. Intervals are in tenths of a second. The submit lock makes a check and a stop steps.
pub mod Backoff
pub mod Apart
use gprofiler.Prelude.{
  ℕ, suc, ◌+◌, ◌*◌, String, Bool, true, false, not, ◌&&◌, ◌||◌, Option, none, some, List, [], ◌∷◌,
  ◌++◌, map,
}
use gprofiler.Prelude.Tests.{if◌then◌else◌, ltb, eqb}

abbrev pub backoff_init : ℕ
backoff_init = 1

abbrev pub backoff_max : ℕ
backoff_max = 8

-- _threads is there while spawned processes are profiled.
pub record State : Type 0 where
  pub is_profiling_spawning : Bool
  pub preexisting_pids : List ℕ
  pub futures : List (ℕ × String)
  pub queue : List (ℕ × ℕ)

-- What a check sees of the process, unless it is gone.
pub record Look : Type 0 where
  pub is_running : Bool
  pub is_own_child : Bool
  pub should_profile : Bool
  pub has_time_left : Bool
  pub comm : Option String

unfoldable pub start_profiling_spawning : List ℕ → State → State
start_profiling_spawning pids s = record s { is_profiling_spawning = true; preexisting_pids = pids }

-- _proc_exec_callback; a process that is gone already is not scheduled.
unfoldable pub proc_exec_callback : ℕ → Bool → State → State
proc_exec_callback pid exists s =
    if s.is_profiling_spawning && exists
    then record s { queue = s.queue ++ ((pid, backoff_init) ∷ []) }
    else s

abbrev pub member : ℕ → List ℕ → Bool
member n [] = false
member n (m ∷ ms) = eqb m n || member n ms

abbrev pub submit_named : ℕ → Option String → State → State
submit_named pid none s = s
submit_named pid (some comm) s = record s { futures = s.futures ++ ((pid, comm) ∷ []) }

-- With the lock, for a process that should be profiled.
abbrev pub submit_spawned : ℕ → Look → State → State
submit_spawned pid look s =
    if not (member pid s.preexisting_pids) && look.has_time_left
    then submit_named pid look.comm s
    else s

abbrev pub look_again : ℕ → ℕ → State → State
look_again pid interval s =
    if ltb interval backoff_max
    then record s { queue = s.queue ++ ((pid, interval * 2) ∷ []) }
    else s

abbrev pub check_seen : ℕ → ℕ → Option Look → State → State
check_seen pid interval none s = s
check_seen pid interval (some look) s =
    if not s.is_profiling_spawning || (not look.is_running || look.is_own_child)
    then s
    else if look.should_profile
    then submit_spawned pid look s
    else look_again pid interval s

-- _check_process; `none` is NoSuchProcess, which is suppressed.
unfoldable pub check_process : ℕ → ℕ → Option Look → State → State
check_process pid interval look s = check_seen pid interval look s

unfoldable pub stop_profiling_spawning : State → State
stop_profiling_spawning s = record s { is_profiling_spawning = false; preexisting_pids = [] }

unfoldable pub clear_sched : State → State
clear_sched s = record s { queue = [] }

abbrev pub behind_first : ℕ × ℕ → Option ((ℕ × ℕ) × List (ℕ × ℕ)) → Option ((ℕ × ℕ) × List (ℕ × ℕ))
behind_first e none = none
behind_first e (some (taken, rest)) = some (taken, e ∷ rest)

-- The scheduler takes the n-th entry that waits and checks it.
abbrev pub take_nth : ℕ → List (ℕ × ℕ) → Option ((ℕ × ℕ) × List (ℕ × ℕ))
take_nth n [] = none
take_nth ℕ.zero (e ∷ es) = some (e, es)
take_nth (suc n) (e ∷ es) = behind_first e (take_nth n es)

-- What happens while the profiler runs: a process executes a program, or a timer fires.
pub data Event : Type 0 where
  executed : ℕ → Bool → Event
  fired : ℕ → Option Look → Event

abbrev pub check_taken : Option Look → Option ((ℕ × ℕ) × List (ℕ × ℕ)) → State → Option State
check_taken look none s = none
check_taken look (some ((pid, interval), rest)) s =
    some (check_process pid interval look (record s { queue = rest }))

-- An event that cannot happen, a timer where none waits, is none.
unfoldable pub step : Event → State → Option State
step (Event.executed pid exists) s = some (proc_exec_callback pid exists s)
step (Event.fired n look) s = check_taken look (take_nth n s.queue) s

abbrev pub run_rest : (State → Option State) → Option State → Option State
run_rest rest none = none
run_rest rest (some s) = rest s

unfoldable pub run : List Event → State → Option State
run [] s = some s
run (e ∷ es) s = run_rest (run es) (step e s)
