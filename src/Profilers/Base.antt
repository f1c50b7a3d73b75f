-- ===== src/Profilers/Base.antt =====
-- `ProfilerBase` and `ProcessProfilerBase` of gprofiler/profilers/profiler_base.py: which processes a
-- profiler selects, and the profile of each. The profiling of a process is a parameter.
pub mod Selection
pub mod Results
pub mod Spawning
pub mod Tests
use Prim.Native.String.{◌++◌ as ◌⧺◌}
use gprofiler.Prelude.{
  ℕ, suc, ◌≡◌, String, Bool, true, false, ◌&&◌, ◌||◌, Option, none, some, List, [], ◌∷◌, ◌++◌, map,
}
use gprofiler.Prelude.Tests.{if◌then◌else◌, leb, ltb, eqb}
use gprofiler.Prelude.Lists.{length, take, is_empty}
use gprofiler.Prelude.Result.{Exn, Result, ok, err, ◌>>=◌}
use gprofiler.Prelude.Mapping.{store}
use gprofiler.Samples.ErrorStacks.{profiling_error_stack}
use gprofiler.Samples.Metadata.{ProfileData}
use gprofiler.Samples.Merge.{Profiles}
use gprofiler.Utils.Dicts.{limit_frequency}

-- A psutil process: its name, none once it is gone, and its use of the CPU, which a process that is gone
-- or hidden does not tell.
pub record Process : Type 0 where
  pub pid : ℕ
  pub comm : Option String
  pub cpu_percent : Option ℕ

pub record ProfilerBase : Type 0 where
  pub frequency : ℕ
  pub duration : ℕ
  pub min_duration : ℕ

abbrev is_too_short : Option ℕ → ℕ → Bool
is_too_short none duration = false
is_too_short (some least) duration = ltb duration least

-- ProfilerBase.__init__, for the class's MAX_FREQUENCY and MIN_DURATION
unfoldable pub new_profiler : Option ℕ → Option ℕ → String → ℕ → ℕ → ℕ → Result ProfilerBase
new_profiler max_frequency least profiling_mode frequency duration min_duration =
    if is_too_short least duration
    then err Exn.value_error
    else ok (record {
      frequency = limit_frequency max_frequency frequency profiling_mode;
      duration = duration;
      min_duration = min_duration;
    })

-- The age in seconds, or none if create_time() raises another error than for a process that is gone.
unfoldable pub estimate_process_duration : ProfilerBase → Option ℕ → ℕ
estimate_process_duration p none = p.duration
estimate_process_duration p (some age) = if ltb age 5 then p.min_duration else p.duration

abbrev pub cpu_of : Process → ℕ
cpu_of p = or_idle p.cpu_percent
  where
    or_idle : Option ℕ → ℕ
    or_idle none = 0
    or_idle (some percent) = percent

-- sort(key=cpu, reverse=True), which keeps the order of equal elements
abbrev pub insert_by_cpu : Process → List Process → List Process
insert_by_cpu p [] = p ∷ []
insert_by_cpu p (q ∷ qs) =
    let rest = insert_by_cpu p qs in if leb (cpu_of q) (cpu_of p) then p ∷ q ∷ qs else q ∷ rest

unfoldable pub sort_by_cpu : List Process → List Process
sort_by_cpu [] = []
sort_by_cpu (p ∷ ps) = insert_by_cpu p (sort_by_cpu ps)

-- A maximum of 0 is none.
unfoldable pub get_top_processes_by_cpu : List Process → ℕ → List Process
get_top_processes_by_cpu processes max_processes =
    if eqb max_processes 0 || leb (length processes) max_processes
    then processes
    else take max_processes (sort_by_cpu processes)

abbrev pub has_pid : ℕ → List Process → Bool
has_pid n [] = false
has_pid n (p ∷ ps) = eqb p.pid n || has_pid n ps

-- [process for process in processes_to_profile if process in those]
unfoldable pub keep_asked : Option (List Process) → List Process → List Process
keep_asked none ps = ps
keep_asked (some those) [] = []
keep_asked (some those) (p ∷ ps) =
    let rest = keep_asked (some those) ps in if has_pid p.pid those then p ∷ rest else rest

-- The processes that are profiled: those asked for, at most a number of them.
unfoldable pub selected_processes : Bool → ℕ → Option (List Process) → List Process → List Process
selected_processes should_limit max_processes asked processes =
    if should_limit
    then get_top_processes_by_cpu (keep_asked asked processes) max_processes
    else keep_asked asked processes

-- How the profiling of a process ends: it returns a profile, or raises.
pub data Outcome (M : Type 0) : Type 0 where
  returned : ProfileData M → Outcome M
  stop_event went_down : Outcome M
  raised : String → Outcome M

-- A future with the process id and name it stands for.
pub record Future (M : Type 0) : Type 0 where
  pub future_pid : ℕ
  pub future_comm : String
  pub outcome : Outcome M

module _ {M : Type 0} where
  abbrev error_profile : String → String → Result (ProfileData M)
  error_profile reason comm = profiling_error_stack "error" reason comm >>= λ stacks.
      ok (record { stacks = stacks; appid = none; app_metadata = none; container_name = none })

  -- One future's result, the errors of a process turned into an error stack.
  unfoldable pub future_profile : String → Outcome M → Result (ProfileData M)
  future_profile comm (Outcome.returned profile) = ok profile
  future_profile comm Outcome.stop_event = err Exn.stop_event_set
  future_profile comm Outcome.went_down = error_profile "process went down during profiling" comm
  future_profile comm (Outcome.raised type_name) = error_profile ("exception " ⧺ type_name) comm

  -- The loop over the futures as they complete.
  unfoldable pub wait_for_profiles : List (Future M) → Profiles M → Result (Profiles M)
  wait_for_profiles [] results = ok results
  wait_for_profiles (f ∷ fs) results = future_profile f.future_comm f.outcome >>= λ result.
      wait_for_profiles fs (store eqb f.future_pid result results)

  abbrev submit_one : (ℕ → Outcome M) → ℕ → Option String → List (Future M) → List (Future M)
  submit_one profile pid none rest = rest
  submit_one profile pid (some comm) rest =
      record { future_pid = pid; future_comm = comm; outcome = profile pid } ∷ rest

  -- A future for each process that still has a name.
  unfoldable pub submit : (ℕ → Outcome M) → List Process → List (Future M)
  submit profile [] = []
  submit profile (p ∷ ps) = submit_one profile p.pid p.comm (submit profile ps)

  -- The futures complete in some order.
  unfoldable pub snapshot :
      (ℕ → Outcome M) → (List (Future M) → List (Future M)) → List Process → Result (Profiles M)
  snapshot profile completion selected =
      if is_empty selected
      then ok []
      else wait_for_profiles (completion (submit profile selected)) []
