-- ===== src/Utils/Running.antt =====
-- `start_process` and `run_process` of gprofiler/utils/__init__.py. Round n of a run is the n-th wait of a
-- second for the process; times are seconds.
pub mod Outcomes
use Prim.Native.String.{◌++◌ as ◌⧺◌}
use gprofiler.Prelude.{
  ℕ, ◌+◌, String, Bool, true, false, not, ◌&&◌, Option, none, some, List, [], ◌∷◌, ◌++◌, ◌==◌,
}
use gprofiler.Prelude.Tests.{if◌then◌else◌, ltb, is_some}
use gprofiler.Prelude.Result.{Exn}
use gprofiler.Prelude.Integers.{ℤ, same_int}
use gprofiler.Prelude.Dict.{Dict, lookup, insert}
use gprofiler.Utils.Waiting.{rounds}

-- What the environment of gprofiler decides of a start.
pub record Host : Type 0 where
  pub is_linux : Bool
  pub pdeathsigger_path : String
  pub staticx_dir : Option String
  pub environ : Dict String

-- The command and the environment that Popen gets; no environment is that of gprofiler.
pub record Started : Type 0 where
  pub cmd : List String
  pub env : Option (Dict String)

abbrev pub or_environ : Dict String → Option (Dict String) → Dict String
or_environ environ none = environ
or_environ environ (some env) = env

abbrev pub inherit_tmpdir : Option String → Dict String → Dict String
inherit_tmpdir none env = env
inherit_tmpdir (some dir) env = insert "TMPDIR" dir env

-- TMPDIR is the given directory, or passed on where the environment lacks it.
abbrev pub with_tmpdir : Dict String → Option String → Dict String → Dict String
with_tmpdir environ (some tmpdir) base = insert "TMPDIR" tmpdir base
with_tmpdir environ none base =
    if is_some (lookup "TMPDIR" base) then base else inherit_tmpdir (lookup "TMPDIR" environ) base

-- The binary runs outside staticx's libraries.
abbrev pub outside_staticx : Dict String → Option String → Option (Dict String) → Dict String
outside_staticx environ tmpdir env =
    insert "LD_LIBRARY_PATH" "" (with_tmpdir environ tmpdir (or_environ environ env))

abbrev under_staticx :
    Host → Bool → Option String → Option String → List String → Option (Dict String) → Started
under_staticx host via_staticx tmpdir none cmd env = record { cmd = cmd; env = env }
under_staticx host true tmpdir (some dir) cmd env = record {
  cmd = (dir ⧺ "/.staticx.interp") ∷ "--library-path" ∷ dir ∷ cmd;
  env = env;
}
under_staticx host false tmpdir (some dir) cmd env = record {
  cmd = cmd;
  env = some (outside_staticx host.environ tmpdir env);
}

unfoldable pub start_process :
    Host → Bool → Bool → Option String → Option (Dict String) → List String → Started
start_process host via_staticx pdeathsigger tmpdir env cmd =
    under_staticx host via_staticx tmpdir host.staticx_dir
      (if pdeathsigger && host.is_linux then host.pdeathsigger_path ∷ cmd else cmd) env

-- What communicate(timeout=1) does.
pub data Communicated : Type 0 where
  exited still : Communicated
  raises : Exn → Communicated

pub record RunRound : Type 0 where
  pub communicated : Communicated
  pub stop_set : Bool
  pub clock : ℕ

-- Why the wait for the process is over; in all but the first case it is killed and reaped.
pub data Ending : Type 0 where
  by_itself by_timeout : Ending
  by_exception : Exn → Ending

abbrev is_past : Option ℕ → ℕ → Bool
is_past none clock = false
is_past (some end_time) clock = ltb end_time clock

abbrev pub run_round_of : Communicated → Option ℕ → RunRound → Option Ending
run_round_of Communicated.exited end_time r = some Ending.by_itself
run_round_of (Communicated.raises e) end_time r = some (Ending.by_exception e)
run_round_of Communicated.still end_time r =
    if r.stop_set
    then some (Ending.by_exception Exn.process_stopped)
    else if is_past end_time r.clock
    then some Ending.by_timeout
    else none

unfoldable pub run_round : Option ℕ → RunRound → Option Ending
run_round end_time r = run_round_of r.communicated end_time r

-- Without a stop event there is one wait, and a timeout is refused by an assertion.
abbrev pub blocking_wait : Option ℕ → Communicated → Option Ending
blocking_wait (some timeout) first = some (Ending.by_exception Exn.assertion_error)
blocking_wait none Communicated.exited = some Ending.by_itself
blocking_wait none (Communicated.raises e) = some (Ending.by_exception e)
blocking_wait none Communicated.still = none

abbrev end_of : ℕ → Option ℕ → Option ℕ
end_of start none = none
end_of start (some timeout) = some (start + timeout)

unfoldable pub run_ending : ℕ → Bool → ℕ → Option ℕ → (ℕ → RunRound) → Option Ending
run_ending fuel true start timeout seen =
    rounds fuel (λ n. run_round (end_of start timeout) (seen n)) 0
run_ending fuel false start timeout seen = blocking_wait timeout (seen 0).communicated

-- What run_process returns or raises.
pub data RunResult : Type 0 where
  completed called_process_error called_process_timeout_error : ℤ → RunResult
  reraised : Exn → RunResult

-- The result for the return code that poll() gives, and whether the process was killed and reaped.
unfoldable pub run_result : Bool → ℤ → Ending → RunResult × Bool
run_result check retcode Ending.by_itself =
    if check && not (same_int retcode (ℤ.pos 0))
    then (RunResult.called_process_error retcode, false)
    else (RunResult.completed retcode, false)
run_result check retcode Ending.by_timeout = (RunResult.called_process_timeout_error retcode, true)
run_result check retcode (Ending.by_exception e) = (RunResult.reraised e, true)

abbrev pub run_result_of : Bool → ℤ → Option Ending → Option (RunResult × Bool)
run_result_of check retcode none = none
run_result_of check retcode (some ending) = some (run_result check retcode ending)

unfoldable pub run_process :
    ℕ → Bool → Bool → ℕ → Option ℕ → (ℕ → RunRound) → ℤ → Option (RunResult × Bool)
run_process fuel check has_stop_event start timeout seen retcode =
    run_result_of check retcode (run_ending fuel has_stop_event start timeout seen)
