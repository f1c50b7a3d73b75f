-- ===== src/Utils/Waiting.antt =====
-- The waits of gprofiler/utils/__init__.py: `wait_event`, `poll_process` and `wait_for_file_by_prefix`.
-- Round n of a wait sees the condition, the stop event and the clock at that moment; times are whole
-- numbers of some unit.
pub mod Ends
use gprofiler.Prelude.{
  ℕ, zero, suc, ◌+◌, String, Bool, true, false, Option, none, some, List, [], ◌∷◌, ◌++◌,
}
use gprofiler.Prelude.Tests.{if◌then◌else◌, ltb}
use gprofiler.Prelude.Python.{sorted}
use gprofiler.Prelude.Result.{Exn, Result, ok, err, ◌>>=◌}

abbrev pub or_then {ℓ} : {A : Type ℓ} → Option A → Option A → Option A
or_then none later = later
or_then (some outcome) later = some outcome

-- A loop that a round may end, from round n on, with fuel.
unfoldable pub rounds {ℓ} : {A : Type ℓ} → ℕ → (ℕ → Option A) → ℕ → Option A
rounds zero decide n = none
rounds (suc fuel) decide n = or_then (decide n) (rounds fuel decide (suc n))

pub record Round : Type 0 where
  pub condition : Bool
  pub stop_set : Bool
  pub clock : ℕ

-- How a wait ends: it returns, or raises StopEventSetException or TimeoutError.
pub data Waited : Type 0 where
  met stopped timed_out : Waited

-- One round of `while True`.
unfoldable pub wait_round : ℕ → Round → Option Waited
wait_round end_time r =
    if r.condition
    then some Waited.met
    else if r.stop_set
    then some Waited.stopped
    else if ltb end_time r.clock
    then some Waited.timed_out
    else none

-- The wait that starts at a time; `none` is the end of the fuel.
unfoldable pub wait_event : ℕ → ℕ → ℕ → (ℕ → Round) → Option Waited
wait_event fuel start timeout seen = rounds fuel (λ n. wait_round (start + timeout) (seen n)) 0

-- process.kill() before StopEventSetException goes on
abbrev pub kills : Waited → Bool
kills Waited.stopped = true
kills other = false

-- How the call ends, and whether the process is killed; the condition is that poll() gives a code.
unfoldable pub poll_process : ℕ → ℕ → ℕ → (ℕ → Round) → Option (Waited × Bool)
poll_process fuel start timeout seen = ended (wait_event fuel start timeout seen)
  where
    ended : Option Waited → Option (Waited × Bool)
    ended none = none
    ended (some waited) = some (waited, kills waited)

-- output_files[:-1] and output_files[-1:]
abbrev pub all_but_last : List String → List String
all_but_last [] = []
all_but_last (x ∷ []) = []
all_but_last (x ∷ y ∷ more) = x ∷ all_but_last (y ∷ more)

abbrev pub last_one : List String → List String
last_one [] = []
last_one (x ∷ []) = x ∷ []
last_one (x ∷ y ∷ more) = last_one (y ∷ more)

-- output_files[0], with what was removed; an empty list raises IndexError.
abbrev first_file : List String → List String → Result (String × List String)
first_file [] removed = err Exn.other_error
first_file (file ∷ more) removed = ok (file, removed)

-- The files found after the wait: the one to use, and those removed.
unfoldable pub choose_file : List String → Result (String × List String)
choose_file (file ∷ []) = ok (file, [])
choose_file output_files =
    first_file (last_one (sorted output_files)) (all_but_last (sorted output_files))

-- The files are listed again once the wait is over.
unfoldable pub wait_for_file_by_prefix :
    ℕ → ℕ → ℕ → (ℕ → Round) → List String → Option (Result (String × List String))
wait_for_file_by_prefix fuel start timeout seen output_files =
    ended (wait_event fuel start timeout seen)
  where
    ended : Option Waited → Option (Result (String × List String))
    ended none = none
    ended (some Waited.met) = some (choose_file output_files)
    ended (some Waited.stopped) = some (err Exn.stop_event_set)
    ended (some Waited.timed_out) = some (err Exn.timeout_error)
