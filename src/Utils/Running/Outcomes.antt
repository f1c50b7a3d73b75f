-- ===== src/Utils/Running/Outcomes.antt =====
-- How `start_process` and `run_process` of gprofiler/utils/__init__.py end.
use mathlib.Core.Path.{subst}
use gprofiler.Prelude.{
  ℕ, suc, ◌+◌, ◌≤◌, ◌<◌, String, ◌≡◌, refl, ap, ◌∙◌, inl, inr, Bool, true, false, ◌&&◌, not, Option,
  none, some, List, arith, ◌==◌, eq_iff,
}
use gprofiler.Prelude.Tests.{if◌then◌else◌, ltb, is_some, Bool-cases}
use gprofiler.Prelude.Result.{Exn}
use gprofiler.Prelude.Integers.{ℤ, same_int}
use gprofiler.Prelude.Dict.{Dict, lookup, lookup-insert}
use gprofiler.Utils.Waiting.Ends.{Settles-rounds}
use gprofiler.Utils.Running.{
  Host, or_environ, inherit_tmpdir, with_tmpdir, outside_staticx, start_process, Communicated,
  RunRound, Ending, run_round_of, run_round, run_ending, RunResult, run_result, run_process,
}

abbrev pub or_else : Option String → Option String → Option String
or_else none other = other
or_else (some text) other = some text

late_run :
    (c : Communicated) (end_time : ℕ) (r : RunRound)
    → end_time < r.clock
    → is_some (run_round_of c (some end_time) r) ≡ true
late_run Communicated.exited end_time r h = refl
late_run (Communicated.raises e) end_time r h = refl
late_run Communicated.still end_time r h = elim (Bool-cases r.stop_set) [
  | inl set ↦ rw set refl
  | inr not_set ↦ let late : ltb end_time r.clock ≡ true = ground arith in simp (not_set, late) refl
]

-- The result that a wait of the process calls for: where communicate() returned, that of the code, and the
-- process is not killed; where it raised, its exception, and where the process still runs, the stop or the
-- timeout, and in each of these cases the process is killed.
abbrev called_by : Bool → ℤ → Bool → Communicated → RunResult × Bool
called_by check retcode stop_set Communicated.exited = (
  if check && not (same_int retcode (ℤ.pos 0))
      then RunResult.called_process_error retcode
      else RunResult.completed retcode,
  false,
)
called_by check retcode stop_set (Communicated.raises e) = (RunResult.reraised e, true)
called_by check retcode stop_set Communicated.still = (
  if stop_set
      then RunResult.reraised Exn.process_stopped
      else RunResult.called_process_timeout_error retcode,
  true,
)

abbrev pub called_for : Bool → ℤ → RunRound → RunResult × Bool
called_for check retcode r = called_by check retcode r.stop_set r.communicated

-- The wait goes on after a round.
abbrev pub GoesOn : ℕ → RunRound → Type 0
GoesOn end_time r =
    (r.communicated ≡ Communicated.still) × (r.stop_set ≡ false) × (r.clock ≤ end_time)

run_result-called_by :
    (check : Bool) (retcode : ℤ) (end_time : ℕ) (r : RunRound) (c : Communicated) (ending : Ending)
    → run_round_of c (some end_time) r ≡ some ending
    → run_result check retcode ending ≡ called_by check retcode r.stop_set c
unfolding run_result
run_result-called_by check retcode end_time r Communicated.exited ending h =
    let e : ending ≡ Ending.by_itself = cc in
    rw e (elim (Bool-cases (check && not (same_int retcode (ℤ.pos 0)))) [
      | inl fails ↦ rw fails refl
      | inr passes ↦ rw passes refl
    ])
run_result-called_by check retcode end_time r (Communicated.raises raised) ending h =
    let e : ending ≡ Ending.by_exception raised = cc in rw e refl
run_result-called_by check retcode end_time r Communicated.still ending h =
    elim (Bool-cases r.stop_set) [
      | inl set ↦
          let h' = simp set at h in
          let e : ending ≡ Ending.by_exception Exn.process_stopped = cc in simp (e, set) refl
      | inr not_set ↦ elim (Bool-cases (ltb end_time r.clock)) [
        | inl late ↦
            let h' = simp (not_set, late) at h in
            let e : ending ≡ Ending.by_timeout = cc in simp (e, not_set) refl
        | inr early ↦ let h' : none ≡ some ending = simp (not_set, early) at h in cc
      ]
    ]

run_round_of-GoesOn :
    (end_time : ℕ) (r : RunRound) (c : Communicated)
    → run_round_of c (some end_time) r ≡ none
    → (c ≡ Communicated.still) × (r.stop_set ≡ false) × (r.clock ≤ end_time)
run_round_of-GoesOn end_time r Communicated.exited h = cc
run_round_of-GoesOn end_time r (Communicated.raises e) h = cc
run_round_of-GoesOn end_time r Communicated.still h = (refl, ground arith, ground arith)

-- With a stop event and a timeout, and waits that take a second each by the clock, run_process ends in
-- some round after `timeout` waits and one at most. In all rounds before, the process still runs, no stop
-- is asked for and the time is not up. In the last round: if communicate() returned, the result is the
-- return code, as an error exactly if codes are checked and it is not 0, and nothing is killed; else the
-- process is killed and reaped, and what is raised is communicate()'s exception, or that of the stop
-- event, or that of the timeout.
pub run_process-ends :
    (check : Bool) (start timeout : ℕ) (seen : ℕ → RunRound) (retcode : ℤ)
    → ((n : ℕ) → start + (n + 1) ≤ (seen n).clock)
    → (n : ℕ) × (n ≤ timeout)
      × ((j : ℕ) → j < n → GoesOn (start + timeout) (seen j))
      × ((extra : ℕ)
          → run_process (suc (timeout + extra)) check true start (some timeout) seen retcode
            ≡ some (called_for check retcode (seen n)))
unfolding run_process run_ending run_round
run_process-ends check start timeout seen retcode clock =
    let decide : ℕ → Option Ending = λ n. run_round (some (start + timeout)) (seen n) in
    let last : is_some (decide (0 + timeout)) ≡ true =
      subst (λ m. is_some (decide m) ≡ true) (omega arith)
        (late_run (seen timeout).communicated (start + timeout) (seen timeout)
          (omega (arith, clock timeout))) in
    let s = Settles-rounds decide timeout 0 last in
    let result =
      run_result-called_by check retcode (start + timeout) (seen s.at_round)
        (seen s.at_round).communicated s.outcome s.decided in
    (
      s.at_round,
      omega (arith, s.in_time),
      (λ j before.
          run_round_of-GoesOn (start + timeout) (seen j) (seen j).communicated
            (s.undecided j (omega arith) before)),
      (λ extra. simp (s.returns (suc (timeout + extra)) (omega arith), result) refl),
    )

lookup-with_tmpdir :
    (environ : Dict String) (tmpdir : Option String) (base : Dict String) (asked : String)
    → lookup asked (with_tmpdir environ tmpdir base) ≡ (
        if "TMPDIR" == asked
        then or_else tmpdir (or_else (lookup "TMPDIR" base) (lookup "TMPDIR" environ))
        else lookup asked base)
lookup-with_tmpdir environ (some dir) base asked = lookup-insert "TMPDIR" asked dir base
lookup-with_tmpdir environ none base asked = by_base (lookup "TMPDIR" base) refl
  where
    at_tmpdir :
        (d : Dict String) (o : Option String)
        → lookup "TMPDIR" d ≡ o
        → ("TMPDIR" == asked) ≡ true
        → lookup asked d ≡ o
    at_tmpdir d o e same = subst (λ q. lookup q d ≡ o) ((eq_iff "TMPDIR" asked).0 same) e

    by_environ :
        (own : Option String)
        → lookup "TMPDIR" base ≡ none
        → lookup asked (inherit_tmpdir own base)
          ≡ (if "TMPDIR" == asked then own else lookup asked base)
    by_environ none e = elim (Bool-cases ("TMPDIR" == asked)) [
      | inl same ↦ rw same (at_tmpdir base none e same)
      | inr other ↦ rw other refl
    ]
    by_environ (some dir) e = lookup-insert "TMPDIR" asked dir base

    by_base :
        (o : Option String)
        → lookup "TMPDIR" base ≡ o
        → lookup asked (with_tmpdir environ none base)
          ≡ (if "TMPDIR" == asked then or_else o (lookup "TMPDIR" environ) else lookup asked base)
    by_base none e = simp e (by_environ (lookup "TMPDIR" environ) e)
    by_base (some dir) e = simp e (elim (Bool-cases ("TMPDIR" == asked)) [
      | inl same ↦ rw same (at_tmpdir base (some dir) e same)
      | inr other ↦ rw other refl
    ])

-- Under staticx, for a binary that is not of its bundle: the started process gets an environment in which
-- LD_LIBRARY_PATH is empty and TMPDIR is the given directory, else what the given environment has, else
-- what gprofiler has; every other variable is as in the given environment, or gprofiler's if none is given.
pub start_process-env :
    (host : Host) (pdeathsigger : Bool) (dir : String) (tmpdir : Option String)
    (env : Option (Dict String)) (cmd : List String) (asked : String)
    → host.staticx_dir ≡ some dir
    → (env' : Dict String) × ((start_process host false pdeathsigger tmpdir env cmd).env
        ≡ some env')
      × (lookup asked env' ≡ (
          if "LD_LIBRARY_PATH" == asked
          then some ""
          else if "TMPDIR" == asked
          then or_else tmpdir (
              or_else
                (lookup "TMPDIR" (or_environ host.environ env))
                (lookup "TMPDIR" host.environ))
          else lookup asked (or_environ host.environ env)))
unfolding start_process
start_process-env host pdeathsigger dir tmpdir env cmd asked h = (
  outside_staticx host.environ tmpdir env,
  simp h refl,
  lookup-insert "LD_LIBRARY_PATH" asked ""
        (with_tmpdir host.environ tmpdir (or_environ host.environ env))
      ∙ ap (λ o. if "LD_LIBRARY_PATH" == asked then some "" else o)
          (lookup-with_tmpdir host.environ tmpdir (or_environ host.environ env) asked),
)
