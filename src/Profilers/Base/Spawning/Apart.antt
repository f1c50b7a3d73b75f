-- ===== src/Profilers/Base/Spawning/Apart.antt =====
-- Spawned processes are none of those that a profiler of gprofiler/profilers/profiler_base.py had
-- selected.
use mathlib.Core.Path.{subst}
use gprofiler.Prelude.{
  ℕ, ◌*◌, String, ◌≡◌, refl, ◌∙◌, inl, inr, false, not, ◌&&◌, ◌||◌, Option, none, some, List, [],
  ◌∷◌, ◌++◌, arith,
}
use gprofiler.Prelude.Tests.{if◌then◌else◌, if_both, ltb, Bool-cases}
use gprofiler.Prelude.Lists.{All, All-append}
use gprofiler.Profilers.Base.Spawning.{
  State, Look, Event, proc_exec_callback, submit_named, submit_spawned, look_again, check_seen,
  check_process, member, take_nth, check_taken, step, run_rest, run, backoff_init, backoff_max,
}

-- No future is of a process that was selected.
unfoldable pub IsApart : State → Type 0
IsApart s = All (λ f. member (f.0) s.preexisting_pids ≡ false) s.futures

Kept : State → State → Type 0
Kept s t = (t.preexisting_pids ≡ s.preexisting_pids) × IsApart t

submit_named-Kept :
    (pid : ℕ) (comm : Option String) (s : State)
    → member pid s.preexisting_pids ≡ false
    → IsApart s
    → Kept s (submit_named pid comm s)
unfolding Kept IsApart
submit_named-Kept pid none s new apart = (refl, apart)
submit_named-Kept pid (some comm) s new apart = (
  refl,
  All-append (λ f. member (f.0) s.preexisting_pids ≡ false) s.futures ((pid, comm) ∷ []) apart
      (new, tt),
)

submit_spawned-Kept :
    (pid : ℕ) (look : Look) (s : State) → IsApart s → Kept s (submit_spawned pid look s)
unfolding Kept
submit_spawned-Kept pid look s apart =
    elim (Bool-cases (not (member pid s.preexisting_pids) && look.has_time_left)) [
      | inl new ↦
          let n : member pid s.preexisting_pids ≡ false = ground arith in
          rw new (submit_named-Kept pid look.comm s n apart)
      | inr old ↦ rw old (refl, apart)
    ]

check_seen-Kept :
    (pid interval : ℕ) (look : Option Look) (s : State)
    → IsApart s
    → Kept s (check_seen pid interval look s)
unfolding Kept IsApart
check_seen-Kept pid interval none s apart = (refl, apart)
check_seen-Kept pid interval (some look) s apart =
    if_both (Kept s) (not s.is_profiling_spawning || (not look.is_running || look.is_own_child)) s
      (if look.should_profile then submit_spawned pid look s else look_again pid interval s)
      (refl, apart)
      (if_both (Kept s) look.should_profile (submit_spawned pid look s) (look_again pid interval s)
        (submit_spawned-Kept pid look s apart)
        (if_both (Kept s) (ltb interval backoff_max)
          (record s { queue = s.queue ++ ((pid, interval * 2) ∷ []) }) s (refl, apart)
          (refl, apart)))

fired-Kept :
    (look : Option Look) (found : Option ((ℕ × ℕ) × List (ℕ × ℕ))) (s t : State)
    → check_taken look found s ≡ some t
    → IsApart s
    → Kept s t
unfolding check_process Kept IsApart
fired-Kept look none s t h apart = cc
fired-Kept look (some (taken, rest)) s t h apart =
    let taken_state : State = record s { queue = rest } in
    let kept = check_seen-Kept (taken.0) (taken.1) look taken_state apart in
    let f : check_seen (taken.0) (taken.1) look taken_state ≡ t = cc in subst (Kept s) f kept

-- Whatever processes execute programs and whichever timers fire, no process among those that the profiler
-- had selected when it began is submitted as a spawned one, so that the two results have no process in
-- common: from a state where that holds it holds in every later one, of the same selected processes.
pub run-IsApart :
    (events : List Event) (s s' : State)
    → IsApart s
    → run events s ≡ some s'
    → (s'.preexisting_pids ≡ s.preexisting_pids) × IsApart s'
unfolding run step proc_exec_callback Kept IsApart
run-IsApart [] s s' apart h = let e : s ≡ s' = cc in subst (Kept s) e (refl, apart)
run-IsApart (Event.executed pid exists ∷ es) s s' apart h =
    let (same, apart') =
      if_both (Kept s) (s.is_profiling_spawning && exists)
        (record s { queue = s.queue ++ ((pid, backoff_init) ∷ []) }) s (refl, apart)
        (refl, apart) in
    let (rest, apart'') = run-IsApart es (proc_exec_callback pid exists s) s' apart' h in
    (rest ∙ same, apart'')
run-IsApart (Event.fired n look ∷ es) s s' apart h =
    fired_case (λ t a k. run-IsApart es t s' a k) (check_taken look (take_nth n s.queue) s) refl h
  where
    fired_case :
        ((t : State)
          → IsApart t
          → run es t ≡ some s'
          → (s'.preexisting_pids ≡ t.preexisting_pids) × IsApart s')
        → (o : Option State) → check_taken look (take_nth n s.queue) s ≡ o
        → run_rest (run es) o ≡ some s'
        → (s'.preexisting_pids ≡ s.preexisting_pids) × IsApart s'
    fired_case rec none e k = cc
    fired_case rec (some t) e k =
        let (same, apart') = fired-Kept look (take_nth n s.queue) s t e apart in
        let (rest, apart'') = rec t apart' k in (rest ∙ same, apart'')
