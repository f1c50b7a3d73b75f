-- ===== src/Profilers/Base/Spawning/Backoff.antt =====
-- The checks of spawned processes in gprofiler/profilers/profiler_base.py end.
use gprofiler.Prelude.{
  ℕ, zero, suc, ◌+◌, ◌*◌, ◌≤◌, ◌<◌, String, ◌≡◌, refl, sym, inl, inr, Bool, not, ◌&&◌, ◌||◌, Option,
  none, some, List, [], ◌∷◌, ◌++◌, arith,
}
use gprofiler.Prelude.Tests.{if◌then◌else◌, if_both, leb, ltb, Bool-cases}
use gprofiler.Prelude.Lists.{All, All-append}
use gprofiler.Profilers.Base.Spawning.{
  State, Look, member, Event, backoff_init, proc_exec_callback, submit_named, submit_spawned,
  look_again, check_seen, check_process, take_nth, behind_first, check_taken, step, run_rest, run,
}

-- How many checks an entry with this interval has left.
abbrev pub checks_left : ℕ → ℕ
checks_left interval =
    if leb 8 interval then 1 else if leb 4 interval then 2 else if leb 2 interval then 3 else 4

unfoldable pub all_left : List (ℕ × ℕ) → ℕ
all_left [] = 0
all_left ((pid, interval) ∷ more) = checks_left interval + all_left more

all_left-append :
    (front back : List (ℕ × ℕ)) → all_left (front ++ back) ≡ all_left front + all_left back
unfolding all_left
all_left-append [] back = omega arith
all_left-append ((pid, interval) ∷ front) back = omega (arith, all_left-append front back)

-- No entry waits for no time.
abbrev pub IsWaiting : List (ℕ × ℕ) → Type 0
IsWaiting queue = All (λ entry. 0 < entry.1) queue

-- What the state's queue may hold after a check of an entry with this interval.
Spent : ℕ → State → State → Type 0
Spent interval s s' =
    (all_left s'.queue + 1 ≤ all_left s.queue + checks_left interval) × IsWaiting s'.queue

unchanged-Spent : (interval : ℕ) (s : State) → IsWaiting s.queue → Spent interval s s
unfolding Spent
unchanged-Spent interval s w =
    let least : 1 ≤ checks_left interval = ground arith in (omega (arith, least), w)

look_again-Spent :
    (pid interval : ℕ) (s : State)
    → 0 < interval
    → IsWaiting s.queue
    → Spent interval s (look_again pid interval s)
unfolding Spent all_left
look_again-Spent pid interval s h w = elim (Bool-cases (ltb interval 8)) [
  | inl again ↦
      let sum = all_left-append s.queue ((pid, interval * 2) ∷ []) in
      let less : checks_left (interval * 2) + 1 ≤ checks_left interval = ground arith in
      rw again (
        omega (arith, sum, less),
        All-append (λ entry. 0 < entry.1) s.queue ((pid, interval * 2) ∷ []) w
            (omega (arith, h), tt),
      )
  | inr last ↦ rw last (unchanged-Spent interval s w)
]

submit_named-Spent :
    (pid interval : ℕ) (comm : Option String) (s : State)
    → IsWaiting s.queue
    → Spent interval s (submit_named pid comm s)
unfolding Spent
submit_named-Spent pid interval none s w = unchanged-Spent interval s w
submit_named-Spent pid interval (some comm) s w = unchanged-Spent interval s w

check_seen-Spent :
    (pid interval : ℕ) (look : Option Look) (s : State)
    → 0 < interval
    → IsWaiting s.queue
    → Spent interval s (check_seen pid interval look s)
check_seen-Spent pid interval none s h w = unchanged-Spent interval s w
check_seen-Spent pid interval (some look) s h w =
    if_both (Spent interval s)
      (not s.is_profiling_spawning || (not look.is_running || look.is_own_child)) s
      (if look.should_profile then submit_spawned pid look s else look_again pid interval s)
      (unchanged-Spent interval s w)
      (if_both (Spent interval s) look.should_profile (submit_spawned pid look s)
        (look_again pid interval s)
        (if_both (Spent interval s) (not (member pid s.preexisting_pids) && look.has_time_left)
          (submit_named pid look.comm s) s (submit_named-Spent pid interval look.comm s w)
          (unchanged-Spent interval s w))
        (look_again-Spent pid interval s h w))

-- The n-th entry and the others.
behind_first-some :
    (first : ℕ × ℕ) (o : Option ((ℕ × ℕ) × List (ℕ × ℕ))) (taken : ℕ × ℕ) (rest : List (ℕ × ℕ))
    → behind_first first o ≡ some (taken, rest)
    → (others : List (ℕ × ℕ)) × (o ≡ some (taken, others)) × (rest ≡ first ∷ others)
behind_first-some first none taken rest h = cc
behind_first-some first (some (t, others)) taken rest h =
    let e : t ≡ taken = cc in (others, rw e refl, cc)

take_nth-left :
    (n : ℕ) (queue : List (ℕ × ℕ)) (taken : ℕ × ℕ) (rest : List (ℕ × ℕ))
    → take_nth n queue ≡ some (taken, rest)
    → IsWaiting queue
    → (all_left queue ≡ checks_left (taken.1) + all_left rest) × (0 < taken.1) × IsWaiting rest
unfolding all_left
take_nth-left n [] taken rest e w = cc
take_nth-left zero ((p, i) ∷ more) taken rest e w =
    let f : (p, i) ≡ taken = cc in let g : more ≡ rest = cc in rw (sym f, sym g) (refl, w.0, w.1)
take_nth-left (suc n) ((p, i) ∷ more) taken rest e w =
    let (others, f, g) = behind_first-some (p, i) (take_nth n more) taken rest e in
    let (left, waits, others_wait) = take_nth-left n more taken others f w.1 in
    rw g (omega (arith, left), waits, (w.0, others_wait))

-- How often a timer fires, and how often a program is executed.
abbrev pub fires : List Event → ℕ
fires [] = 0
fires (Event.fired n look ∷ es) = suc (fires es)
fires (Event.executed pid exists ∷ es) = fires es

abbrev pub executions : List Event → ℕ
executions [] = 0
executions (Event.fired n look ∷ es) = executions es
executions (Event.executed pid exists ∷ es) = suc (executions es)

executed-left :
    (pid : ℕ) (exists : Bool) (s : State)
    → IsWaiting s.queue
    → (all_left (proc_exec_callback pid exists s).queue ≤ all_left s.queue + 4)
      × IsWaiting (proc_exec_callback pid exists s).queue
unfolding proc_exec_callback all_left
executed-left pid exists s w =
    let sum = all_left-append s.queue ((pid, backoff_init) ∷ []) in
    if_both (λ t. (all_left t.queue ≤ all_left s.queue + 4) × IsWaiting t.queue)
      (s.is_profiling_spawning && exists)
      (record s { queue = s.queue ++ ((pid, backoff_init) ∷ []) }) s
      (
        omega (arith, sum),
        All-append (λ entry. 0 < entry.1) s.queue ((pid, backoff_init) ∷ []) w (omega arith, tt),
      )
      (omega arith, w)

fired-left :
    (look : Option Look) (found : Option ((ℕ × ℕ) × List (ℕ × ℕ))) (n : ℕ) (s s' : State)
    → take_nth n s.queue ≡ found
    → check_taken look found s ≡ some s'
    → IsWaiting s.queue
    → (all_left s'.queue + 1 ≤ all_left s.queue) × IsWaiting s'.queue
unfolding check_process Spent
fired-left look none n s s' e h w = cc
fired-left look (some (taken, rest)) n s s' e h w =
    let (left, waits, rest_waits) = take_nth-left n s.queue taken rest e w in
    let taken_state : State = record s { queue = rest } in
    let spent = check_seen-Spent (taken.0) (taken.1) look taken_state waits rest_waits in
    let f : check_seen (taken.0) (taken.1) look taken_state ≡ s' = cc in
    rw (sym f) (omega (arith, left, spent.0), spent.1)

-- From a state in whose queue no entry waits for no time, and for any events that can happen: the timers
-- that fire and the checks still to come are at most the checks that were left, and four for each
-- executed program. So the checks of a process end however it looks, after the fourth at the latest.
pub run-fires :
    (events : List Event) (s s' : State)
    → IsWaiting s.queue
    → run events s ≡ some s'
    → (fires events + all_left s'.queue ≤ all_left s.queue + 4 * executions events)
      × IsWaiting s'.queue
unfolding run step
run-fires [] s s' w h = let e : s ≡ s' = cc in rw (sym e) (omega arith, w)
run-fires (Event.executed pid exists ∷ es) s s' w h =
    let (left, w') = executed-left pid exists s w in
    let (rest, waits) = run-fires es (proc_exec_callback pid exists s) s' w' h in
    (omega (arith, left, rest), waits)
run-fires (Event.fired n look ∷ es) s s' w h =
    fired_case (λ t w' k. run-fires es t s' w' k) (check_taken look (take_nth n s.queue) s) refl h
  where
    fired_case :
        ((t : State)
          → IsWaiting t.queue
          → run es t ≡ some s'
          → (fires es + all_left s'.queue ≤ all_left t.queue + 4 * executions es)
            × IsWaiting s'.queue)
        → (o : Option State) → check_taken look (take_nth n s.queue) s ≡ o
        → run_rest (run es) o ≡ some s'
        → (suc (fires es) + all_left s'.queue ≤ all_left s.queue + 4 * executions es)
          × IsWaiting s'.queue
    fired_case rec none e k = cc
    fired_case rec (some t) e k =
        let (left, w') = fired-left look (take_nth n s.queue) n s t refl e w in
        let (rest, waits) = rec t w' k in (omega (arith, left, rest), waits)
