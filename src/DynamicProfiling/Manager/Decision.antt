-- ===== src/DynamicProfiling/Manager/Decision.antt =====
-- What `_should_process` of gprofiler/dynamic_profiling_management/heartbeat.py decides and what
-- `_process_command` then does.
use mathlib.Core.Path.{subst}
use gprofiler.Prelude.{
  ℕ, String, ◌≡◌, refl, sym, inl, inr, Option, none, Bool, true, false, not, ◌&&◌, ◌||◌, some, List,
  ◌∷◌, arith, eq_iff,
}
use gprofiler.Prelude.Tests.{if◌then◌else◌, Bool-cases}
use gprofiler.Prelude.Result.{Result, ok, err, ◌>>=◌}
use gprofiler.DynamicProfiling.Json.{Json, str, is_text}
use gprofiler.DynamicProfiling.Queues.{ProfilingCommand, is_stop, get_next_command}
use gprofiler.DynamicProfiling.Slots.{
  SlotName, continuous_slot, adhoc_slot, Completion, completed, State, Env, is_running,
  is_running_command, can_be_paused, can_run,
}
use gprofiler.DynamicProfiling.Slots.Lifecycle.{start_adhoc, start_continuous}
use gprofiler.DynamicProfiling.Slots.Started.{Tried, start_adhoc-Tried, start_continuous-Tried}
use gprofiler.DynamicProfiling.Manager.Idle.{stop_slot-sent}
use gprofiler.DynamicProfiling.Manager.{
  pause_continuous, should_process, should_process_adhoc, process_command, process_continuous,
  process_adhoc, run_adhoc_beside, report_completed, process_next,
}

-- The slot for the kind of a command.
abbrev pub slot_for : ProfilingCommand → SlotName
slot_for cmd = if cmd.is_continuous then continuous_slot else adhoc_slot

-- A start was tried and reported as completed, or nothing happened.
abbrev Processed : ProfilingCommand → State → Bool → State → Type 0
Processed cmd s true t =
    (sent : List Completion) × (t.sent
      ≡ record { completed_id = cmd.command_id; status = completed } ∷ sent)
    × Tried cmd.command_id (slot_for cmd) s.sent t sent
Processed cmd s false t = t ≡ s

-- The two functions agree on a result: both raise the same, or `process_command` does what was decided.
abbrev pub Agrees : ProfilingCommand → State → Result Bool → Result State → Type 0
Agrees cmd s (ok b) (ok t) = Processed cmd s b t
Agrees cmd s (err e) (err e') = e ≡ e'
Agrees cmd s (ok b) (err e) = ⊥
Agrees cmd s (err e) (ok t) = ⊥

pub start_not_stop : (v : Json) → is_text "start" v ≡ true → is_text "stop" v ≡ false
start_not_stop (str s) h = let e : s ≡ "start" = (eq_iff s "start").0 h in rw e
start_not_stop Json.null h = cc
start_not_stop _ h = cc

module _ (env : Env) where
  pause_continuous-sent : (s : State) → (pause_continuous env s).sent ≡ s.sent
  unfolding pause_continuous
  pause_continuous-sent s = with_command s.continuous.command
    where
      with_command :
          (c : Option ProfilingCommand)
          → (pause_continuous env
              (record s { continuous = record s.continuous { command = c } })).sent
            ≡ s.sent
      with_command none = refl
      with_command (some c) = stop_slot-sent env continuous_slot _

  report_completed-Tried :
      (i j : String) (name : SlotName) (before after : List Completion) (t : State)
      → Tried i name before t after
      → Tried i name before (report_completed env j t) after
  unfolding report_completed
  report_completed-Tried i j continuous_slot before after t tried = tried
  report_completed-Tried i j adhoc_slot before after t tried = tried

module _ (env : Env) (cmd : ProfilingCommand) (s : State) where
  -- The end of a start in the slot for the command, from a state that has sent what `s` has.
  started-Processed :
      (name : SlotName) (u t : State)
      → slot_for cmd ≡ name
      → u.sent ≡ s.sent
      → Tried cmd.command_id name u.sent t t.sent
      → Processed cmd s true (report_completed env cmd.command_id t)
  unfolding report_completed
  started-Processed name u t kind same tried =
      let i = cmd.command_id in
      let t' = report_completed env i t in
      let reported = report_completed-Tried env i i name u.sent t.sent t tried in
      (
        t.sent,
        refl,
        subst (λ n. Tried i n s.sent t' t.sent) (sym kind)
            (subst (λ l. Tried i name l t' t.sent) same reported),
      )

  -- A start from a state that has sent what `s` has, in the slot for continuous and for other commands.
  long-Processed :
      (u : State)
      → cmd.is_continuous ≡ true
      → u.sent ≡ s.sent
      → Processed cmd s true (
          report_completed env cmd.command_id
            (start_continuous env cmd.profiling_command cmd.command_id u))
  long-Processed u long same =
      started-Processed continuous_slot u _ (simp long refl) same
        (start_continuous-Tried env cmd.profiling_command cmd.command_id u)

  short-Processed :
      (u : State)
      → cmd.is_continuous ≡ false
      → u.sent ≡ s.sent
      → Processed cmd s true (
          report_completed env cmd.command_id
            (start_adhoc env cmd.profiling_command cmd.command_id u))
  short-Processed u short same =
      started-Processed adhoc_slot u _ (simp short refl) same
        (start_adhoc-Tried env cmd.profiling_command cmd.command_id u)

  continuous-Agrees :
      cmd.is_continuous ≡ true
      → Agrees cmd s
          (ok (not (is_running s.continuous) || can_be_paused s.continuous))
          (ok (process_continuous env cmd s))
  unfolding process_continuous
  continuous-Agrees long = elim (Bool-cases (is_running s.continuous)) [
    | inl runs ↦ elim (Bool-cases (can_be_paused s.continuous)) [
      | inl pausable ↦
          simp (runs, pausable)
            (long-Processed (pause_continuous env s) long (pause_continuous-sent env s))
      | inr fixed ↦ simp (runs, fixed) refl
    ]
    | inr idle ↦ simp idle (long-Processed s long refl)
  ]

  beside-Agrees :
      (r : Result Bool)
      → cmd.is_continuous ≡ false
      → Agrees cmd s
          (r >>= λ parallel.
            ok (parallel || (can_be_paused s.continuous && not (is_running s.adhoc))))
          (r >>= λ parallel. ok (run_adhoc_beside env parallel cmd s))
  beside-Agrees (ok true) short = short-Processed s short refl
  beside-Agrees (ok false) short =
      elim (Bool-cases (can_be_paused s.continuous && not (is_running s.adhoc))) [
        | inl slice ↦
            simp slice
              (short-Processed (pause_continuous env s) short (pause_continuous-sent env s))
        | inr wait ↦ simp wait refl
      ]
  beside-Agrees (err e) short = refl

  adhoc-Agrees :
      cmd.is_continuous ≡ false
      → Agrees cmd s (should_process_adhoc env cmd s) (process_adhoc env cmd s)
  unfolding should_process_adhoc process_adhoc
  adhoc-Agrees short = elim (Bool-cases (is_running s.continuous)) [
    | inl runs ↦ simp runs (beside-Agrees (can_run cmd s.continuous.profiler_types s.adhoc) short)
    | inr idle ↦ elim (Bool-cases (is_running s.adhoc)) [
      | inl busy ↦ simp (idle, busy) refl
      | inr free ↦ simp (idle, free) (short-Processed s short refl)
    ]
  ]

  -- For a start command that runs in no slot yet, the decision and the processing agree. Where the
  -- decision is yes, the processing tries to start the command: afterwards the slot of its kind has the
  -- command and a running thread, or the slot has no command and a failure to start is reported for it; in
  -- both cases it is then reported as completed, and nothing else is reported. Where the decision is no,
  -- the processing changes nothing. One raises exactly if the other does, with the same exception.
  pub should_process-process_command :
      is_text "start" cmd.command_type ≡ true
      → is_running_command cmd.command_id s.continuous ≡ false
      → is_running_command cmd.command_id s.adhoc ≡ false
      → Agrees cmd s (should_process env cmd s) (process_command env cmd s)
  unfolding should_process process_command
  should_process-process_command start c a = elim (Bool-cases cmd.is_continuous) [
    | inl long ↦
        simp (c, a, start_not_stop cmd.command_type start, start, long) (continuous-Agrees long)
    | inr short ↦
        simp (c, a, start_not_stop cmd.command_type start, start, short) (adhoc-Agrees short)
  ]

  -- A stop command that is not marked as continuous waits while an ad-hoc profiler runs: the loop
  -- serves nothing, and neither slot, queue nor report changes.
  stop_waits_for_adhoc :
      (n : ℕ)
      → get_next_command s.queues ≡ some cmd
      → is_stop cmd ≡ true
      → cmd.is_continuous ≡ false
      → s.adhoc.gprofiler ≡ some n
      → process_next env s ≡ s
  unfolding process_next should_process should_process_adhoc can_run
  stop_waits_for_adhoc n next stop short runs = ground (arith, next, stop)
