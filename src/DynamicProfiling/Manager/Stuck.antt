-- ===== src/DynamicProfiling/Manager/Stuck.antt =====
-- Commands of a type that gprofiler/dynamic_profiling_management/heartbeat.py does not know.
use gprofiler.Prelude.{ℕ, zero, suc, ◌≡◌, refl, ap, ◌++◌, ◌∙◌, false, none, some, List, [], ◌∷◌}
use gprofiler.DynamicProfiling.Json.{is_text}
use gprofiler.DynamicProfiling.Queues.{ProfilingCommand, is_stop, get_next_command}
use gprofiler.DynamicProfiling.Client.{Reply, send_heartbeat}
use gprofiler.DynamicProfiling.Slots.{Completion, unknown_type, State, Env, send}
use gprofiler.DynamicProfiling.Slots.Lifecycle.{cleanup_if_completed}
use gprofiler.DynamicProfiling.Manager.{
  should_process, should_process_adhoc, process_command, process_next,
}
use gprofiler.DynamicProfiling.Manager.Idle.{IsIdle}
use gprofiler.DynamicProfiling.Manager.Loop.{Event, heartbeat, round, step, run}

abbrev pub rounds : ℕ → Reply → List Event
rounds zero reply = []
rounds (suc k) reply = heartbeat reply ∷ rounds k reply

module _ (env : Env) (cmd : ProfilingCommand) where
  -- The next command is an ad-hoc one of a type that is neither start nor stop, both slots are free, and
  -- the agent runs.
  pub record IsBlocked (s : State) : Type 0 where
    pub next : get_next_command s.queues ≡ some cmd
    pub not_stop : is_stop cmd ≡ false
    pub not_start : is_text "start" cmd.command_type ≡ false
    pub short : cmd.is_continuous ≡ false
    pub continuous_free : IsIdle s.continuous
    pub adhoc_free : IsIdle s.adhoc
    pub no_thread : s.adhoc.thread ≡ none
    pub agent_runs : s.stop_event ≡ false

  process_next_unknown :
      (s : State) → IsBlocked s → process_next env s ≡ send cmd.command_id unknown_type s
  unfolding process_next should_process should_process_adhoc process_command
  process_next_unknown s b = simp (
    b.next, b.not_stop, b.not_start, b.short, b.continuous_free.no_profiler,
    b.continuous_free.no_command, b.adhoc_free.no_profiler, b.adhoc_free.no_command,
  )

  -- What is reported: the failure for the command, as often as asked.
  abbrev pub failures : ℕ → List Completion
  failures zero = []
  failures (suc k) = record { completed_id = cmd.command_id; status = unknown_type } ∷ failures k

  failures-before :
      (k : ℕ) (sent : List Completion)
      → failures k ++ (record { completed_id = cmd.command_id; status = unknown_type } ∷ sent)
        ≡ failures (suc k) ++ sent
  failures-before zero sent = refl
  failures-before (suc k) sent =
      ap (λ l. record { completed_id = cmd.command_id; status = unknown_type } ∷ l)
        (failures-before k sent)

  step_running :
      (s : State) (reply : Reply)
      → s.stop_event ≡ false
      → step env (heartbeat reply) s ≡ round env reply s
  unfolding step
  step_running s reply runs = simp runs

  round_silent :
      (s : State) (reply : Reply)
      → send_heartbeat reply ≡ none
      → s.adhoc.thread ≡ none
      → round env reply s ≡ process_next env s
  unfolding round cleanup_if_completed
  round_silent s reply silent no_thread = simp (silent, no_thread)

  step_unknown :
      (s : State) (reply : Reply)
      → send_heartbeat reply ≡ none
      → IsBlocked s
      → step env (heartbeat reply) s ≡ send cmd.command_id unknown_type s
  step_unknown s reply silent b =
      step_running s reply b.agent_runs
      ∙ (round_silent s reply silent b.no_thread ∙ process_next_unknown s b)

  send-IsBlocked : (s : State) → IsBlocked s → IsBlocked (send cmd.command_id unknown_type s)
  send-IsBlocked s b = record {
    next = b.next;
    not_stop = b.not_stop;
    not_start = b.not_start;
    short = b.short;
    continuous_free = b.continuous_free;
    adhoc_free = b.adhoc_free;
    no_thread = b.no_thread;
    agent_runs = b.agent_runs;
  }

  -- With an ad-hoc command of unknown type at the front, both slots free and the agent running, any
  -- number of rounds without a new command leaves the queues and slots as they are, and adds to the
  -- reports only, once for each round, that this command is of an unknown type.
  pub unknown_type_blocks :
      (k : ℕ) (s : State) (reply : Reply)
      → send_heartbeat reply ≡ none
      → IsBlocked s
      → let t = run env (rounds k reply) s in
        (t.queues ≡ s.queues)
        × (t.continuous ≡ s.continuous)
        × (t.adhoc ≡ s.adhoc)
        × (t.sent ≡ failures k ++ s.sent)
  unfolding run
  unknown_type_blocks zero s reply silent b = (refl, refl, refl, refl)
  unknown_type_blocks (suc k) s reply silent b =
      let t = send cmd.command_id unknown_type s in
      let same = unknown_type_blocks k t reply silent (send-IsBlocked s b) in
      rw (step_unknown s reply silent b, run)
        (same.0, same.1, same.2, same.3 ∙ failures-before k s.sent)
