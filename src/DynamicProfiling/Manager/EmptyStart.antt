-- ===== src/DynamicProfiling/Manager/EmptyStart.antt =====
-- Ad-hoc starts after which nothing runs (gprofiler/dynamic_profiling_management/heartbeat.py, ad_hoc.py).
use gprofiler.Prelude.{ℕ, String, ◌≡◌, refl, true, false, none, List, [], ◌∷◌, arith}
use gprofiler.Prelude.Tests.{eqb_iff}
use gprofiler.Prelude.Result.{Exn, ok, err}
use gprofiler.DynamicProfiling.Json.{obj, Fields, end, get, as_dict, is_text}
use gprofiler.DynamicProfiling.Queues.{ProfilingCommand}
use gprofiler.DynamicProfiling.ProfilerTypes.{get_enabled_profiler_types}
use gprofiler.DynamicProfiling.Args.{create_profiler_args, targets_host}
use gprofiler.DynamicProfiling.Slots.{
  adhoc_slot, Slot, Worker, completed, start_failed, State, Env, is_running, clear_state, is_alive,
  without, end_worker,
}
use gprofiler.DynamicProfiling.Slots.Lifecycle.{
  create_gprofiler_instance, make_instance, start_adhoc, fail_start, launch, cleanup_if_completed,
}
use gprofiler.DynamicProfiling.Manager.{process_command, process_adhoc, report_completed}
use gprofiler.DynamicProfiling.Manager.Idle.{IsIdle, free_slot-IsIdle}
use gprofiler.DynamicProfiling.Manager.Decision.{start_not_stop}

module _ (env : Env) (cmd : ProfilingCommand) where
  abbrev pub after_adhoc : State → State
  after_adhoc s =
      report_completed env cmd.command_id (start_adhoc env cmd.profiling_command cmd.command_id s)

  process_adhoc_starts :
      (s : State)
      → is_text "start" cmd.command_type ≡ true
      → cmd.is_continuous ≡ false
      → is_running s.continuous ≡ false
      → is_running s.adhoc ≡ false
      → process_command env cmd s ≡ ok (after_adhoc s)
  unfolding process_command process_adhoc
  process_adhoc_starts s start short idle free =
      simp (start_not_stop cmd.command_type start, start, short, idle, free)

  start_adhoc_fails :
      (s : State) (e : Exn)
      → make_instance env cmd.profiling_command ≡ err e
      → start_adhoc env cmd.profiling_command cmd.command_id s
        ≡ fail_start env adhoc_slot cmd.command_id e s
  unfolding start_adhoc
  start_adhoc_fails s e fails = simp fails

  clear_state-IsIdle : (x : Slot) → IsIdle x → clear_state x ≡ x
  clear_state-IsIdle x idle = ground arith

  -- With both slots free, an ad-hoc start that fails is reported as failed and then as completed, and
  -- its command stays queued: queues and slots are as before, so the next round starts it again.
  failed_start_completes :
      (s : State) (e : Exn)
      → is_text "start" cmd.command_type ≡ true
      → cmd.is_continuous ≡ false
      → is_running s.continuous ≡ false
      → IsIdle s.adhoc
      → make_instance env cmd.profiling_command ≡ err e
      → (t : State) × (process_command env cmd s ≡ ok t)
        × (t.sent
            ≡ record { completed_id = cmd.command_id; status = completed }
              ∷ record { completed_id = cmd.command_id; status = start_failed e }
              ∷ s.sent)
        × (t.queues ≡ s.queues)
        × (t.continuous ≡ s.continuous)
        × (t.adhoc ≡ s.adhoc)
  unfolding fail_start report_completed
  failed_start_completes s e start short idle free fails =
      let failed = start_adhoc_fails s e fails in
      let free' : is_running s.adhoc ≡ false = simp free.no_profiler in
      (
        after_adhoc s,
        process_adhoc_starts s start short idle free',
        simp failed,
        simp failed,
        simp failed,
        simp failed (clear_state-IsIdle s.adhoc free),
      )

  is_alive-without : (n : ℕ) (ws : List Worker) → is_alive n (without n ws) ≡ false
  is_alive-without n [] = refl
  is_alive-without n (w ∷ ws) = ground (arith, is_alive-without n ws)

  -- The thread of a profiler that was not created, for a host that is no target.
  abbrev pub empty_worker : State → Worker
  empty_worker s = record {
    number = s.next_number;
    instance_number = none;
    slot = adhoc_slot;
    worker_command = cmd.command_id;
  }

  start_adhoc_empty :
      (s : State) (types : List String)
      → make_instance env cmd.profiling_command ≡ ok false
      → get_enabled_profiler_types cmd.profiling_command ≡ ok types
      → start_adhoc env cmd.profiling_command cmd.command_id s
        ≡ launch env adhoc_slot false cmd.profiling_command cmd.command_id false types s
  unfolding start_adhoc
  start_adhoc_empty s types other enabled = simp (other, enabled)

  make_instance-other :
      (config : Fields)
      → as_dict (get "combined_config" (obj end) cmd.profiling_command) ≡ ok config
      → targets_host env.outside.hostname config ≡ ok false
      → make_instance env cmd.profiling_command ≡ ok false
  unfolding make_instance create_profiler_args create_gprofiler_instance
  make_instance-other config read other = simp (read, other) refl

  -- An ad-hoc command for other hosts is reported as completed, but never leaves its queue: once its
  -- thread, which has nothing to run, ended and the slot was cleaned up, the queues are those of before
  -- the start and the slot is idle, so the next round starts it again.
  other_host_blocks :
      (s : State) (config : Fields) (types : List String)
      → is_text "start" cmd.command_type ≡ true
      → cmd.is_continuous ≡ false
      → is_running s.continuous ≡ false
      → is_running s.adhoc ≡ false
      → as_dict (get "combined_config" (obj end) cmd.profiling_command) ≡ ok config
      → targets_host env.outside.hostname config ≡ ok false
      → get_enabled_profiler_types cmd.profiling_command ≡ ok types
      → let u = cleanup_if_completed env (end_worker (empty_worker s) (after_adhoc s)) in
        (process_command env cmd s ≡ ok (after_adhoc s))
        × (u.queues ≡ s.queues)
        × (u.continuous ≡ s.continuous)
        × IsIdle u.adhoc
  unfolding report_completed end_worker cleanup_if_completed
  other_host_blocks s config types start short idle free read elsewhere enabled =
      let other = make_instance-other config read elsewhere in
      let empty = start_adhoc_empty s types other enabled in
      let gone = is_alive-without s.next_number s.live in
      let same = (eqb_iff s.next_number s.next_number).1 refl in
      (
        process_adhoc_starts s start short idle free,
        simp (empty, same, gone),
        simp (empty, same, gone),
        simp (empty, same, gone) free_slot-IsIdle,
      )
