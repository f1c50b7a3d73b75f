-- ===== src/DynamicProfiling/Manager.antt =====
-- `DynamicGProfilerManager` of gprofiler/dynamic_profiling_management/heartbeat.py.
pub mod Loop
pub mod Enqueue
pub mod Idle
pub mod Decision
pub mod Parallel
pub mod TimeSlice
pub mod Stuck
pub mod EmptyStart
-- One round of the loop is one step, and so is the end of a thread: they are not interleaved further.
use gprofiler.Prelude.{String, Bool, true, false, not, ◌&&◌, ◌||◌, Option, none, some}
use gprofiler.Prelude.Tests.{if◌then◌else◌}
use gprofiler.Prelude.Lists.{contains}
use gprofiler.Prelude.Result.{Result, ok, err, key_error, type_error, ◌>>=◌}
use gprofiler.DynamicProfiling.Json.{
  Json, null, bool, str, obj, Fields, end, find, get, as_dict, truthy, is_text,
}
use gprofiler.DynamicProfiling.Queues.{
  ProfilingCommand, enqueue_command, get_next_command, pause_command, clear_queues,
}
use gprofiler.DynamicProfiling.Client.{mark_command_received, mark_command_executed}
use gprofiler.DynamicProfiling.Slots.{
  continuous_slot, adhoc_slot, completed, unknown_type, State, Env, send, is_running,
  is_running_command, can_be_paused, can_run,
}
use gprofiler.DynamicProfiling.Slots.Lifecycle.{start_adhoc, start_continuous, stop_slot}

module _ (env : Env) where
  -- The command of an answer. An identifier that is no text is not modelled further than that.
  abbrev pub command_id_of : Fields → Result String
  command_id_of response = elim (find "command_id" response) [
    | none ↦ err key_error
    | some v ↦ elim v [ str i ↦ ok i | _ ↦ err type_error ]
  ]

  abbrev pub new_command : String → Fields → Result ProfilingCommand
  new_command i profiling_command = do
    config ← as_dict (get "combined_config" (obj end) profiling_command)
    ok (record {
      command_id = i;
      command_type = get "command_type" (str "start") profiling_command;
      profiling_command = profiling_command;
      is_continuous = truthy (get "continuous" (bool false) config);
      is_paused = false;
    })

  abbrev pub received : String → State → State
  received i s =
      let c = mark_command_received env.set_order i s.client in
      record s { client = record c { last_command_id = some i } }

  abbrev pub parsed_command : String → Json → Result ProfilingCommand
  parsed_command i v = do d ← as_dict v; new_command i d

  -- The command is marked as received before it is read. The Boolean says whether an exception came.
  abbrev pub put_command : Result ProfilingCommand → State → State × Bool
  put_command (ok c) s = (record s { queues = enqueue_command c s.queues }, false)
  put_command (err e) s = (s, true)

  abbrev pub enqueue_named : String → Json → State → State × Bool
  enqueue_named i v s =
      if contains i s.client.received_command_ids
      then (s, false)
      else put_command (parsed_command i v) (received i s)

  abbrev pub enqueue_id : Result String → Fields → State → State × Bool
  enqueue_id (ok i) response s = enqueue_named i (get "profiling_command" null response) s
  enqueue_id (err e) response s = (s, true)

  -- `_enqueue_command`
  unfoldable pub enqueue_response : Fields → State → State × Bool
  enqueue_response response s = enqueue_id (command_id_of response) response s

  -- `_should_process`
  unfoldable pub should_process_adhoc : ProfilingCommand → State → Result Bool
  should_process_adhoc cmd s =
      if not (is_running s.continuous) then ok (not (is_running s.adhoc)) else do
        parallel ← can_run cmd s.continuous.profiler_types s.adhoc
        ok (parallel || (can_be_paused s.continuous && not (is_running s.adhoc)))

  unfoldable pub should_process : ProfilingCommand → State → Result Bool
  should_process cmd s =
      if is_running_command cmd.command_id s.continuous
      then ok false
      else if is_running_command cmd.command_id s.adhoc
      then ok false
      else if cmd.is_continuous
      then ok (not (is_running s.continuous) || can_be_paused s.continuous)
      else should_process_adhoc cmd s

  -- `pause_command(self.continuous.command.command_id)` and `self.continuous.stop()`
  unfoldable pub pause_continuous : State → State
  pause_continuous s = elim s.continuous.command [
    | none ↦ s
    | some c ↦
        stop_slot env continuous_slot
          (record s { queues = (pause_command c.command_id s.queues).0 })
  ]

  -- The end of `_process_command` for a command that was started.
  unfoldable pub report_completed : String → State → State
  report_completed i s =
      send i completed (record s { client = mark_command_executed env.set_order i s.client })

  unfoldable pub process_stop : ProfilingCommand → State → State
  process_stop cmd s =
      let s' = stop_slot env adhoc_slot (stop_slot env continuous_slot s) in
      report_completed cmd.command_id (record s' { queues = clear_queues s'.queues })

  unfoldable pub process_continuous : ProfilingCommand → State → State
  process_continuous cmd s =
      let go = λ (t : State).
        report_completed cmd.command_id
          (start_continuous env cmd.profiling_command cmd.command_id t) in
      if not (is_running s.continuous)
      then go s
      else if can_be_paused s.continuous
      then go (pause_continuous s)
      else s

  -- The choice among the parallel path, the time slice and waiting, once `can_run` is known.
  abbrev pub run_adhoc_beside : Bool → ProfilingCommand → State → State
  run_adhoc_beside parallel cmd s =
      let go = λ (t : State).
        report_completed cmd.command_id (start_adhoc env cmd.profiling_command cmd.command_id t) in
      if parallel
      then go s
      else if can_be_paused s.continuous && not (is_running s.adhoc)
      then go (pause_continuous s)
      else s

  unfoldable pub process_adhoc : ProfilingCommand → State → Result State
  process_adhoc cmd s =
      if not (is_running s.continuous)
      then ok (
          if not (is_running s.adhoc)
          then report_completed cmd.command_id
              (start_adhoc env cmd.profiling_command cmd.command_id s)
          else s)
      else do
        parallel ← can_run cmd s.continuous.profiler_types s.adhoc
        ok (run_adhoc_beside parallel cmd s)

  -- `_process_command`; an exception comes before any change.
  unfoldable pub process_command : ProfilingCommand → State → Result State
  process_command cmd s =
      if is_text "stop" cmd.command_type
      then ok (process_stop cmd s)
      else if not (is_text "start" cmd.command_type)
      then ok (send cmd.command_id unknown_type s)
      else if cmd.is_continuous
      then ok (process_continuous cmd s)
      else process_adhoc cmd s

  -- An exception ends the round: it is logged.
  abbrev pub after_process : State → Result State → State
  after_process s (ok t) = t
  after_process s (err e) = s

  abbrev pub serve : ProfilingCommand → Result Bool → State → State
  serve cmd (ok true) s = after_process s (process_command cmd s)
  serve cmd (ok false) s = s
  serve cmd (err e) s = s

  abbrev pub serve_next : Option ProfilingCommand → State → State
  serve_next none s = s
  serve_next (some cmd) s = serve cmd (should_process cmd s) s

  -- Step 3 of the loop.
  unfoldable pub process_next : State → State
  process_next s = serve_next (get_next_command s.queues) s
