-- ===== src/DynamicProfiling/Tests/Blocking.antt =====
-- Runs in which a command blocks the queues or is started again and again.
use gprofiler.Prelude.{◌++◌, ◌≡◌, refl, false, some, [], ◌∷◌}
use gprofiler.Prelude.Result.{other_error}
use gprofiler.DynamicProfiling.Json.{pos, str, num, arr, cons, nil, Fields, end, field}
use gprofiler.DynamicProfiling.Queues.{
  ProfilingCommand, CommandManager, empty_queues, pause_head, get_next_command,
}
use gprofiler.DynamicProfiling.Client.{no_answer, send_heartbeat}
use gprofiler.DynamicProfiling.Slots.{State, Worker, continuous_slot, free_slot}
use gprofiler.DynamicProfiling.Manager.Loop.{run}
use gprofiler.DynamicProfiling.Manager.Idle.{free_slot-IsIdle}
use gprofiler.DynamicProfiling.Manager.Stuck.{failures, rounds, unknown_type_blocks}
use gprofiler.DynamicProfiling.Tests.{
  env, command_of, with_config, adhoc_command, continuous_command, stop_command, idle_state,
  running_slot,
}

abbrev stopping : State
stopping = record (idle_state (record empty_queues { stop_queue = stop_command ∷ [] })) {
  adhoc = running_slot 3 adhoc_command [];
}

abbrev paused_queues : CommandManager
paused_queues = record empty_queues { continuous_queue = pause_head (continuous_command ∷ []) }

abbrev resumed_worker : Worker
resumed_worker = record {
  number = 9;
  instance_number = some 9;
  slot = continuous_slot;
  worker_command = "c";
}

abbrev unknown_command : ProfilingCommand
unknown_command = command_of "u" "reload" end false

abbrev unknown_state : State
unknown_state = idle_state (record empty_queues { adhoc_queue = unknown_command ∷ [] })

unknown_type_blocks_example :
    let t = run env (rounds 3 (no_answer other_error)) unknown_state in
    (t.queues ≡ unknown_state.queues)
    × (t.continuous ≡ free_slot)
    × (t.adhoc ≡ free_slot)
    × (t.sent ≡ failures env unknown_command 3 ++ [])
unfolding get_next_command send_heartbeat
unknown_type_blocks_example =
    unknown_type_blocks env unknown_command 3 unknown_state (no_answer other_error) refl (record {
      next = refl;
      not_stop = refl;
      not_start = refl;
      short = refl;
      continuous_free = free_slot-IsIdle;
      adhoc_free = free_slot-IsIdle;
      no_thread = refl;
      agent_runs = refl;
    })

-- A configuration that is a number has no keys.
abbrev broken_command : ProfilingCommand
broken_command = command_of "b" "start" (field "combined_config" (num (pos 1)) end) false

abbrev broken_state : State
broken_state = idle_state (record empty_queues { adhoc_queue = broken_command ∷ [] })

abbrev other_hosts : Fields
other_hosts = field "target_hostnames" (arr (cons (str "elsewhere") nil)) end

-- A command for another host.
abbrev other_command : ProfilingCommand
other_command = command_of "o" "start" (with_config other_hosts) false

abbrev other_state : State
other_state = idle_state (record empty_queues { adhoc_queue = other_command ∷ [] })
