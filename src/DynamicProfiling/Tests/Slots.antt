-- ===== src/DynamicProfiling/Tests/Slots.antt =====
-- Runs of the manager's decisions.
use gprofiler.Prelude.{◌≡◌, refl, [], ◌∷◌}
use gprofiler.Prelude.Lists.{disjoint}
use gprofiler.Prelude.Result.{Result, other_error, ok, err}
use gprofiler.DynamicProfiling.Json.{str, obj, Fields, end, field, as_dict, get, find}
use gprofiler.DynamicProfiling.Queues.{empty_queues, pause_head}
use gprofiler.DynamicProfiling.ProfilerTypes.{
  get_enabled_profiler_types, enabled_loop, enables, config_enables,
}
use gprofiler.DynamicProfiling.Client.{no_answer}
use gprofiler.DynamicProfiling.Slots.{State, completed, can_run}
use gprofiler.DynamicProfiling.Manager.{
  should_process, process_command, process_adhoc, pause_continuous,
}
use gprofiler.DynamicProfiling.Manager.Loop.{heartbeat, shutdown, step}
use gprofiler.DynamicProfiling.Manager.Decision.{Agrees, should_process-process_command}
use gprofiler.DynamicProfiling.Manager.Parallel.{Apart, process_adhoc-Apart}
use gprofiler.DynamicProfiling.Manager.TimeSlice.{pause_continuous-keeps}
use gprofiler.DynamicProfiling.Manager.Idle.{IsIdle, process_stop-IsIdle, shutdown-final}
use gprofiler.DynamicProfiling.Tests.{
  env, adhoc_command, continuous_command, ruby_config, stop_command, busy_state, busy_queues,
  idle_state,
}

should_process-process_command_example :
    Agrees adhoc_command busy_state
      (should_process env adhoc_command busy_state)
      (process_command env adhoc_command busy_state)
should_process-process_command_example =
    should_process-process_command env adhoc_command busy_state refl refl refl

pause_continuous-keeps_example :
    IsIdle (pause_continuous env busy_state).continuous
    × ((pause_continuous env busy_state).queues.continuous_queue
        ≡ pause_head busy_queues.continuous_queue)
pause_continuous-keeps_example =
    pause_continuous-keeps env busy_state continuous_command refl refl refl refl

abbrev only_continuous : State
only_continuous = idle_state (record busy_queues { adhoc_queue = [] })

process_stop-IsIdle_example :
    (t : State) × (process_command env stop_command busy_state ≡ ok t)
    × IsIdle t.continuous
    × IsIdle t.adhoc
    × (t.queues ≡ empty_queues)
    × (t.sent ≡ record { completed_id = "s"; status = completed } ∷ [])
process_stop-IsIdle_example = process_stop-IsIdle env stop_command busy_state refl

shutdown-final_example :
    let t = step env shutdown busy_state in
    IsIdle t.continuous
    × IsIdle t.adhoc
    × (t.queues ≡ empty_queues)
    × (step env (heartbeat (no_answer other_error)) t ≡ t)
shutdown-final_example = shutdown-final env busy_state (no_answer other_error)

abbrev response : Fields
response = field "command_id" (str "n") (field "profiling_command" (obj ruby_config) end)

abbrev state_or : State → Result State → State
state_or s (ok t) = t
state_or s (err e) = s

-- The ad-hoc profiler beside the continuous one.
abbrev parallel_state : State
parallel_state = state_or busy_state (process_adhoc env adhoc_command busy_state)

parallel_starts : process_adhoc env adhoc_command busy_state ≡ ok parallel_state
unfolding process_adhoc can_run get_enabled_profiler_types as_dict get find enabled_loop enables
    config_enables
parallel_starts = refl

busy-Apart : Apart busy_state
unfolding disjoint
busy-Apart runs = refl

process_adhoc-Apart_example : Apart parallel_state
process_adhoc-Apart_example =
    process_adhoc-Apart env adhoc_command busy_state parallel_state parallel_starts busy-Apart
