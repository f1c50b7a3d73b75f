-- ===== src/DynamicProfiling/Manager/Loop.antt =====
-- `start_heartbeat_loop` and `stop` of gprofiler/dynamic_profiling_management/heartbeat.py, as steps.
use gprofiler.Prelude.{ℕ, Bool, true, false, Option, none, some, List, [], ◌∷◌}
use gprofiler.Prelude.Tests.{if◌then◌else◌}
use gprofiler.DynamicProfiling.Json.{Fields}
use gprofiler.DynamicProfiling.Queues.{clear_queues}
use gprofiler.DynamicProfiling.Client.{Reply, send_heartbeat}
use gprofiler.DynamicProfiling.Slots.{continuous_slot, adhoc_slot, Worker, State, Env, end_worker}
use gprofiler.DynamicProfiling.Slots.Lifecycle.{stop_slot, find_worker, cleanup_if_completed}
use gprofiler.DynamicProfiling.Manager.{enqueue_response, process_next}

-- The server answers a heartbeat and the loop makes a round; a profiler's thread ends; the agent stops.
pub data Event : Type 0 where
  heartbeat : Reply → Event
  thread_end : ℕ → Event
  shutdown : Event

module _ (env : Env) where
  -- Steps 2 and 3, unless step 1 raised.
  abbrev pub after_enqueue : State × Bool → State
  after_enqueue (s, true) = s
  after_enqueue (s, false) = process_next env (cleanup_if_completed env s)

  abbrev pub enqueue_answer : Option Fields → State → State × Bool
  enqueue_answer none s = (s, false)
  enqueue_answer (some response) s = enqueue_response env response s

  unfoldable pub round : Reply → State → State
  round reply s = after_enqueue (enqueue_answer (send_heartbeat reply) s)

  unfoldable pub stop_manager : State → State
  stop_manager s =
      let s' =
        stop_slot env adhoc_slot (stop_slot env continuous_slot (record s { stop_event = true })) in
      record s' { queues = clear_queues s'.queues }

  abbrev pub end_found : Option Worker → State → State
  end_found none s = s
  end_found (some w) s = end_worker w s

  unfoldable pub step : Event → State → State
  step (heartbeat reply) s = if s.stop_event then s else round reply s
  step (thread_end n) s = end_found (find_worker env n s.live) s
  step shutdown s = stop_manager s

  unfoldable pub run : List Event → State → State
  run [] s = s
  run (e ∷ es) s = run es (step e s)
