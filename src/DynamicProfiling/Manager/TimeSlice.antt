-- ===== src/DynamicProfiling/Manager/TimeSlice.antt =====
-- A continuous command that makes room for an ad-hoc one,
-- gprofiler/dynamic_profiling_management/heartbeat.py and command_control.py.
use gprofiler.Prelude.{
  String, ◌≡◌, refl, ◌∙◌, true, false, Option, none, some, List, [], ◌∷◌, arith,
}
use gprofiler.DynamicProfiling.Json.{is_text}
use gprofiler.DynamicProfiling.Queues.{
  ProfilingCommand, CommandManager, get_next_command, at_head, head_paused, pause_head,
  dequeue_command, pause_command,
}
use gprofiler.DynamicProfiling.Queues.Kept.{paused_stays}
use gprofiler.DynamicProfiling.Slots.{continuous_slot, Worker, State, Env, finish_run, end_worker}
use gprofiler.DynamicProfiling.Slots.Lifecycle.{start_continuous, stop_slot, join}
use gprofiler.DynamicProfiling.Manager.{
  should_process, process_command, process_continuous, pause_continuous, report_completed,
  process_next,
}
use gprofiler.DynamicProfiling.Manager.Idle.{IsIdle, stop_slot-IsIdle}
use gprofiler.DynamicProfiling.Manager.Decision.{start_not_stop}

-- A paused command outlives the end of any thread.
end_worker-paused :
    (w : Worker) (s : State)
    → head_paused s.queues.continuous_queue ≡ true
    → (end_worker w s).queues.continuous_queue ≡ s.queues.continuous_queue
unfolding end_worker finish_run
end_worker-paused w s h = ground (arith, paused_stays w.worker_command s.queues)

module _ (env : Env) where
  join-paused :
      (thread : Option Worker) (s : State)
      → head_paused s.queues.continuous_queue ≡ true
      → (join env thread s).queues.continuous_queue ≡ s.queues.continuous_queue
  join-paused none s h = refl
  join-paused (some w) s h = ground (arith, end_worker-paused w s)

  stop_continuous-paused :
      (s : State)
      → head_paused s.queues.continuous_queue ≡ true
      → (stop_slot env continuous_slot s).queues.continuous_queue ≡ s.queues.continuous_queue
  unfolding stop_slot
  stop_continuous-paused s h = join-paused _ _ h

  pause_head-paused :
      (i : String) (cs : List ProfilingCommand)
      → at_head i cs ≡ true
      → head_paused (pause_head cs) ≡ true
  pause_head-paused i [] h = cc
  pause_head-paused i (c ∷ cs) h = refl

  pause_command-head :
      (i : String) (q : CommandManager)
      → at_head i q.stop_queue ≡ false
      → at_head i q.adhoc_queue ≡ false
      → at_head i q.continuous_queue ≡ true
      → (pause_command i q).0.continuous_queue ≡ pause_head q.continuous_queue
  unfolding pause_command
  pause_command-head i q a b c = simp (a, b, c)

  -- Where the running continuous command heads its queue, and no stop or ad-hoc queue is headed by its
  -- identifier, the time slice frees the continuous slot and keeps the command at the head of its queue,
  -- marked as paused, whether or not the stopped thread ends in time.
  pub pause_continuous-keeps :
      (s : State) (c : ProfilingCommand)
      → s.continuous.command ≡ some c
      → at_head c.command_id s.queues.stop_queue ≡ false
      → at_head c.command_id s.queues.adhoc_queue ≡ false
      → at_head c.command_id s.queues.continuous_queue ≡ true
      → IsIdle (pause_continuous env s).continuous
        × ((pause_continuous env s).queues.continuous_queue ≡ pause_head s.queues.continuous_queue)
  unfolding pause_continuous
  pause_continuous-keeps s c runs a b d =
      let q = (pause_command c.command_id s.queues).0 in
      let kept = pause_command-head c.command_id s.queues a b d in
      let paused : head_paused q.continuous_queue ≡ true =
        rw kept (pause_head-paused c.command_id s.queues.continuous_queue d) in
      rw (runs, pause_continuous)
        (
          stop_slot-IsIdle env continuous_slot _,
          stop_continuous-paused (record s { queues = q }) paused ∙ kept,
        )

  -- A continuous start command, paused or not, is started once the continuous slot has no profiler, no
  -- slot holds its command, and no stop and no ad-hoc command is queued.
  process_next-resumes :
      (s : State) (c : ProfilingCommand)
      → get_next_command s.queues ≡ some c
      → is_text "start" c.command_type ≡ true
      → c.is_continuous ≡ true
      → IsIdle s.continuous
      → s.adhoc.command ≡ none
      → process_next env s
        ≡ report_completed env c.command_id
            (start_continuous env c.profiling_command c.command_id s)
  unfolding process_next should_process process_command process_continuous
  process_next-resumes s c next start long idle free = simp (
    next,
    start_not_stop c.command_type start,
    start,
    long,
    idle.no_profiler,
    idle.no_command,
    free,
  )

  -- While the head of the continuous queue is marked as paused, and no other queue is headed by the
  -- command of a thread, the end of that thread leaves all queues as they are.
  resumed_never_dequeued :
      (s : State) (w : Worker)
      → at_head w.worker_command s.queues.stop_queue ≡ false
      → at_head w.worker_command s.queues.adhoc_queue ≡ false
      → head_paused s.queues.continuous_queue ≡ true
      → (end_worker w s).queues ≡ s.queues
  unfolding end_worker finish_run dequeue_command
  resumed_never_dequeued s w a b p = ground arith
