-- ===== src/DynamicProfiling/Manager/Idle.antt =====
-- What stopping does to the slots (gprofiler/dynamic_profiling_management/__init__.py, heartbeat.py).
use gprofiler.Prelude.{◌≡◌, refl, ◌⊎◌, inl, inr, true, Option, none, some, [], ◌∷◌, arith}
use gprofiler.Prelude.Tests.{Bool-cases}
use gprofiler.Prelude.Result.{ok}
use gprofiler.DynamicProfiling.Queues.{ProfilingCommand, is_stop, clear_queues, empty_queues}
use gprofiler.DynamicProfiling.Client.{Reply}
use gprofiler.DynamicProfiling.Slots.{
  SlotName, continuous_slot, adhoc_slot, Slot, free_slot, Worker, completed, State, Env, slot_of,
  finish_run, end_worker,
}
use gprofiler.DynamicProfiling.Slots.Lifecycle.{stop_slot, join, forget_thread, live_thread}
use gprofiler.DynamicProfiling.Manager.{process_command, process_stop, report_completed}
use gprofiler.DynamicProfiling.Manager.Loop.{stop_manager, step, shutdown, heartbeat}

pub record IsIdle (x : Slot) : Type 0 where
  pub no_profiler : x.gprofiler ≡ none
  pub no_command : x.command ≡ none
  pub no_types : x.profiler_types ≡ []

-- The end of a thread leaves a slot as it was, or frees it.
pub end_worker-slot :
    (name : SlotName) (w : Worker) (s : State)
    → (slot_of name (end_worker w s) ≡ slot_of name s) ⊎ (slot_of name (end_worker w s) ≡ free_slot)
unfolding end_worker finish_run
end_worker-slot name w s = ground arith

pub end_worker-sent : (w : Worker) (s : State) → (end_worker w s).sent ≡ s.sent
unfolding end_worker finish_run
end_worker-sent w s = ground arith

pub end_worker-stop_event : (w : Worker) (s : State) → (end_worker w s).stop_event ≡ s.stop_event
unfolding end_worker finish_run
end_worker-stop_event w s = ground arith

pub free_slot-IsIdle : IsIdle free_slot
free_slot-IsIdle = record { no_profiler = refl; no_command = refl; no_types = refl }

module _ (env : Env) where
  join-slot :
      (name : SlotName) (thread : Option Worker) (s : State)
      → (slot_of name (join env thread s) ≡ slot_of name s)
        ⊎ (slot_of name (join env thread s) ≡ free_slot)
  join-slot name none s = inl refl
  join-slot name (some w) s = elim (Bool-cases (env.joins w.number)) [
    | inl ends ↦ rw ends (end_worker-slot name w s)
    | inr stays ↦ rw stays (inl refl)
  ]

  pub join-sent : (thread : Option Worker) (s : State) → (join env thread s).sent ≡ s.sent
  join-sent none s = refl
  join-sent (some w) s = ground (arith, end_worker-sent w s)

  pub join-stop_event :
      (thread : Option Worker) (s : State) → (join env thread s).stop_event ≡ s.stop_event
  join-stop_event none s = refl
  join-stop_event (some w) s = ground (arith, end_worker-stop_event w s)

  -- A thread that ends leaves an idle slot idle.
  pub join-IsIdle :
      (name : SlotName) (thread : Option Worker) (s : State)
      → IsIdle (slot_of name s)
      → IsIdle (slot_of name (join env thread s))
  join-IsIdle name thread s i = elim (join-slot name thread s) [
    | inl same ↦ rw same i
    | inr free ↦ rw free free_slot-IsIdle
  ]

  join-gprofiler :
      (name : SlotName) (thread : Option Worker) (s : State)
      → (slot_of name s).gprofiler ≡ none
      → (slot_of name (join env thread s)).gprofiler ≡ none
  join-gprofiler name thread s h = elim (join-slot name thread s) [
    | inl same ↦ rw same h
    | inr free ↦ rw free
  ]

  forget_thread-gprofiler :
      (thread : Option Worker) (x : Slot)
      → x.gprofiler ≡ none
      → (forget_thread env thread x).gprofiler ≡ none
  forget_thread-gprofiler none x h = h
  forget_thread-gprofiler (some w) x h = h

  -- The slot that is stopped is idle, whether or not its thread ends in time.
  pub stop_slot-IsIdle :
      (name : SlotName) (s : State) → IsIdle (slot_of name (stop_slot env name s))
  unfolding stop_slot
  stop_slot-IsIdle continuous_slot s = record {
    no_profiler =
        forget_thread-gprofiler (live_thread env s.continuous s) _
          (join-gprofiler continuous_slot _ _ refl);
    no_command = refl;
    no_types = refl;
  }
  stop_slot-IsIdle adhoc_slot s = record {
    no_profiler =
        forget_thread-gprofiler (live_thread env s.adhoc s) _ (join-gprofiler adhoc_slot _ _ refl);
    no_command = refl;
    no_types = refl;
  }

  -- Stopping the ad-hoc slot leaves an idle continuous slot idle, and the other way round.
  pub stop_adhoc-continuous :
      (s : State) → IsIdle s.continuous → IsIdle (stop_slot env adhoc_slot s).continuous
  unfolding stop_slot
  stop_adhoc-continuous s i = join-IsIdle continuous_slot _ _ i

  pub stop_continuous-adhoc :
      (s : State) → IsIdle s.adhoc → IsIdle (stop_slot env continuous_slot s).adhoc
  unfolding stop_slot
  stop_continuous-adhoc s i = join-IsIdle adhoc_slot _ _ i

  pub stop_slot-sent : (name : SlotName) (s : State) → (stop_slot env name s).sent ≡ s.sent
  unfolding stop_slot
  stop_slot-sent continuous_slot s = join-sent _ _
  stop_slot-sent adhoc_slot s = join-sent _ _

  pub stop_slot-stop_event :
      (name : SlotName) (s : State) → (stop_slot env name s).stop_event ≡ s.stop_event
  unfolding stop_slot
  stop_slot-stop_event continuous_slot s = join-stop_event _ _
  stop_slot-stop_event adhoc_slot s = join-stop_event _ _

  -- A stop command that is processed never raises, leaves both slots without profiler, command and
  -- types, whether or not their threads end in time, empties all the queues, and is reported once, as
  -- completed.
  pub process_stop-IsIdle :
      (cmd : ProfilingCommand) (s : State)
      → is_stop cmd ≡ true
      → (t : State) × (process_command env cmd s ≡ ok t)
        × IsIdle t.continuous
        × IsIdle t.adhoc
        × (t.queues ≡ empty_queues)
        × (t.sent ≡ record { completed_id = cmd.command_id; status = completed } ∷ s.sent)
  unfolding process_command process_stop report_completed clear_queues
  process_stop-IsIdle cmd s stop =
      let s' = stop_slot env continuous_slot s in
      (
        process_stop env cmd s,
        simp stop,
        stop_adhoc-continuous s' (stop_slot-IsIdle continuous_slot s),
        stop_slot-IsIdle adhoc_slot s',
        refl,
        simp (stop_slot-sent),
      )

  -- Once the agent was stopped, both slots are idle, nothing is queued, and no answer of the server
  -- changes the state any more.
  pub shutdown-final :
      (s : State) (reply : Reply)
      → let t = step env shutdown s in
        IsIdle t.continuous
        × IsIdle t.adhoc
        × (t.queues ≡ empty_queues)
        × (step env (heartbeat reply) t ≡ t)
  unfolding step stop_manager clear_queues
  shutdown-final s reply =
      let s' = stop_slot env continuous_slot (record s { stop_event = true }) in
      (
        stop_adhoc-continuous s' (stop_slot-IsIdle continuous_slot _),
        stop_slot-IsIdle adhoc_slot s',
        refl,
        simp stop_slot-stop_event,
      )
