-- ===== src/DynamicProfiling/Manager/Enqueue.antt =====
-- A command that the server repeats, gprofiler/dynamic_profiling_management/heartbeat.py.
use gprofiler.Prelude.{◌<◌, String, ◌≡◌, refl, ap, inl, inr, true, false}
use gprofiler.Prelude.Tests.{Bool-cases}
use gprofiler.Prelude.Lists.{length, contains}
use gprofiler.Prelude.Result.{Result, ok, err}
use gprofiler.DynamicProfiling.Json.{Json, Fields}
use gprofiler.DynamicProfiling.Queues.{ProfilingCommand}
use gprofiler.DynamicProfiling.Client.{mark_command_received, max_command_history}
use gprofiler.DynamicProfiling.Client.History.{contains-mark}
use gprofiler.DynamicProfiling.Slots.{State, Env}
use gprofiler.DynamicProfiling.Manager.{
  command_id_of, received, parsed_command, put_command, enqueue_named, enqueue_id, enqueue_response,
}

module _ (env : Env) where
  put_command-client :
      (r : Result ProfilingCommand) (s : State) → (put_command env r s).0.client ≡ s.client
  put_command-client (ok c) s = refl
  put_command-client (err e) s = refl

  enqueue_known :
      (i : String) (v : Json) (s : State)
      → contains i s.client.received_command_ids ≡ true
      → enqueue_named env i v s ≡ (s, false)
  enqueue_known i v s old = simp old

  received-contains :
      (i : String) (r : Result ProfilingCommand) (s : State)
      → length s.client.received_command_ids < max_command_history
      → contains i (put_command env r (received env i s)).0.client.received_command_ids ≡ true
  unfolding mark_command_received
  received-contains i r s room =
      rw (put_command-client r (received env i s))
        (contains-mark env.set_order i s.client.received_command_ids room)

  enqueue_named_twice :
      (i : String) (v : Json) (s : State)
      → length s.client.received_command_ids < max_command_history
      → (enqueue_named env i v (enqueue_named env i v s).0).0 ≡ (enqueue_named env i v s).0
  enqueue_named_twice i v s room = elim (Bool-cases (contains i s.client.received_command_ids)) [
    | inl old ↦ simp old
    | inr new ↦
        simp new (
          ap (λ p. p.0) (enqueue_known i v _ (received-contains i (parsed_command env i v) s room)))
  ]

  enqueue_id_twice :
      (r : Result String) (response : Fields) (s : State)
      → length s.client.received_command_ids < max_command_history
      → (enqueue_id env r response (enqueue_id env r response s).0).0
        ≡ (enqueue_id env r response s).0
  enqueue_id_twice (ok i) response s room = enqueue_named_twice i _ s room
  enqueue_id_twice (err e) response s room = refl

  -- While fewer than `max_command_history` commands were received, an answer that comes twice changes
  -- the state once: the repeated command is neither queued nor marked again.
  enqueue_response-twice :
      (response : Fields) (s : State)
      → length s.client.received_command_ids < max_command_history
      → let t = (enqueue_response env response s).0 in (enqueue_response env response t).0 ≡ t
  unfolding enqueue_response
  enqueue_response-twice response s room =
      enqueue_id_twice (command_id_of env response) response s room
