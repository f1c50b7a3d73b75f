-- ===== src/DynamicProfiling/Slots/Lifecycle.antt =====
-- Starting, stopping and cleaning up a slot (gprofiler/dynamic_profiling_management/__init__.py,
-- continuous.py, ad_hoc.py).
use gprofiler.Prelude.{ℕ, ◌+◌, String, Bool, true, false, Option, none, some, List, ◌∷◌}
use gprofiler.Prelude.Tests.{if◌then◌else◌}
use gprofiler.Prelude.Result.{Exn, Result, ok, err, ◌>>=◌}
use gprofiler.DynamicProfiling.Json.{str, bool, obj, Fields, end, get, as_dict, truthy}
use gprofiler.DynamicProfiling.ProfilerTypes.{get_enabled_profiler_types}
use gprofiler.DynamicProfiling.Args.{create_profiler_args}
use gprofiler.DynamicProfiling.Args.Perf.{Namespace}
use gprofiler.DynamicProfiling.Slots.{
  SlotName, continuous_slot, adhoc_slot, Slot, Worker, start_failed, State, Env, slot_of, put_slot,
  send, clear_state, is_alive, same_instance, end_worker,
}

module _ (env : Env) where
  -- `create_gprofiler_instance`: no instance for no arguments.
  unfoldable pub create_gprofiler_instance : Option Namespace → Result Bool
  create_gprofiler_instance none = ok false
  create_gprofiler_instance (some args) = do _ ← env.create_instance args; ok true

  -- The part of `_start_profiler` before the slot's fields are set: is there an instance?
  unfoldable pub make_instance : Fields → Result Bool
  make_instance profiling_command = do
    args ← create_profiler_args env.outside env.base_args profiling_command
    create_gprofiler_instance args

  -- The slot and the thread of a started profiler.
  abbrev pub started_slot : Option ℕ → ℕ → Fields → String → Bool → List String → Slot
  started_slot made n profiling_command i continuous types = record {
    gprofiler = made;
    thread = some n;
    command = some (record {
      command_id = i;
      command_type = str "start";
      profiling_command = profiling_command;
      is_continuous = continuous;
      is_paused = false;
    });
    profiler_types = types;
  }

  abbrev pub instance_of : Bool → ℕ → Option ℕ
  instance_of made n = if made then some n else none

  -- The thread is started with the slot's fields set.
  abbrev pub launch : SlotName → Bool → Fields → String → Bool → List String → State → State
  launch name made profiling_command i continuous types s =
      let n = s.next_number in
      let x = started_slot (instance_of made n) n profiling_command i continuous types in
      put_slot name x (record s {
        live =
            record {
              number = n;
              instance_number = instance_of made n;
              slot = name;
              worker_command = i;
            }
            ∷ s.live;
        next_number = n + 1;
      })

  -- The `except` clause of `start`: the failure is reported and the slot's command cleared.
  unfoldable pub fail_start : SlotName → String → Exn → State → State
  fail_start name i e s = put_slot name (clear_state (slot_of name s)) (send i (start_failed e) s)

  -- An exception in `get_enabled_profiler_types` leaves the instance in the slot.
  abbrev pub with_types :
      SlotName → Bool → Fields → String → Bool → Result (List String) → State → State
  with_types name made profiling_command i continuous (ok types) s =
      launch name made profiling_command i continuous types s
  with_types name made profiling_command i continuous (err e) s =
      fail_start name i e
        (put_slot name (record (slot_of name s) { gprofiler = instance_of made s.next_number }) s)

  abbrev pub with_instance : SlotName → Fields → String → Bool → Result Bool → State → State
  with_instance name profiling_command i continuous (ok made) s =
      with_types name made profiling_command i continuous
        (get_enabled_profiler_types profiling_command) s
  with_instance name profiling_command i continuous (err e) s = fail_start name i e s

  unfoldable pub start_adhoc : Fields → String → State → State
  start_adhoc profiling_command i s =
      with_instance adhoc_slot profiling_command i false (make_instance profiling_command) s

  -- combined_config.get("continuous", False)
  abbrev pub continuous_flag : Fields → Result Bool
  continuous_flag profiling_command = do
    config ← as_dict (get "combined_config" (obj end) profiling_command)
    ok (truthy (get "continuous" (bool false) config))

  abbrev pub with_flag : Fields → String → Result Bool → State → State
  with_flag profiling_command i (ok continuous) s =
      with_instance continuous_slot profiling_command i continuous (make_instance profiling_command)
        s
  with_flag profiling_command i (err e) s = fail_start continuous_slot i e s

  unfoldable pub start_continuous : Fields → String → State → State
  start_continuous profiling_command i s =
      with_flag profiling_command i (continuous_flag profiling_command) s

  -- The worker of that number among the live ones.
  abbrev pub find_worker : ℕ → List Worker → Option Worker
  find_worker n List.[] = none
  find_worker n (w ∷ ws) =
      let r = find_worker n ws in if same_instance n (some w.number) then some w else r

  -- `thread.join(timeout=10)`: the thread may end meanwhile.
  abbrev pub join : Option Worker → State → State
  join none s = s
  join (some w) s = if env.joins w.number then end_worker w s else s

  abbrev pub forget_thread : Option Worker → Slot → Slot
  forget_thread none x = x
  forget_thread (some w) x = record x { thread = none }

  -- The thread of a slot, if it is alive.
  abbrev pub live_thread : Slot → State → Option Worker
  live_thread x s = elim x.thread [ none ↦ none | some n ↦ find_worker n s.live ]

  -- Exceptions of the profiler's own `stop` are logged and change nothing here.
  unfoldable pub stop_slot : SlotName → State → State
  stop_slot name s =
      let x = slot_of name s in
      let thread = live_thread x s in
      let joined = join thread (put_slot name (record x { gprofiler = none }) s) in
      put_slot name (clear_state (forget_thread thread (slot_of name joined))) joined

  unfoldable pub cleanup_if_completed : State → State
  cleanup_if_completed s = elim s.adhoc.thread [
    | none ↦ s
    | some n ↦
        if is_alive n s.live
        then s
        else record s { adhoc = clear_state (record s.adhoc { gprofiler = none; thread = none }) }
  ]
