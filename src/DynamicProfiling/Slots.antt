-- ===== src/DynamicProfiling/Slots.antt =====
-- `ProfilerSlotBase`, `ContinuousProfilerSlot` and `AdhocProfilerSlot`
-- (gprofiler/dynamic_profiling_management/__init__.py, continuous.py, ad_hoc.py), over the whole state
-- that the slots and their threads share.
-- A started profiler is a worker: its number stands for the `GProfiler` object and for the thread.
-- `command_start_time` is only written, and is left out.
pub mod Lifecycle
pub mod Started
use gprofiler.Prelude.{ℕ, String, Bool, true, false, ◌||◌, Option, none, some, List, [], ◌∷◌, ◌==◌}
use gprofiler.Prelude.Tests.{if◌then◌else◌, eqb, is_some}
use gprofiler.Prelude.Lists.{disjoint}
use gprofiler.Prelude.Result.{Exn, Result, ok, err, ◌>>=◌}
use gprofiler.DynamicProfiling.Queues.{ProfilingCommand, CommandManager, dequeue_command}
use gprofiler.DynamicProfiling.ProfilerTypes.{get_enabled_profiler_types}
use gprofiler.DynamicProfiling.Args.{Outside}
use gprofiler.DynamicProfiling.Args.Perf.{Namespace}
use gprofiler.DynamicProfiling.Client.{Client}

pub data SlotName : Type 0 where
  continuous_slot adhoc_slot : SlotName

pub record Slot : Type 0 where
  pub gprofiler : Option ℕ
  pub thread : Option ℕ
  pub command : Option ProfilingCommand
  pub profiler_types : List String

abbrev pub free_slot : Slot
free_slot = record { gprofiler = none; thread = none; command = none; profiler_types = [] }

-- The thread of a started profiler, with the arguments of `_run_profiler`.
pub record Worker : Type 0 where
  pub number : ℕ
  pub instance_number : Option ℕ
  pub slot : SlotName
  pub worker_command : String

pub data Status : Type 0 where
  completed : Status
  unknown_type : Status
  start_failed : Exn → Status

-- A call of `send_command_completion`, which never raises.
pub record Completion : Type 0 where
  pub completed_id : String
  pub status : Status

pub record State : Type 0 where
  pub queues : CommandManager
  pub continuous : Slot
  pub adhoc : Slot
  pub client : Client
  pub live : List Worker  -- the threads that have not ended
  pub next_number : ℕ
  pub sent : List Completion  -- the last one first
  pub stop_event : Bool

-- What the manager finds outside: see `Outside`; whether `create_gprofiler_instance` raises, how a set is
-- listed, and which threads end within the time that `stop` waits for them.
pub record Env : Type 0 where
  pub outside : Outside
  pub base_args : Namespace
  pub create_instance : Namespace → Result (Unit {0})
  pub set_order : List String → List String
  pub joins : ℕ → Bool

abbrev pub slot_of : SlotName → State → Slot
slot_of continuous_slot s = s.continuous
slot_of adhoc_slot s = s.adhoc

abbrev pub put_slot : SlotName → Slot → State → State
put_slot continuous_slot x s = record s { continuous = x }
put_slot adhoc_slot x s = record s { adhoc = x }

abbrev pub send : String → Status → State → State
send i status s = record s { sent = record { completed_id = i; status = status } ∷ s.sent }

abbrev pub is_running : Slot → Bool
is_running x = is_some x.gprofiler

abbrev pub is_command : String → Option ProfilingCommand → Bool
is_command i none = false
is_command i (some c) = c.command_id == i

abbrev pub is_running_command : String → Slot → Bool
is_running_command i x = is_command i x.command

-- `can_be_paused` of the continuous slot.
abbrev pub is_pausable : Option ProfilingCommand → Bool
is_pausable none = false
is_pausable (some c) = c.is_continuous

abbrev pub can_be_paused : Slot → Bool
can_be_paused x = is_pausable x.command

abbrev pub clear_state : Slot → Slot
clear_state x = record x { command = none; profiler_types = [] }

-- `can_run` of the ad-hoc slot.
unfoldable pub can_run : ProfilingCommand → List String → Slot → Result Bool
can_run cmd current x =
    if is_running x
    then ok false
    else if cmd.is_continuous
    then ok false
    else do types ← get_enabled_profiler_types cmd.profiling_command; ok (disjoint types current)

-- Is the thread of that number still running?
abbrev pub is_alive : ℕ → List Worker → Bool
is_alive n [] = false
is_alive n (w ∷ ws) = eqb w.number n || is_alive n ws

abbrev pub without : ℕ → List Worker → List Worker
without n [] = []
without n (w ∷ ws) = let r = without n ws in if eqb w.number n then r else w ∷ r

-- `self.gprofiler == gprofiler`
abbrev pub same_instance : ℕ → Option ℕ → Bool
same_instance n none = false
same_instance n (some m) = eqb m n

-- The `finally` block of `_run_profiler`.
unfoldable pub finish_run : ℕ → Worker → State → State
finish_run n w s =
    let s' = record s { queues = (dequeue_command w.worker_command s.queues).0 } in
    if same_instance n (slot_of w.slot s').gprofiler then put_slot w.slot free_slot s' else s'

-- A thread ends. Without a profiler it returned at once, before the `try`.
unfoldable pub end_worker : Worker → State → State
end_worker w s =
    let s' = record s { live = without w.number s.live } in
    elim w.instance_number [ none ↦ s' | some n ↦ finish_run n w s' ]
