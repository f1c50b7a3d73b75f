-- ===== src/DynamicProfiling/Tests/Queues.antt =====
-- Runs of the queues and of the client's history.
use gprofiler.Prelude.{ℕ, zero, suc, String, ◌≡◌, refl, List, [], ◌∷◌, ◌++◌, arith}
use gprofiler.DynamicProfiling.Queues.{
  CommandManager, enqueue_command, get_next_command, dequeue_command, pause_head,
}
use gprofiler.DynamicProfiling.Queues.Order.{
  IsSorted, pending, place, first, pending-enqueue_command, get_next_command-first,
}
use gprofiler.DynamicProfiling.Queues.Removal.{heads, find_named, Outcome, dequeue_command-Removed}
use gprofiler.DynamicProfiling.Client.{take_last}
use gprofiler.DynamicProfiling.Tests.{stop_command, busy_queues}

busy-IsSorted : IsSorted busy_queues
busy-IsSorted = record {
  stops = tt;
  adhocs = ((refl, refl), tt);
  continuous = ((refl, refl), tt);
  one_continuous = omega arith;
}

pending-enqueue_command_example :
    pending (enqueue_command stop_command busy_queues) ≡ place stop_command (pending busy_queues)
pending-enqueue_command_example = pending-enqueue_command stop_command busy_queues busy-IsSorted

get_next_command-first_example : get_next_command busy_queues ≡ first (pending busy_queues)
get_next_command-first_example = get_next_command-first busy_queues

dequeue_command-Removed_example :
    Outcome "a" busy_queues (find_named "a" (heads busy_queues)) (dequeue_command "a" busy_queues)
dequeue_command-Removed_example = dequeue_command-Removed "a" busy_queues

abbrev paused_queues : CommandManager
paused_queues = record busy_queues { continuous_queue = pause_head busy_queues.continuous_queue }

abbrev same_order : List String → List String
same_order ids = ids

abbrev copies : ℕ → List String
copies zero = []
copies (suc n) = "a" ∷ copies n

-- An order that lists the last identifier first.
abbrev last_first : List String → List String
last_first ids = take_last 1 ids ++ copies 1000
