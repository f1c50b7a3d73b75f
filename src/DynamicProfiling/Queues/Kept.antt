-- ===== src/DynamicProfiling/Queues/Kept.antt =====
-- What the removal from the queues of gprofiler/dynamic_profiling_management/command_control.py, and a pause,
-- keep of them.
use gprofiler.Prelude.{◌≤◌, String, ◌≡◌, true, false, List, [], ◌∷◌, arith}
use gprofiler.Prelude.Lists.{All, length}
use gprofiler.DynamicProfiling.Queues.{
  ProfilingCommand, CommandManager, is_stop, rest, head_paused, pause_head, dequeue_command,
  pause_command,
}
use gprofiler.DynamicProfiling.Queues.Order.{IsSorted}

All-rest : (P : ProfilingCommand → Type 0) (cs : List ProfilingCommand) → All P cs → All P (rest cs)
All-rest P [] h = h
All-rest P (c ∷ cs) h = h.1

length-rest : (cs : List ProfilingCommand) → length cs ≤ 1 → length (rest cs) ≤ 1
length-rest [] h = omega arith
length-rest (c ∷ cs) h = omega arith

pub dequeue_command-IsSorted :
    (i : String) (q : CommandManager) → IsSorted q → IsSorted (dequeue_command i q).0
unfolding dequeue_command
dequeue_command-IsSorted i q s =
    let stops = All-rest _ q.stop_queue s.stops in
    let adhocs = All-rest _ q.adhoc_queue s.adhocs in
    let continuous = All-rest _ q.continuous_queue s.continuous in
    let one = length-rest q.continuous_queue s.one_continuous in ground arith

-- A paused continuous command at the head of its queue stays there whatever identifier is dequeued,
-- and stays paused whatever identifier is paused.
pub paused_stays :
    (i : String) (q : CommandManager)
    → head_paused q.continuous_queue ≡ true
    → ((dequeue_command i q).0.continuous_queue ≡ q.continuous_queue)
      × (head_paused (pause_command i q).0.continuous_queue ≡ true)
unfolding dequeue_command pause_command
paused_stays i q h = ground arith

pub pause_command-IsSorted :
    (i : String) (q : CommandManager) → IsSorted q → IsSorted (pause_command i q).0
unfolding pause_command
pause_command-IsSorted i q s =
    let (kinds, one) = pause_head-sorted q.continuous_queue s.continuous s.one_continuous in
    ground arith
  where
    pause_head-sorted :
        (cs : List ProfilingCommand)
        → All (λ c. (is_stop c ≡ false) × (c.is_continuous ≡ true)) cs
        → length cs ≤ 1
        → All (λ c. (is_stop c ≡ false) × (c.is_continuous ≡ true)) (pause_head cs)
          × (length (pause_head cs) ≤ 1)
    pause_head-sorted [] h k = (tt, k)
    pause_head-sorted (c ∷ cs) h k = (h, k)
