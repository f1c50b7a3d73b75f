-- ===== src/DynamicProfiling/Queues.antt =====
-- gprofiler/dynamic_profiling_management/command_control.py: the command queues.
-- The lock makes each method one step. `timestamp` is never read and is left out.
pub mod Order
pub mod Removal
pub mod Kept
use gprofiler.Prelude.{
  String, Bool, true, false, not, ◌||◌, Option, none, some, List, [], ◌∷◌, ◌++◌, ◌==◌,
}
use gprofiler.Prelude.Tests.{if◌then◌else◌}
use gprofiler.Prelude.Lists.{is_empty}
use gprofiler.DynamicProfiling.Json.{Json, Fields, is_text}

pub record ProfilingCommand : Type 0 where
  pub command_id : String
  pub command_type : Json
  pub profiling_command : Fields
  pub is_continuous : Bool
  pub is_paused : Bool

pub record CommandManager : Type 0 where
  pub stop_queue : List ProfilingCommand
  pub adhoc_queue : List ProfilingCommand
  pub continuous_queue : List ProfilingCommand

abbrev pub empty_queues : CommandManager
empty_queues = record { stop_queue = []; adhoc_queue = []; continuous_queue = [] }

abbrev pub is_stop : ProfilingCommand → Bool
is_stop c = is_text "stop" c.command_type

unfoldable pub enqueue_command : ProfilingCommand → CommandManager → CommandManager
enqueue_command c q =
    if is_stop c
    then record q { stop_queue = q.stop_queue ++ (c ∷ []) }
    else if c.is_continuous
    then record q { continuous_queue = c ∷ [] }
    else record q { adhoc_queue = q.adhoc_queue ++ (c ∷ []) }

-- The first that is there.
abbrev first_of_three :
    List ProfilingCommand → List ProfilingCommand → List ProfilingCommand → Option ProfilingCommand
first_of_three (c ∷ _) _ _ = some c
first_of_three [] (c ∷ _) _ = some c
first_of_three [] [] (c ∷ _) = some c
first_of_three [] [] [] = none

-- A peek: the command stays in its queue.
unfoldable pub get_next_command : CommandManager → Option ProfilingCommand
get_next_command q = first_of_three q.stop_queue q.adhoc_queue q.continuous_queue

-- queue and queue[0].command_id == command_id
abbrev pub at_head : String → List ProfilingCommand → Bool
at_head i [] = false
at_head i (c ∷ _) = c.command_id == i

-- popleft
abbrev pub rest : List ProfilingCommand → List ProfilingCommand
rest [] = []
rest (_ ∷ cs) = cs

-- queue[0].is_paused
abbrev pub head_paused : List ProfilingCommand → Bool
head_paused [] = false
head_paused (c ∷ _) = c.is_paused

-- queue[0].is_paused = True
abbrev pub pause_head : List ProfilingCommand → List ProfilingCommand
pause_head [] = []
pause_head (c ∷ cs) = record c { is_paused = true } ∷ cs

unfoldable pub dequeue_command : String → CommandManager → CommandManager × Bool
dequeue_command i q =
    if at_head i q.stop_queue
    then (record q { stop_queue = rest q.stop_queue }, true)
    else if at_head i q.adhoc_queue
    then (record q { adhoc_queue = rest q.adhoc_queue }, true)
    else if at_head i q.continuous_queue
    then (if head_paused q.continuous_queue
        then (q, false)
        else (record q { continuous_queue = rest q.continuous_queue }, true))
    else (q, false)

unfoldable pub pause_command : String → CommandManager → CommandManager × Bool
pause_command i q =
    if at_head i q.stop_queue
    then (q, false)
    else if at_head i q.adhoc_queue
    then (q, false)
    else if at_head i q.continuous_queue
    then (record q { continuous_queue = pause_head q.continuous_queue }, true)
    else (q, false)

unfoldable pub has_queued_commands : CommandManager → Bool
has_queued_commands q =
    not (is_empty q.stop_queue)
    || (not (is_empty q.adhoc_queue) || not (is_empty q.continuous_queue))

unfoldable pub clear_queues : CommandManager → CommandManager
clear_queues q = record { stop_queue = []; adhoc_queue = []; continuous_queue = [] }
