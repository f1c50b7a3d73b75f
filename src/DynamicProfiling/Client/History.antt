-- ===== src/DynamicProfiling/Client/History.antt =====
-- What `HeartbeatClient` of gprofiler/dynamic_profiling_management/heartbeat.py remembers of the commands.
use gprofiler.Prelude.{
  ◌+◌, ◌-◌, ◌≤◌, ◌<◌, String, ◌≡◌, true, false, List, [], ◌∷◌, ◌++◌, arith, eq_iff,
}
use gprofiler.Prelude.Lists.{length, length-append, length-drop, contains}
use gprofiler.Prelude.Python.{add, contains-add}
use gprofiler.DynamicProfiling.Client.{max_command_history, trim_set, mark}

length-add-le : (i : String) (ids : List String) → length (add i ids) ≤ length ids + 1
unfolding add
length-add-le i ids = ground (arith, length-append ids (i ∷ []))

module _ (order : List String → List String) where
  -- Where listing a set gives all its members, a set of identifiers never holds more than
  -- `max_command_history` of them after one more was marked.
  length-mark-le :
      (i : String) (ids : List String)
      → ((xs : List String) → length (order xs) ≡ length xs)
      → length (mark order i ids) ≤ max_command_history
  unfolding mark trim_set
  length-mark-le i ids all =
      let xs = add i ids in
      ground (arith, all xs, length-drop (length (order xs) - max_command_history) (order xs))

  -- While there is room, what was marked is remembered.
  pub contains-mark :
      (i : String) (ids : List String)
      → length ids < max_command_history
      → contains i (mark order i ids) ≡ true
  unfolding mark
  contains-mark i ids room = ground (arith, length-add-le i ids, contains-add i i ids, eq_iff i i)

  -- With a full set, and where Python happens to list the new identifier first, marking forgets it at
  -- once.
  mark_forgets :
      (i : String) (ids : List String)
      → length ids ≡ max_command_history
      → contains i ids ≡ false
      → order (ids ++ (i ∷ [])) ≡ i ∷ ids
      → contains i (mark order i ids) ≡ false
  unfolding mark trim_set add
  mark_forgets i ids full new first = simp (new, first, length-append {0}, full)
