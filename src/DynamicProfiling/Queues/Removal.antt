-- ===== src/DynamicProfiling/Queues/Removal.antt =====
-- What leaves the queues of gprofiler/dynamic_profiling_management/command_control.py.
use mathlib.Core.List.{append-nil, append_assoc}
use gprofiler.Prelude.{
  String, ◌≡◌, refl, sym, ◌∙◌, inl, inr, Bool, true, false, ◌&&◌, Option, none, some, List, [], ◌∷◌,
  ◌++◌, arith, eq_iff, ◌==◌,
}
use gprofiler.Prelude.Tests.{if◌then◌else◌, Bool-cases}
use gprofiler.DynamicProfiling.Queues.{
  ProfilingCommand, CommandManager, get_next_command, at_head, rest, head_paused, dequeue_command,
}
use gprofiler.DynamicProfiling.Queues.Order.{pending}

-- `ds` is `cs` without one command, whose identifier is `i`.
pub record Removed (i : String) (cs ds : List ProfilingCommand) : Type 0 where
  pub before : List ProfilingCommand
  pub command : ProfilingCommand
  pub after : List ProfilingCommand
  pub was : cs ≡ before ++ (command ∷ after)
  pub left : ds ≡ before ++ after
  pub named : command.command_id ≡ i

Removed-under :
    (i : String) (before cs ds : List ProfilingCommand)
    → Removed i cs ds
    → Removed i (before ++ cs) (before ++ ds)
Removed-under i before cs ds r = record {
  before = before ++ r.before;
  command = r.command;
  after = r.after;
  was = rw r.was (sym (append_assoc before r.before (r.command ∷ r.after)));
  left = rw r.left (sym (append_assoc before r.before r.after));
  named = r.named;
}

Removed-head :
    (i : String) (cs after : List ProfilingCommand)
    → at_head i cs ≡ true
    → Removed i (cs ++ after) (rest cs ++ after)
Removed-head i [] after h = cc
Removed-head i (c ∷ cs) after h = record {
  before = [];
  command = c;
  after = cs ++ after;
  was = refl;
  left = refl;
  named = (eq_iff c.command_id i).0 h;
}

-- The commands that can be dequeued: the first one of each queue, in the order the queues are served, with
-- whether that is the continuous queue.
abbrev head_of : Bool → List ProfilingCommand → List (Bool × ProfilingCommand)
head_of continuous [] = []
head_of continuous (c ∷ cs) = (continuous, c) ∷ []

unfoldable pub heads : CommandManager → List (Bool × ProfilingCommand)
heads q =
    head_of false q.stop_queue ++ (head_of false q.adhoc_queue ++ head_of true q.continuous_queue)

unfoldable pub find_named :
    String → List (Bool × ProfilingCommand) → Option (Bool × ProfilingCommand)
find_named i [] = none
find_named i ((continuous, c) ∷ more) =
    let later = find_named i more in if c.command_id == i then some (continuous, c) else later

-- What must come of the command that is found.
abbrev pub Outcome :
    String → CommandManager → Option (Bool × ProfilingCommand) → CommandManager × Bool → Type 0
Outcome i q none (q', done) = (q' ≡ q) × (done ≡ false)
Outcome i q (some (continuous, c)) (q', done) =
    if continuous && c.is_paused
    then ((q' ≡ q) × (done ≡ false))
    else ((r : Removed i (pending q) (pending q')) × (r.command ≡ c) × (done ≡ true))

-- The head of a queue that has the identifier.
record Found (continuous : Bool) (i : String) (cs : List ProfilingCommand) : Type 0 where
  head_command : ProfilingCommand
  found :
      (more : List (Bool × ProfilingCommand))
      → find_named i (head_of continuous cs ++ more) ≡ some (continuous, head_command)
  paused : head_paused cs ≡ head_command.is_paused
  removed :
      (after : List ProfilingCommand)
      → (r : Removed i (cs ++ after) (rest cs ++ after)) × (r.command ≡ head_command)

Found-head :
    (continuous : Bool) (i : String) (cs : List ProfilingCommand)
    → at_head i cs ≡ true
    → Found continuous i cs
unfolding find_named Removed-head
Found-head continuous i [] h = cc
Found-head continuous i (c ∷ cs) h = record {
  head_command = c;
  found = λ more. simp h refl;
  paused = refl;
  removed = λ after. (Removed-head i (c ∷ cs) after h, refl);
}

find_named-skip :
    (continuous : Bool) (i : String) (cs : List ProfilingCommand)
    (more : List (Bool × ProfilingCommand))
    → at_head i cs ≡ false
    → find_named i (head_of continuous cs ++ more) ≡ find_named i more
unfolding find_named
find_named-skip continuous i [] more h = refl
find_named-skip continuous i (c ∷ cs) more h = simp h refl

Removed-last :
    (continuous : Bool) (i : String) (cs : List ProfilingCommand) (f : Found continuous i cs)
    → (r : Removed i cs (rest cs)) × (r.command ≡ f.head_command)
Removed-last continuous i cs f = rw (append-nil, append-nil) at (f.removed [])

-- Dequeuing by an identifier looks for it at the head of the stop, the ad-hoc and the continuous queue, in
-- this order. If a head has it, that command alone is taken away from the pending ones and true reported,
-- unless it is a paused one of the continuous queue; then, and if no head has it, nothing changes and
-- false is reported.
pub dequeue_command-Removed :
    (i : String) (q : CommandManager) → Outcome i q (find_named i (heads q)) (dequeue_command i q)
unfolding dequeue_command heads find_named Removed-under
dequeue_command-Removed i q =
    let adhocs = head_of false q.adhoc_queue in
    let continuous = head_of true q.continuous_queue in
    elim (Bool-cases (at_head i q.stop_queue)) [
      | inl stop ↦
          let f = Found-head false i q.stop_queue stop in
          let r = f.removed (q.adhoc_queue ++ q.continuous_queue) in
          simp (stop, f.found (adhocs ++ continuous)) (r.0, r.1, refl)
      | inr no_stop ↦
          let skip = find_named-skip false i q.stop_queue (adhocs ++ continuous) no_stop in
          elim (Bool-cases (at_head i q.adhoc_queue)) [
            | inl adhoc ↦
                let f = Found-head false i q.adhoc_queue adhoc in
                let r = f.removed q.continuous_queue in
                simp (no_stop, adhoc, skip, f.found continuous)
                  (Removed-under i q.stop_queue _ _ r.0, r.1, refl)
            | inr no_adhoc ↦
                let skip' = find_named-skip false i q.adhoc_queue continuous no_adhoc in
                elim (Bool-cases (at_head i q.continuous_queue)) [
                  | inl long ↦
                      let f = Found-head true i q.continuous_queue long in
                      let found = rw append-nil at (f.found []) in
                      let r = Removed-last true i q.continuous_queue f in
                      elim (Bool-cases f.head_command.is_paused) [
                        | inl paused ↦
                            let held : head_paused q.continuous_queue ≡ true = f.paused ∙ paused in
                            simp (no_stop, no_adhoc, long, skip, skip', found, paused, held)
                              (refl, refl)
                        | inr runs ↦
                            let free : head_paused q.continuous_queue ≡ false = f.paused ∙ runs in
                            simp (no_stop, no_adhoc, long, skip, skip', found, runs, free)
                              (
                                Removed-under i q.stop_queue _ _
                                    (Removed-under i q.adhoc_queue _ _ r.0),
                                r.1,
                                refl,
                              )
                      ]
                  | inr none_there ↦
                      let none_found : find_named i (continuous ++ []) ≡ none =
                        find_named-skip true i q.continuous_queue [] none_there in
                      let none_found' = rw append-nil at none_found in
                      simp (no_stop, no_adhoc, none_there, skip, skip', none_found') (refl, refl)
                ]
          ]
    ]

-- After the next command was read, and unless it is marked as paused, dequeuing by its identifier
-- reports true, takes the first pending command away and keeps the others in their order.
dequeue-get_next_command :
    (q : CommandManager) (c : ProfilingCommand)
    → get_next_command q ≡ some c
    → c.is_paused ≡ false
    → (pending (dequeue_command c.command_id q).0 ≡ rest (pending q))
      × ((dequeue_command c.command_id q).1 ≡ true)
unfolding dequeue_command get_next_command
dequeue-get_next_command q c h p = served q.stop_queue q.adhoc_queue q.continuous_queue h
  where
    served :
        (xs ys zs : List ProfilingCommand)
        → let q' : CommandManager = record {
          stop_queue = xs;
          adhoc_queue = ys;
          continuous_queue = zs;
        } in
          get_next_command q' ≡ some c
          → (pending (dequeue_command c.command_id q').0 ≡ rest (pending q'))
            × ((dequeue_command c.command_id q').1 ≡ true)
    served [] [] [] h = cc
    served [] [] (x ∷ xs) h = ground (arith, eq_iff x.command_id c.command_id)
    served [] (x ∷ xs) zs h = ground (arith, eq_iff x.command_id c.command_id)
    served (x ∷ xs) ys zs h = ground (arith, eq_iff x.command_id c.command_id)
