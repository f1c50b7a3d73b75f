-- ===== src/DynamicProfiling/Queues/Order.antt =====
-- The three queues of gprofiler/dynamic_profiling_management/command_control.py as one list of pending
-- commands.
use mathlib.Core.List.{append_assoc}
use gprofiler.Prelude.{
  ℕ, ◌≤◌, ◌≡◌, refl, inl, inr, true, false, not, ◌&&◌, Option, none, some, List, [], ◌∷◌, ◌++◌,
  arith,
}
use gprofiler.Prelude.Tests.{if◌then◌else◌, leb, eqb, Bool-cases}
use gprofiler.Prelude.Lists.{All, All-append, length}
use gprofiler.DynamicProfiling.Queues.{
  ProfilingCommand, CommandManager, is_stop, enqueue_command, get_next_command,
}

-- What each queue may hold. The continuous queue never holds two commands.
pub record IsSorted (q : CommandManager) : Type 0 where
  pub stops : All (λ c. is_stop c ≡ true) q.stop_queue
  pub adhocs : All (λ c. (is_stop c ≡ false) × (c.is_continuous ≡ false)) q.adhoc_queue
  pub continuous : All (λ c. (is_stop c ≡ false) × (c.is_continuous ≡ true)) q.continuous_queue
  pub one_continuous : length q.continuous_queue ≤ 1

-- The abstract view: a priority queue.
abbrev pub pending : CommandManager → List ProfilingCommand
pending q = q.stop_queue ++ (q.adhoc_queue ++ q.continuous_queue)

abbrev pub rank : ProfilingCommand → ℕ
rank c = if is_stop c then 0 else if c.is_continuous then 2 else 1

-- A new command goes behind those of its rank, and a continuous one takes the place of another.
abbrev pub place : ProfilingCommand → List ProfilingCommand → List ProfilingCommand
place c [] = c ∷ []
place c (x ∷ xs) =
    let r = place c xs in
    if leb (rank x) (rank c) && not (eqb (rank x) 2)
    then x ∷ r
    else if eqb (rank c) 2
    then r
    else c ∷ x ∷ xs

abbrev pub first : List ProfilingCommand → Option ProfilingCommand
first [] = none
first (c ∷ _) = some c

All-snoc :
    (P : ProfilingCommand → Type 0) (cs : List ProfilingCommand) (c : ProfilingCommand)
    → All P cs
    → P c
    → All P (cs ++ (c ∷ []))
All-snoc P cs c h p = All-append P cs (c ∷ []) h (p, tt)

-- On sorted queues, enqueuing keeps each queue to its kind of command, and the continuous queue at one.
enqueue_command-IsSorted :
    (c : ProfilingCommand) (q : CommandManager) → IsSorted q → IsSorted (enqueue_command c q)
unfolding enqueue_command
enqueue_command-IsSorted c q s = elim (Bool-cases (is_stop c)) [
  | inl stop ↦ rw stop (record {
    stops = All-snoc _ q.stop_queue c s.stops stop;
    adhocs = s.adhocs;
    continuous = s.continuous;
    one_continuous = s.one_continuous;
  })
  | inr go ↦ elim (Bool-cases c.is_continuous) [
    | inl long ↦
        simp (go, long)
          (record {
            stops = s.stops;
            adhocs = s.adhocs;
            continuous = ((go, long), tt);
            one_continuous = omega arith;
          })
    | inr short ↦
        simp (go, short)
          (record {
            stops = s.stops;
            adhocs = All-snoc _ q.adhoc_queue c s.adhocs (go, short);
            continuous = s.continuous;
            one_continuous = s.one_continuous;
          })
  ]
]

module _ (c : ProfilingCommand) where
  place-stops :
      (cs ds : List ProfilingCommand)
      → All (λ x. is_stop x ≡ true) cs
      → place c (cs ++ ds) ≡ cs ++ place c ds
  place-stops [] ds h = refl
  place-stops (x ∷ xs) ds h = ground (arith, place-stops xs ds h.1)

  place-adhocs :
      (cs ds : List ProfilingCommand)
      → is_stop c ≡ false
      → All (λ x. (is_stop x ≡ false) × (x.is_continuous ≡ false)) cs
      → place c (cs ++ ds) ≡ cs ++ place c ds
  place-adhocs [] ds go h = refl
  place-adhocs (x ∷ xs) ds go h = ground (arith, place-adhocs xs ds go h.1)

  place_stop_first :
      (cs ds : List ProfilingCommand)
      → is_stop c ≡ true
      → All (λ x. (is_stop x ≡ false) × (x.is_continuous ≡ false)) cs
      → All (λ x. (is_stop x ≡ false) × (x.is_continuous ≡ true)) ds
      → place c (cs ++ ds) ≡ c ∷ (cs ++ ds)
  place_stop_first [] [] stop h k = refl
  place_stop_first [] (x ∷ xs) stop h k = ground arith
  place_stop_first (x ∷ xs) ds stop h k = ground arith

  place_adhoc_first :
      (ds : List ProfilingCommand)
      → is_stop c ≡ false
      → c.is_continuous ≡ false
      → All (λ x. (is_stop x ≡ false) × (x.is_continuous ≡ true)) ds
      → place c ds ≡ c ∷ ds
  place_adhoc_first [] go short k = refl
  place_adhoc_first (x ∷ xs) go short k = ground arith

  place_continuous_alone :
      (ds : List ProfilingCommand)
      → is_stop c ≡ false
      → c.is_continuous ≡ true
      → All (λ x. (is_stop x ≡ false) × (x.is_continuous ≡ true)) ds
      → place c ds ≡ c ∷ []
  place_continuous_alone [] go long k = refl
  place_continuous_alone (x ∷ xs) go long k = ground (arith, place_continuous_alone xs go long k.1)

-- On sorted queues, enqueuing is insertion into the one list of pending commands by rank: behind the
-- stop commands, before the continuous one, first in first out within a kind, and a new continuous
-- command takes the place of the one before it.
pub pending-enqueue_command :
    (c : ProfilingCommand) (q : CommandManager)
    → IsSorted q
    → pending (enqueue_command c q) ≡ place c (pending q)
unfolding enqueue_command
pending-enqueue_command c q s = elim (Bool-cases (is_stop c)) [
  | inl stop ↦ rw stop (
      simp (
        place-stops c q.stop_queue (q.adhoc_queue ++ q.continuous_queue) s.stops,
        place_stop_first c q.adhoc_queue q.continuous_queue stop s.adhocs s.continuous,
        append_assoc,
      ))
  | inr go ↦ elim (Bool-cases c.is_continuous) [
    | inl long ↦
        simp (go, long)
          (simp (
            place-stops c q.stop_queue (q.adhoc_queue ++ q.continuous_queue) s.stops,
            place-adhocs c q.adhoc_queue q.continuous_queue go s.adhocs,
            place_continuous_alone c q.continuous_queue go long s.continuous,
          ))
    | inr short ↦
        simp (go, short)
          (simp (
            place-stops c q.stop_queue (q.adhoc_queue ++ q.continuous_queue) s.stops,
            place-adhocs c q.adhoc_queue q.continuous_queue go s.adhocs,
            place_adhoc_first c q.continuous_queue go short s.continuous,
            append_assoc,
          ))
  ]
]

-- The next command is the first pending one.
pub get_next_command-first : (q : CommandManager) → get_next_command q ≡ first (pending q)
unfolding get_next_command
get_next_command-first q = first_lem q.stop_queue q.adhoc_queue q.continuous_queue
  where
    first_lem :
        (a b c : List ProfilingCommand)
        → get_next_command (record { stop_queue = a; adhoc_queue = b; continuous_queue = c })
          ≡ first (a ++ (b ++ c))
    first_lem [] [] [] = refl
    first_lem [] [] (x ∷ xs) = refl
    first_lem [] (x ∷ xs) c = refl
    first_lem (x ∷ xs) b c = refl
