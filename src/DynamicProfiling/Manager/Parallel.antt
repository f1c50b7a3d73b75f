-- ===== src/DynamicProfiling/Manager/Parallel.antt =====
-- What an ad-hoc start does to the two slots, gprofiler/dynamic_profiling_management/heartbeat.py.
use mathlib.Core.Path.{subst}
use gprofiler.Prelude.{
  String, ◌≡◌, refl, ◌⊎◌, inl, inr, Bool, true, false, not, ◌&&◌, Option, none, some, List, [],
  arith,
}
use gprofiler.Prelude.Tests.{if◌then◌else◌, Bool-cases}
use gprofiler.Prelude.Lists.{disjoint}
use gprofiler.Prelude.Result.{Result, ok, err, ◌>>=◌, ok-injective}
use gprofiler.DynamicProfiling.Json.{Fields}
use gprofiler.DynamicProfiling.Queues.{ProfilingCommand}
use gprofiler.DynamicProfiling.ProfilerTypes.{get_enabled_profiler_types}
use gprofiler.DynamicProfiling.Slots.{
  continuous_slot, adhoc_slot, State, Env, is_running, is_pausable, can_be_paused, can_run,
}
use gprofiler.DynamicProfiling.Slots.Lifecycle.{
  start_adhoc, fail_start, make_instance, with_types, with_instance,
}
use gprofiler.DynamicProfiling.Manager.{
  process_adhoc, run_adhoc_beside, pause_continuous, report_completed,
}
use gprofiler.DynamicProfiling.Manager.Idle.{IsIdle, stop_slot-IsIdle}

and_left : (a b : Bool) → a && b ≡ true → a ≡ true
and_left a b h = ground arith

-- While the continuous profiler runs, the ad-hoc slot has none of its types.
abbrev pub Apart : State → Type 0
Apart t =
    is_running t.continuous ≡ true
    → disjoint t.adhoc.profiler_types t.continuous.profiler_types ≡ true

module _ (env : Env) (pc : Fields) (i : String) where
  with_types-continuous :
      (made : Bool) (r : Result (List String)) (s : State)
      → (with_types env adhoc_slot made pc i false r s).continuous ≡ s.continuous
  unfolding fail_start
  with_types-continuous made (ok types) s = refl
  with_types-continuous made (err e) s = refl

  with_instance-continuous :
      (r : Result Bool) (s : State)
      → (with_instance env adhoc_slot pc i false r s).continuous ≡ s.continuous
  unfolding fail_start
  with_instance-continuous (ok made) s =
      with_types-continuous made (get_enabled_profiler_types pc) s
  with_instance-continuous (err e) s = refl

  pub start_adhoc-continuous : (s : State) → (start_adhoc env pc i s).continuous ≡ s.continuous
  unfolding start_adhoc
  start_adhoc-continuous s = with_instance-continuous (make_instance env pc) s

  -- `start` gives the ad-hoc slot the types that the command enables, or none if it fails.
  TypesOf : List String → State → Type 0
  TypesOf types t = (t.adhoc.profiler_types ≡ types) ⊎ (t.adhoc.profiler_types ≡ [])

  with_types-types :
      (made : Bool) (r : Result (List String)) (s : State) (types : List String)
      → r ≡ ok types
      → TypesOf types (with_types env adhoc_slot made pc i false r s)
  unfolding fail_start TypesOf
  with_types-types made (ok ts) s types e = inl (ground arith)
  with_types-types made (err x) s types e = cc

  start_adhoc-types :
      (s : State) (types : List String)
      → get_enabled_profiler_types pc ≡ ok types
      → TypesOf types (start_adhoc env pc i s)
  unfolding start_adhoc fail_start TypesOf
  start_adhoc-types s types e = started (make_instance env pc)
    where
      started : (r : Result Bool) → TypesOf types (with_instance env adhoc_slot pc i false r s)
      started (ok made) = with_types-types made (get_enabled_profiler_types pc) s types e
      started (err x) = inr refl

  disjoint-TypesOf :
      (types others : List String) (t : State)
      → TypesOf types t
      → disjoint types others ≡ true
      → disjoint t.adhoc.profiler_types others ≡ true
  unfolding TypesOf disjoint
  disjoint-TypesOf types others t (inl e) d = rw e d
  disjoint-TypesOf types others t (inr e) d = rw e

  pub start_adhoc-Apart :
      (s : State) (types : List String)
      → get_enabled_profiler_types pc ≡ ok types
      → disjoint types s.continuous.profiler_types ≡ true
      → Apart (start_adhoc env pc i s)
  start_adhoc-Apart s types e d runs =
      rw (start_adhoc-continuous s) (disjoint-TypesOf types _ _ (start_adhoc-types s types e) d)

-- `can_run` says yes only for types that the continuous slot does not have.
can_run-disjoint :
    (cmd : ProfilingCommand) (s : State)
    → can_run cmd s.continuous.profiler_types s.adhoc ≡ ok true
    → (types : List String) × (get_enabled_profiler_types cmd.profiling_command ≡ ok types)
      × (disjoint types s.continuous.profiler_types ≡ true)
unfolding can_run
can_run-disjoint cmd s h = ground arith

module _ (env : Env) (cmd : ProfilingCommand) (s : State) where
  pause_continuous-IsIdle :
      can_be_paused s.continuous ≡ true → IsIdle (pause_continuous env s).continuous
  unfolding pause_continuous
  pause_continuous-IsIdle h = paused s.continuous.command refl h
    where
      paused :
          (c : Option ProfilingCommand)
          → s.continuous.command ≡ c
          → is_pausable c ≡ true
          → IsIdle (pause_continuous env s).continuous
      paused none e h = cc
      paused (some c) e h = rw (e, pause_continuous) (stop_slot-IsIdle env continuous_slot _)

  idle-Apart : (t : State) → is_running t.continuous ≡ false → Apart t
  idle-Apart t idle runs = cc

  -- From a state where the slots are apart, processing an ad-hoc command leaves them apart: either the
  -- continuous profiler was stopped, or the new profiler shares no type with it, or nothing changed.
  pub process_adhoc-Apart : (t : State) → process_adhoc env cmd s ≡ ok t → Apart s → Apart t
  unfolding process_adhoc report_completed
  process_adhoc-Apart t h apart = elim (Bool-cases (is_running s.continuous)) [
    | inl runs ↦ beside (can_run cmd s.continuous.profiler_types s.adhoc) refl (simp runs at h)
    | inr idle ↦ alone idle (simp idle at h)
  ]
    where
      start : State → State
      start u = start_adhoc env cmd.profiling_command cmd.command_id u

      alone :
          is_running s.continuous ≡ false
          → ok (
              if not (is_running s.adhoc) then report_completed env cmd.command_id (start s) else s)
            ≡ ok t
          → Apart t
      alone idle e = subst Apart (ok-injective e) (elim (Bool-cases (is_running s.adhoc)) [
        | inl busy ↦ rw busy apart
        | inr free ↦ rw free (idle-Apart (start s) (rw (start_adhoc-continuous env _ _ s) idle))
      ])

      beside :
          (r : Result Bool)
          → can_run cmd s.continuous.profiler_types s.adhoc ≡ r
          → (r >>= λ parallel. ok (run_adhoc_beside env parallel cmd s)) ≡ ok t
          → Apart t
      beside (ok true) e k =
          let (types, enabled, apart') = can_run-disjoint cmd s e in
          subst Apart (ok-injective k) (start_adhoc-Apart env _ _ s types enabled apart')
      beside (ok false) e k =
          subst Apart (ok-injective k)
            (elim (Bool-cases (can_be_paused s.continuous && not (is_running s.adhoc))) [
              | inl slice ↦ rw slice (
                  idle-Apart (start (pause_continuous env s)) (
                    rw (start_adhoc-continuous env _ _ (pause_continuous env s)) (
                      rw
                        (pause_continuous-IsIdle
                          (and_left (can_be_paused s.continuous) _ slice)).no_profiler)))
              | inr wait ↦ rw wait apart
            ])
      beside (err x) e k = cc
