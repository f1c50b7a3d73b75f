-- ===== src/DynamicProfiling/Slots/Started.antt =====
-- What `start` of the slots leaves (gprofiler/dynamic_profiling_management/__init__.py, continuous.py,
-- ad_hoc.py).
use text.Mathlib.TextPositions.{eq_refl}
use gprofiler.Prelude.{
  ℕ, String, ◌≡◌, ◌⊎◌, refl, inl, inr, Bool, true, false, none, some, List, ◌∷◌, arith,
}
use gprofiler.Prelude.Result.{Exn, Result, ok, err}
use gprofiler.DynamicProfiling.Json.{Fields}
use gprofiler.DynamicProfiling.ProfilerTypes.{get_enabled_profiler_types}
use gprofiler.DynamicProfiling.Slots.{
  SlotName, continuous_slot, adhoc_slot, Completion, start_failed, slot_of, is_alive, State, Env,
  is_running_command,
}
use gprofiler.DynamicProfiling.Slots.Lifecycle.{
  fail_start, with_types, with_instance, with_flag, make_instance, continuous_flag, start_adhoc,
  start_continuous,
}

-- The slot has the command of that identifier, with a thread that runs.
abbrev pub Runs : String → SlotName → State → Type 0
Runs i name t =
    (n : ℕ) × (is_running_command i (slot_of name t) ≡ true)
    × ((slot_of name t).thread ≡ some n)
    × (is_alive n t.live ≡ true)

-- What a start does, with what is sent before and after it: the command runs and nothing is sent, or the
-- slot is left without a command and the failure of this command is sent.
abbrev pub Tried : String → SlotName → List Completion → State → List Completion → Type 0
Tried i name before t after =
    (Runs i name t × (after ≡ before))
    ⊎ ((e : Exn) × ((slot_of name t).command ≡ none)
        × (after ≡ record { completed_id = i; status = start_failed e } ∷ before))

module _ (env : Env) where
  with_types-Tried :
      (name : SlotName) (made : Bool) (p : Fields) (i : String) (continuous : Bool)
      (types : Result (List String)) (s : State)
      → let t = with_types env name made p i continuous types s in Tried i name s.sent t t.sent
  unfolding fail_start
  with_types-Tried continuous_slot made p i continuous (ok types) s =
      inl ((s.next_number, eq_refl i, refl, ground arith), refl)
  with_types-Tried adhoc_slot made p i continuous (ok types) s =
      inl ((s.next_number, eq_refl i, refl, ground arith), refl)
  with_types-Tried continuous_slot made p i continuous (err e) s = inr (e, refl, refl)
  with_types-Tried adhoc_slot made p i continuous (err e) s = inr (e, refl, refl)

  with_instance-Tried :
      (name : SlotName) (p : Fields) (i : String) (continuous : Bool) (made : Result Bool)
      (s : State)
      → let t = with_instance env name p i continuous made s in Tried i name s.sent t t.sent
  unfolding fail_start
  with_instance-Tried name p i continuous (ok made) s =
      with_types-Tried name made p i continuous (get_enabled_profiler_types p) s
  with_instance-Tried continuous_slot p i continuous (err e) s = inr (e, refl, refl)
  with_instance-Tried adhoc_slot p i continuous (err e) s = inr (e, refl, refl)

  pub start_adhoc-Tried :
      (p : Fields) (i : String) (s : State)
      → let t = start_adhoc env p i s in Tried i adhoc_slot s.sent t t.sent
  unfolding start_adhoc
  start_adhoc-Tried p i s = with_instance-Tried adhoc_slot p i false (make_instance env p) s

  with_flag-Tried :
      (p : Fields) (i : String) (flag : Result Bool) (s : State)
      → let t = with_flag env p i flag s in Tried i continuous_slot s.sent t t.sent
  unfolding fail_start
  with_flag-Tried p i (ok continuous) s =
      with_instance-Tried continuous_slot p i continuous (make_instance env p) s
  with_flag-Tried p i (err e) s = inr (e, refl, refl)

  pub start_continuous-Tried :
      (p : Fields) (i : String) (s : State)
      → let t = start_continuous env p i s in Tried i continuous_slot s.sent t t.sent
  unfolding start_continuous
  start_continuous-Tried p i s = with_flag-Tried p i (continuous_flag env p) s
