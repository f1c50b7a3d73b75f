-- ===== src/Profilers/Factory/Creation.antt =====
-- Which profilers are created, and with which arguments, gprofiler/profilers/factory.py.
use text.Mathlib.Text.{starts_with}
use mathlib.Core.List.{append_assoc, append-nil}
use gprofiler.Prelude.{
  ℕ, String, ◌≡◌, refl, ◌∙◌, inl, inr, ◌⊎◌, true, false, not, ◌&&◌, ◌||◌, Option, none, some, List,
  [], ◌∷◌, ◌++◌, ◌==◌, arith, eq_iff,
}
use gprofiler.Prelude.Tests.{if◌then◌else◌, Bool-cases}
use gprofiler.Prelude.Lists.{contains}
use gprofiler.Prelude.Dict.{Dict, lookup, insert, lookup-insert}
use gprofiler.Prelude.Result.{Result, ok, err, perf_no_supported_event}
use gprofiler.DynamicProfiling.Json.{Json}
use gprofiler.Profilers.Factory.{
  ProfilerConfig, Machine, profilers, exited, common_profiler_argument_names, is_eligible,
  profiler_kwargs, create_loop, is_none_mode, get_profilers,
}

-- A profiler gets no user argument but those with its own prefix and the common ones: every other argument is
-- what the caller of the factory gave.
pub profiler_kwargs-own :
    (lower_name key : String) (user_args kwargs : Dict Json)
    → starts_with key lower_name ≡ false
    → contains key common_profiler_argument_names ≡ false
    → lookup key (profiler_kwargs lower_name user_args kwargs) ≡ lookup key kwargs
unfolding profiler_kwargs
profiler_kwargs-own lower_name key [] kwargs foreign rare = refl
profiler_kwargs-own lower_name key ((k, value) ∷ more) kwargs foreign rare =
    elim (Bool-cases (starts_with k lower_name || contains k common_profiler_argument_names)) [
      | inl own ↦
          simp own (
            profiler_kwargs-own lower_name key more (insert k value kwargs) foreign rare
            ∙ other own)
      | inr not_own ↦ simp not_own (profiler_kwargs-own lower_name key more kwargs foreign rare)
    ]
  where
    other :
        starts_with k lower_name || contains k common_profiler_argument_names ≡ true
        → lookup key (insert k value kwargs) ≡ lookup key kwargs
    other own = elim (Bool-cases (k == key)) [
      | inl same ↦
          let e : k ≡ key = (eq_iff k key).0 same in
          let no : starts_with k lower_name || contains k common_profiler_argument_names ≡ false =
            rw e (ground (arith, foreign, rare)) in
          cc
      | inr differs ↦ simp (lookup-insert, differs)
    ]

module _ (machine : Machine) (user_args kwargs : Dict Json) where
  abbrev pub made : ProfilerConfig → Result ℕ
  made config = machine.create config.name (profiler_kwargs config.lower_name user_args kwargs)

  abbrev cons_ok : Result ℕ → List ℕ → List ℕ
  cons_ok (ok p) ps = p ∷ ps
  cons_ok (err e) ps = ps

  abbrev or_ok : Result ℕ → Option ℕ → Option ℕ
  or_ok (ok p) found = some p
  or_ok (err e) found = found

  -- The process profilers of the eligible entries whose constructor returned, in the registry's order.
  abbrev pub process_profilers : List ProfilerConfig → List ℕ
  process_profilers [] = []
  process_profilers (c ∷ cs) =
      let rest = process_profilers cs in
      if is_eligible machine user_args c && not c.is_system then cons_ok (made c) rest else rest

  -- The last system profiler among them, or the one given.
  abbrev pub system_profiler : List ProfilerConfig → Option ℕ → Option ℕ
  system_profiler [] found = found
  system_profiler (c ∷ cs) found =
      system_profiler cs
        (if is_eligible machine user_args c && c.is_system then or_ok (made c) found else found)

  create_loop-profilers :
      (cs : List ProfilerConfig) (system last : Option ℕ) (before after : List ℕ)
      → create_loop machine user_args kwargs cs system before ≡ profilers last after
      → (last ≡ system_profiler cs system) × (after ≡ before ++ process_profilers cs)
  unfolding create_loop
  create_loop-profilers [] system last before after h = (cc, simp append-nil cc)
  create_loop-profilers (c ∷ cs) system last before after h =
      by_test (Bool-cases (is_eligible machine user_args c)) (create_loop-profilers cs)
    where
      Loop : Type 0
      Loop =
          (system last : Option ℕ) (before after : List ℕ)
          → create_loop machine user_args kwargs cs system before ≡ profilers last after
          → (last ≡ system_profiler cs system) × (after ≡ before ++ process_profilers cs)

      by_result :
          Loop
          → (r : Result ℕ)
          → (elim r [
            | ok p ↦
                if c.is_system
                then create_loop machine user_args kwargs cs (some p) before
                else create_loop machine user_args kwargs cs system (before ++ (p ∷ []))
            | err perf_no_supported_event ↦ create_loop machine user_args kwargs cs system before
            | err e ↦ exited
          ])
            ≡ profilers last after
          → (last ≡ system_profiler cs (if c.is_system then or_ok r system else system))
            × (after
                ≡ before
                  ++ (if not c.is_system
                      then cons_ok r (process_profilers cs)
                      else process_profilers cs))
      by_result rec (ok p) k = elim (Bool-cases c.is_system) [
        | inl is_sys ↦ simp is_sys (rec (some p) last before after (simp is_sys at k))
        | inr is_process ↦
            let (l, a) = rec system last (before ++ (p ∷ [])) after (simp is_process at k) in
            simp is_process (l, a ∙ append_assoc before (p ∷ []) (process_profilers cs))
      ]
      by_result rec (err perf_no_supported_event) k = elim (Bool-cases c.is_system) [
        | inl is_sys ↦ simp is_sys (rec system last before after k)
        | inr is_process ↦ simp is_process (rec system last before after k)
      ]
      by_result rec (err e) k = cc

      by_test :
          (is_eligible machine user_args c ≡ true) ⊎ (is_eligible machine user_args c ≡ false)
          → Loop
          → (last ≡ system_profiler (c ∷ cs) system)
            × (after ≡ before ++ process_profilers (c ∷ cs))
      by_test (inr skipped) rec = simp skipped (rec system last before after (simp skipped at h))
      by_test (inl eligible) rec = simp eligible (by_result rec (made c) (simp eligible at h))

  -- Where the profiling mode is not none and the agent does not exit, the process profilers are those
  -- of the eligible entries of the registry whose constructor returned, in its order, and the system
  -- profiler is the last such one.
  pub get_profilers-profilers :
      (registry : List ProfilerConfig) (system : Option ℕ) (processes : List ℕ)
      → is_none_mode (lookup "profiling_mode" user_args) ≡ false
      → get_profilers machine registry user_args kwargs ≡ profilers system processes
      → (system ≡ system_profiler registry none) × (processes ≡ process_profilers registry)
  unfolding get_profilers
  get_profilers-profilers registry system processes asked h =
      create_loop-profilers registry none system [] processes (simp asked at h)
