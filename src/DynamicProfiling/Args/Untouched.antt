-- ===== src/DynamicProfiling/Args/Untouched.antt =====
-- The base arguments through `create_profiler_args` of
-- gprofiler/dynamic_profiling_management/__init__.py.
use mathlib.Core.Path.{subst}
use gprofiler.Prelude.{String, ◌≡◌, refl, ◌∙◌, inl, inr, Bool, true, false, Option, none, some}
use gprofiler.Prelude.Tests.{if◌then◌else◌, Bool-cases}
use gprofiler.Prelude.Lists.{contains}
use gprofiler.Prelude.Dict.{lookup, insert}
use gprofiler.Prelude.Result.{Result, ok, err, ◌>>=◌, >>=-eq-ok}
use gprofiler.DynamicProfiling.Json.{
  pos, Json, null, bool, num, str, obj, Fields, end, find, get, as_dict, truthy,
}
use gprofiler.DynamicProfiling.Args.{
  Outside, apply_profiler_configs, copy_key, copy_keys, fill_if, targets_host, apply_perfspect,
  copy_pids, apply_continuous, apply_configs, fill_args, create_profiler_args,
}
use gprofiler.DynamicProfiling.Args.Perf.{Namespace}
use gprofiler.DynamicProfiling.Args.Frame.{managed, Keeps, Keeps-bind, Keeps-trans}
use gprofiler.DynamicProfiling.Args.Configs.{
  set, set_two, lookup-if, if_same, configs-Keeps, SameAs,
}

module _ (k : String) (free : contains k managed ≡ false) where
  copy_key-lookup :
      (j : String) (config : Fields) (args : Namespace)
      → contains j managed ≡ true
      → SameAs k free args (copy_key j config args)
  unfolding copy_key
  copy_key-lookup j config args h = copied (find j config)
    where
      copied :
          (o : Option Json)
          → lookup k (elim o [ none ↦ args | some v ↦ insert j v args ]) ≡ lookup k args
      copied none = refl
      copied (some v) = set k free j v args h

  copy_keys-lookup :
      (config : Fields) (args : Namespace) → SameAs k free args (copy_keys config args)
  unfolding copy_keys managed contains
  copy_keys-lookup config args =
      copy_key-lookup "profiling_mode" config _ refl
      ∙ (copy_key-lookup "frequency" config _ refl ∙ copy_key-lookup "duration" config args refl)

  module _ (out : Outside) (config : Fields) where
    perfspect-Keeps : (args : Namespace) → Keeps k free args (apply_perfspect out config args)
    unfolding apply_perfspect managed contains
    perfspect-Keeps args = elim (Bool-cases (truthy (get "enable_perfspect" (bool false) config))) [
      | inl on ↦ simp on (with_path out.perfspect_path)
      | inr off ↦ simp off refl
    ]
      where
        with_path :
            (r : Result String)
            → Keeps k free args (
                r >>= λ path. ok (
                  if out.is_executable path
                  then insert "tool_perfspect_path"
                      (str path)
                      (insert "collect_hw_metrics" (bool true) args)
                  else insert "collect_hw_metrics" (bool false) args))
        with_path (ok path) = simp (
          lookup-if k free,
          λ (v : Json) (a : Namespace). set k free "collect_hw_metrics" v a refl,
          λ (v : Json) (a : Namespace). set k free "tool_perfspect_path" v a refl,
          (if_same k free),
        )
        with_path (err e) = tt

    before-lookup :
        (args : Namespace) → SameAs k free args (apply_continuous config (copy_pids config args))
    unfolding apply_continuous copy_pids managed contains
    before-lookup args =
        set_two k free "flamegraph" "continuous" _ _ _ refl refl
        ∙ simp (
          lookup-if k free,
          set k free "pids_to_profile" (get "pids" null config) args refl,
          (if_same k free),
        )

    apply_configs-Keeps :
        (v : Json) (args : Namespace) → Keeps k free args (apply_configs out v args)
    apply_configs-Keeps v args = elim (Bool-cases (truthy v)) [
      | inl on ↦ simp on (with_dict (as_dict v))
      | inr off ↦ simp off refl
    ]
      where
        with_dict :
            (r : Result Fields)
            → Keeps k free args (r >>= λ d. apply_profiler_configs out.parse_size d args)
        with_dict (ok d) = configs-Keeps k free out.parse_size d args
        with_dict (err e) = tt

    fill_args-Keeps : (args : Namespace) → Keeps k free args (fill_args out config args)
    unfolding fill_args managed contains
    fill_args-Keeps args =
        Keeps-bind k free args
          (apply_perfspect out config (apply_continuous config (copy_pids config args))) _
          (Keeps-trans k free args _ _ (before-lookup args) (perfspect-Keeps _))
          λ a e.
            let procs = get "max_processes" (num (pos 10)) config in
            Keeps-trans k free args _ _ (set k free "max_processes_per_profiler" procs a refl ∙ e) (
              apply_configs-Keeps (get "profiler_configs" (obj end) config)
                (insert "max_processes_per_profiler" procs a))

    fill_if-lookup :
        (targeted : Bool) (args a : Namespace)
        → fill_if targeted out config args ≡ ok (some a)
        → lookup k a ≡ lookup k args
    fill_if-lookup false args a h = cc
    fill_if-lookup true args a h =
        let (b, filled, e) = >>=-eq-ok (fill_args out config args) _ h in
        let kept = subst (Keeps k free args) filled (fill_args-Keeps args) in
        let same : b ≡ a = cc in cc

  -- A translated command changes no attribute of the base arguments but the managed ones.
  pub create_profiler_args-untouched :
      (out : Outside) (base : Namespace) (command : Fields) (args : Namespace)
      → create_profiler_args out base command ≡ ok (some args)
      → lookup k args ≡ lookup k base
  unfolding create_profiler_args
  create_profiler_args-untouched out base command args h =
      by_config (as_dict (get "combined_config" (obj end) command)) h
    where
      by_target :
          (config : Fields) (targeted : Result Bool)
          → (targeted >>= λ t. fill_if t out config (copy_keys config base)) ≡ ok (some args)
          → lookup k args ≡ lookup k base
      by_target config (ok t) e =
          fill_if-lookup out config t (copy_keys config base) args e ∙ copy_keys-lookup config base
      by_target config (err x) e = cc

      by_config :
          (config : Result Fields)
          → (config >>= λ c.
              targets_host out.hostname c >>= λ t. fill_if t out c (copy_keys c base))
            ≡ ok (some args)
          → lookup k args ≡ lookup k base
      by_config (ok c) e = by_target c (targets_host out.hostname c) e
      by_config (err x) e = cc
