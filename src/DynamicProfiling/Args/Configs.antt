-- ===== src/DynamicProfiling/Args/Configs.antt =====
-- The base arguments through `_apply_profiler_configs` of
-- gprofiler/dynamic_profiling_management/__init__.py.
use gprofiler.Prelude.{String, ◌≡◌, refl, ◌∙◌, inl, inr, Bool, true, false, ◌==◌}
use gprofiler.Prelude.Tests.{if◌then◌else◌, Bool-cases}
use gprofiler.Prelude.Lists.{contains}
use gprofiler.Prelude.Dict.{lookup, insert}
use gprofiler.Prelude.Result.{Result, ok, err, ◌>>=◌}
use gprofiler.DynamicProfiling.Json.{
  ℤ, Json, null, bool, num, str, obj, Fields, get, truthy, is_text,
}
use gprofiler.DynamicProfiling.Args.{
  set_pyperf, set_pyspy, apply_python, switch_off, apply_others, apply_profiler_configs,
}
use gprofiler.DynamicProfiling.Args.Perf.{Namespace, apply_perf_mode, apply_perf_config, apply_perf}
use gprofiler.DynamicProfiling.Args.Java.{
  ParseSize, alloc_frequency, is_valid_mode, apply_java_dict, apply_java_config, apply_java,
}
use gprofiler.DynamicProfiling.Args.Frame.{
  managed, Keeps, Keeps-bind, Keeps-trans, insert-managed, apply_perf_mode-Keeps,
}

module _ (k : String) (free : contains k managed ≡ false) where
  pub set :
      (j : String) (v : Json) (args : Namespace)
      → contains j managed ≡ true
      → lookup k (insert j v args) ≡ lookup k args
  set = insert-managed k free

  pub set_two :
      (i j : String) (v w : Json) (args : Namespace)
      → contains i managed ≡ true
      → contains j managed ≡ true
      → lookup k (insert i v (insert j w args)) ≡ lookup k args
  set_two i j v w args hi hj = set i v (insert j w args) hi ∙ set j w args hj

  perf-Keeps : (configs : Fields) (args : Namespace) → Keeps k free args (apply_perf configs args)
  unfolding apply_perf apply_perf_config managed contains
  perf-Keeps configs args = by_config (get "perf" (str "enabled_restricted") configs)
    where
      then_events :
          (mode : Json) (v : Json)
          → Keeps k free args (apply_perf_mode mode args >>= λ a. ok (insert "perf_events" v a))
      then_events mode v =
          Keeps-bind k free args (apply_perf_mode mode args) _
            (apply_perf_mode-Keeps k free mode args) (λ a e. set "perf_events" v a refl ∙ e)

      by_config : (v : Json) → Keeps k free args (apply_perf_config v args)
      by_config (obj d) = then_events _ _
      by_config null = then_events _ _
      by_config _ = then_events _ _

  abbrev pub SameAs : Namespace → Namespace → Type 0
  SameAs args a = lookup k a ≡ lookup k args

  pub lookup-if :
      (b : Bool) (x y : Namespace)
      → lookup k (if b then x else y) ≡ (if b then lookup k x else lookup k y)
  lookup-if true x y = refl
  lookup-if false x y = refl

  pub if_same : {A : Type 0} (b : Bool) (x : A) → (if b then x else x) ≡ x
  if_same true x = refl
  if_same false x = refl

  set_mode : (v : Json) (args : Namespace) → lookup k (insert "python_mode" v args) ≡ lookup k args
  unfolding managed contains
  set_mode v args = set "python_mode" v args refl

  set_pyperf-lookup : (v : Json) (args : Namespace) → SameAs args (set_pyperf v args)
  unfolding set_pyperf managed contains
  set_pyperf-lookup v args = simp (
    lookup-if,
    set_mode,
    λ (w : Json) (a : Namespace). set "python_skip_pyperf_profiler_above" w a refl,
    if_same,
  )

  set_pyspy-lookup : (v w : Json) (args : Namespace) → SameAs args (set_pyspy v w args)
  unfolding set_pyspy
  set_pyspy-lookup v w args = simp (lookup-if, set_mode, if_same)

  python-lookup : (configs : Fields) (args : Namespace) → SameAs args (apply_python configs args)
  unfolding apply_python
  python-lookup configs args = set_pyspy-lookup _ _ _ ∙ set_pyperf-lookup _ args

  switch_off-lookup :
      (key mode off : String) (configs : Fields) (args : Namespace)
      → contains mode managed ≡ true
      → SameAs args (switch_off key mode off configs args)
  unfolding switch_off
  switch_off-lookup key mode off configs args h =
      simp (lookup-if, set mode (str off) args h, if_same)

  others-lookup : (configs : Fields) (args : Namespace) → SameAs args (apply_others configs args)
  unfolding apply_others managed contains
  others-lookup configs args =
      switch_off-lookup "nodejs_perf" "nodejs_mode" "none" configs _ refl
      ∙ (switch_off-lookup "dotnet_trace" "dotnet_mode" "disabled" configs _ refl
          ∙ (switch_off-lookup "rbspy" "ruby_mode" "disabled" configs _ refl
              ∙ switch_off-lookup "phpspy" "php_mode" "disabled" configs args refl))

  module _ (parse : ParseSize) where
    alloc-Keeps :
        (r : Result ℤ) (args : Namespace)
        → Keeps k free args (
            r >>= λ bytes.
            ok (insert "frequency" (num bytes) (insert "profiling_mode" (str "allocation") args)))
    unfolding managed contains
    alloc-Keeps (ok bytes) args = set_two "frequency" "profiling_mode" _ _ args refl refl
    alloc-Keeps (err e) args = tt

    java_dict-Keeps :
        (d : Fields) (args : Namespace) → Keeps k free args (apply_java_dict parse d args)
    unfolding apply_java_dict managed contains
    java_dict-Keeps d args = elim (Bool-cases (truthy (get "enabled" (bool true) d))) [
      | inr off ↦ simp off (set "java_mode" (str "disabled") args refl)
      | inl on ↦ elim (Bool-cases (is_valid_mode (get "time" (str "cpu") d))) [
        | inr bad ↦ simp (on, bad) tt
        | inl good ↦ elim (Bool-cases (is_text "alloc" (get "time" (str "cpu") d))) [
          | inl alloc ↦
              simp (on, good, alloc)
                (alloc-Keeps (alloc_frequency parse (get "alloc_interval" (str "2MB") d)) args)
          | inr time ↦
              simp (on, good, time)
                (set "java_async_profiler_mode" (get "time" (str "cpu") d) args refl)
        ]
      ]
    ]

    java_config-Keeps :
        (v : Json) (args : Namespace) → Keeps k free args (apply_java_config parse v args)
    unfolding apply_java_config managed contains
    java_config-Keeps (obj d) args = java_dict-Keeps d args
    java_config-Keeps null args = set "java_async_profiler_mode" _ args refl
    java_config-Keeps (str s) args = elim (Bool-cases (s == "disabled")) [
      | inl off ↦ simp off (set "java_mode" (str "disabled") args refl)
      | inr on ↦ elim (Bool-cases (s == "enabled_wall")) [
        | inl wall ↦ simp (on, wall) (set "java_async_profiler_mode" (str "wall") args refl)
        | inr other ↦ elim (Bool-cases (s == "enabled_alloc")) [
          | inl alloc ↦ simp (on, other, alloc) (alloc-Keeps (parse "2MB") args)
          | inr cpu ↦ simp (on, other, cpu) (set "java_async_profiler_mode" (str "cpu") args refl)
        ]
      ]
    ]
    java_config-Keeps v args = set "java_async_profiler_mode" _ args refl

    pub configs-Keeps :
        (configs : Fields) (args : Namespace)
        → Keeps k free args (apply_profiler_configs parse configs args)
    unfolding apply_profiler_configs apply_java
    configs-Keeps configs args =
        Keeps-bind k free args (apply_perf configs args) _ (perf-Keeps configs args) λ a e.
          Keeps-bind k free args (apply_java parse configs (apply_python configs a)) _
            (Keeps-trans k free args _ _ (python-lookup configs a ∙ e) (java_config-Keeps _ _))
            λ b h. others-lookup configs b ∙ h
