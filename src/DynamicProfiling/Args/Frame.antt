-- ===== src/DynamicProfiling/Args/Frame.antt =====
-- The attributes that `create_profiler_args` of gprofiler/dynamic_profiling_management/__init__.py may set.
use gprofiler.Prelude.{
  String, ◌≡◌, refl, ap, ◌∙◌, inl, inr, true, false, List, [], ◌∷◌, ◌==◌, eq_iff,
}
use gprofiler.Prelude.Tests.{Bool-cases}
use gprofiler.Prelude.Lists.{contains}
use gprofiler.Prelude.Dict.{lookup, insert, lookup-insert}
use gprofiler.Prelude.Result.{Result, ok, err, ◌>>=◌}
use gprofiler.DynamicProfiling.Json.{Json, str, is_text}
use gprofiler.DynamicProfiling.Args.Perf.{Namespace, attr, copy_attr, apply_perf_mode}

-- Every attribute that a command may set.
unfoldable pub managed : List String
managed =
    "duration" ∷ "frequency" ∷ "profiling_mode" ∷ "pids_to_profile" ∷ "continuous" ∷ "flamegraph"
    ∷ "collect_hw_metrics" ∷ "tool_perfspect_path" ∷ "max_processes_per_profiler"
    ∷ "max_system_processes_for_system_profilers" ∷ "perf_max_docker_containers" ∷ "perf_mode"
    ∷ "perf_events" ∷ "python_mode" ∷ "python_skip_pyperf_profiler_above" ∷ "java_mode"
    ∷ "java_async_profiler_mode" ∷ "php_mode" ∷ "ruby_mode" ∷ "dotnet_mode" ∷ "nodejs_mode" ∷ []

other_than :
    (k j : String) (ks : List String)
    → contains k ks ≡ false
    → contains j ks ≡ true
    → j == k ≡ false
other_than k j ks out inside = elim (Bool-cases (j == k)) [
  | inl same ↦ let e : j ≡ k = (eq_iff j k).0 same in cc (ap (λ x. contains x ks) e)
  | inr other ↦ other
]

module _ (k : String) (free : contains k managed ≡ false) where
  -- The attribute is as before, if the call returns.
  abbrev pub Keeps : Namespace → Result Namespace → Type 0
  Keeps args (ok args') = lookup k args' ≡ lookup k args
  Keeps args (err e) = Unit {0}

  pub Keeps-bind :
      (args : Namespace) (m : Result Namespace) (f : Namespace → Result Namespace)
      → Keeps args m
      → ((a : Namespace) → lookup k a ≡ lookup k args → Keeps args (f a))
      → Keeps args (m >>= f)
  Keeps-bind args (ok a) f km kf = kf a km
  Keeps-bind args (err e) f km kf = tt

  pub Keeps-trans :
      (args a : Namespace) (m : Result Namespace)
      → lookup k a ≡ lookup k args
      → Keeps a m
      → Keeps args m
  Keeps-trans args a (ok b) e h = h ∙ e
  Keeps-trans args a (err x) e h = tt

  pub insert-managed :
      (j : String) (v : Json) (args : Namespace)
      → contains j managed ≡ true
      → lookup k (insert j v args) ≡ lookup k args
  insert-managed j v args h = simp (lookup-insert, other_than k j managed free h)

  copy_attr-Keeps :
      (j source : String) (args : Namespace)
      → contains j managed ≡ true
      → Keeps args (copy_attr j source args)
  unfolding copy_attr
  copy_attr-Keeps j source args h = copied (attr source args)
    where
      copied : (r : Result Json) → Keeps args (r >>= λ v. ok (insert j v args))
      copied (ok v) = insert-managed j v args h
      copied (err e) = tt

  copy_two-Keeps :
      (i j a b : String) (args : Namespace)
      → contains i managed ≡ true
      → contains j managed ≡ true
      → Keeps args (copy_attr i a args >>= copy_attr j b)
  copy_two-Keeps i j a b args hi hj =
      Keeps-bind args (copy_attr i a args) (copy_attr j b) (copy_attr-Keeps i a args hi)
        (λ x e. Keeps-trans args x _ e (copy_attr-Keeps j b x hj))

  pub apply_perf_mode-Keeps :
      (mode : Json) (args : Namespace) → Keeps args (apply_perf_mode mode args)
  unfolding apply_perf_mode managed contains
  apply_perf_mode-Keeps mode args = elim (Bool-cases (is_text "enabled_restricted" mode)) [
    | inl r ↦ simp r (copy_two-Keeps _ _ _ _ args refl refl)
    | inr nr ↦ elim (Bool-cases (is_text "enabled_aggressive" mode)) [
      | inl a ↦ simp (nr, a) (copy_two-Keeps _ _ _ _ args refl refl)
      | inr na ↦ elim (Bool-cases (is_text "disabled" mode)) [
        | inl d ↦ simp (nr, na, d) (insert-managed "perf_mode" (str "disabled") args refl)
        | inr nd ↦ simp (nr, na, nd) refl
      ]
    ]
  ]
