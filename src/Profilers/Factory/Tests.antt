-- ===== src/Profilers/Factory/Tests.antt =====
-- A run of the factory with one system profiler, one process profiler and a disabled one.
use gprofiler.Prelude.{String, ◌≡◌, refl, Bool, true, false, none, some, List, [], ◌∷◌}
use gprofiler.Prelude.Lists.{contains}
use gprofiler.Prelude.Dict.{Dict, lookup, insert}
use gprofiler.Prelude.Result.{ok}
use gprofiler.DynamicProfiling.Json.{pos, Json, num, str}
use gprofiler.Profilers.Factory.{
  ProfilerConfig, Machine, profilers, is_eligible, profiler_kwargs, create_loop, get_profilers,
}
use gprofiler.Profilers.Factory.Creation.{
  profiler_kwargs-own, process_profilers, system_profiler, get_profilers-profilers,
}

abbrev entry : String → String → String → Bool → ProfilerConfig
entry name lower key is_system = record {
  name = name;
  lower_name = lower;
  mode_key = key;
  supported_archs = "x86_64" ∷ [];
  supported_windows_archs = [];
  supported_profiling_modes = "cpu" ∷ [];
  is_system = is_system;
}

abbrev registry : List ProfilerConfig
registry =
    entry "Perf" "perf" "perf_mode" true
    ∷ entry "Java" "java" "java_mode" false
    ∷ entry "Ruby" "ruby" "ruby_mode" false
    ∷ []

abbrev user_args : Dict Json
user_args =
    ("profiling_mode", str "cpu")
    ∷ ("ruby_mode", str "disabled")
    ∷ ("java_version", str "17")
    ∷ ("frequency", num (pos 11))
    ∷ []

abbrev machine : Machine
machine = record { arch = "x86_64"; is_windows = false; create = λ name kwargs. ok 1 }

profiler_kwargs-own_example : lookup "java_version" (profiler_kwargs "perf" user_args []) ≡ none
unfolding contains lookup
profiler_kwargs-own_example = profiler_kwargs-own "perf" "java_version" user_args [] refl refl

created : get_profilers machine registry user_args [] ≡ profilers (some 1) (1 ∷ [])
unfolding get_profilers create_loop is_eligible profiler_kwargs contains lookup insert
created = refl

get_profilers-profilers_example :
    (some 1 ≡ system_profiler machine user_args [] registry none)
    × (1 ∷ [] ≡ process_profilers machine user_args [] registry)
unfolding lookup
get_profilers-profilers_example =
    get_profilers-profilers machine user_args [] registry (some 1) (1 ∷ []) refl created
