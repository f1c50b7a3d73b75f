-- ===== src/DynamicProfiling/ProfilerTypes.antt =====
-- `get_enabled_profiler_types` of gprofiler/dynamic_profiling_management/__init__.py.
use gprofiler.Prelude.{String, Bool, true, false, ◌||◌, List, [], ◌∷◌}
use gprofiler.Prelude.Tests.{if◌then◌else◌}
use gprofiler.Prelude.Result.{Result, ok, ◌>>=◌}
use gprofiler.Prelude.Python.{add}
use gprofiler.DynamicProfiling.Json.{
  Json, null, str, obj, Fields, end, get, as_dict, truthy, is_text, is_false,
}

-- The keys of `profiler_configs`, each with the profiler that it configures.
abbrev pub profiler_type_map : List (String × String)
profiler_type_map =
    ("perf", "perf")
    ∷ ("async_profiler", "java")
    ∷ ("pyperf", "python")
    ∷ ("pyspy", "python")
    ∷ ("phpspy", "php")
    ∷ ("rbspy", "ruby")
    ∷ ("dotnet_trace", "dotnet")
    ∷ ("nodejs_perf", "nodejs")
    ∷ []

abbrev pub all_profiler_types : List String
all_profiler_types = "perf" ∷ "java" ∷ "python" ∷ "php" ∷ "ruby" ∷ "dotnet" ∷ "nodejs" ∷ []

-- Does the value of a key leave its profiler enabled?
unfoldable pub config_enables : Json → Bool
unfolding get
config_enables (obj d) =
    if is_false (get "enabled" null d) || is_text "disabled" (get "mode" null d)
    then false
    else true
config_enables (str s) = if is_text "disabled" (str s) then false else true
config_enables v = true

-- A key that is missing, or None, leaves its profiler enabled.
unfoldable pub enables : String → Fields → Bool
unfolding config_enables
enables key configs = config_enables (get key null configs)

unfoldable pub enabled_loop : List (String × String) → Fields → List String → List String
enabled_loop [] configs enabled = enabled
enabled_loop ((key, name) ∷ more) configs enabled =
    enabled_loop more configs (if enables key configs then add name enabled else enabled)

abbrev pub types_of_configs : Json → Result (List String)
types_of_configs configs =
    if truthy configs
    then (do d ← as_dict configs; ok (enabled_loop profiler_type_map d []))
    else ok all_profiler_types

unfoldable pub get_enabled_profiler_types : Fields → Result (List String)
get_enabled_profiler_types profiling_command = do
  combined_config ← as_dict (get "combined_config" (obj end) profiling_command)
  types_of_configs (get "profiler_configs" (obj end) combined_config)
