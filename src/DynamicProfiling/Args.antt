-- ===== src/DynamicProfiling/Args.antt =====
-- `create_profiler_args` and `_apply_profiler_configs` of gprofiler/dynamic_profiling_management/__init__.py:
-- a command's configuration becomes an arguments namespace.
pub mod Perf
pub mod Java
pub mod Frame
pub mod Configs
pub mod Untouched
pub mod Agreement
use text.Mathlib.Text.{find? as find_text}
use gprofiler.Prelude.{
  ℕ, String, Bool, true, false, not, ◌&&◌, Option, none, some, List, [], ◌∷◌, ◌==◌,
}
use gprofiler.Prelude.Tests.{if◌then◌else◌, is_some}
use gprofiler.Prelude.Lists.{contains}
use gprofiler.Prelude.Dict.{insert}
use gprofiler.Prelude.Result.{Result, ok, err, type_error, ◌>>=◌}
use gprofiler.DynamicProfiling.Json.{
  ℤ, pos, Json, bool, num, str, arr, obj, Fields, end, find, get, as_dict, truthy, is_text, texts,
}
use Perf.{Namespace, apply_perf}
use Java.{ParseSize, apply_java}

-- What the translation finds outside: the host's name, the bundled PerfSpect, `bitmath`.
pub record Outside : Type 0 where
  pub hostname : String
  pub perfspect_path : Result String
  pub is_executable : String → Bool
  pub parse_size : ParseSize

unfoldable pub set_pyperf : Json → Namespace → Namespace
set_pyperf pyperf args =
    if is_text "enabled" pyperf
    then insert "python_mode" (str "pyperf")
        (insert "python_skip_pyperf_profiler_above" (num (pos 1500)) args)
    else if is_text "disabled" pyperf
    then insert "python_mode" (str "disabled") args
    else args

unfoldable pub set_pyspy : Json → Json → Namespace → Namespace
set_pyspy pyperf pyspy args =
    if is_text "enabled_fallback" pyspy
    then insert "python_mode" (str "auto") args
    else if is_text "enabled" pyspy
    then insert "python_mode" (str "pyspy") args
    else if is_text "disabled" pyspy && is_text "disabled" pyperf
    then insert "python_mode" (str "disabled") args
    else args

unfoldable pub apply_python : Fields → Namespace → Namespace
apply_python configs args =
    let pyperf = get "pyperf" (str "enabled") configs in
    set_pyspy pyperf (get "pyspy" (str "enabled_fallback") configs) (set_pyperf pyperf args)

-- `profiler_configs.get(key) == "disabled"` switches a mode off.
unfoldable pub switch_off : String → String → String → Fields → Namespace → Namespace
switch_off key mode off configs args =
    if is_text "disabled" (get key Json.null configs) then insert mode (str off) args else args

unfoldable pub apply_others : Fields → Namespace → Namespace
apply_others configs args = switch_off "nodejs_perf" "nodejs_mode" "none" configs (
    switch_off "dotnet_trace" "dotnet_mode" "disabled" configs (
      switch_off "rbspy" "ruby_mode" "disabled" configs
        (switch_off "phpspy" "php_mode" "disabled" configs args)))

unfoldable pub apply_profiler_configs : ParseSize → Fields → Namespace → Result Namespace
apply_profiler_configs parse configs args = do
  args' ← apply_perf configs args
  args'' ← apply_java parse configs (apply_python configs args')
  ok (apply_others configs args'')

-- `if key in config: args.name = config[key]`
unfoldable pub copy_key : String → Fields → Namespace → Namespace
copy_key key config args = elim (find key config) [ none ↦ args | some v ↦ insert key v args ]

-- `hostname not in targets` under `if targets:`; a number or True has no membership test.
abbrev field_names : Fields → List String
field_names end = []
field_names (Fields.field k v fs) = k ∷ field_names fs

unfoldable pub is_target : String → Json → Result Bool
is_target host (arr hosts) = ok (contains host (texts hosts))
is_target host (str s) = ok (is_some (find_text s host))
is_target host (obj d) = ok (contains host (field_names d))
is_target host v = err type_error

unfoldable pub targets_host : String → Fields → Result Bool
targets_host host config =
    let targets = get "target_hostnames" Json.null config in
    if truthy targets then is_target host targets else ok true

-- The namespace after the hardware metrics setting.
unfoldable pub apply_perfspect : Outside → Fields → Namespace → Result Namespace
apply_perfspect out config args =
    if truthy (get "enable_perfspect" (bool false) config)
    then (do
      path ← out.perfspect_path
      ok (
          if out.is_executable path
          then insert "tool_perfspect_path" (str path)
              (insert "collect_hw_metrics" (bool true) args)
          else insert "collect_hw_metrics" (bool false) args))
    else ok args

unfoldable pub copy_pids : Fields → Namespace → Namespace
copy_pids config args =
    let pids = get "pids" Json.null config in
    if truthy pids then insert "pids_to_profile" pids args else args

unfoldable pub apply_continuous : Fields → Namespace → Namespace
apply_continuous config args =
    let continuous = get "continuous" (bool false) config in
    insert "flamegraph" (bool (not (truthy continuous))) (insert "continuous" continuous args)

abbrev pub apply_configs : Outside → Json → Namespace → Result Namespace
apply_configs out configs args =
    if truthy configs
    then (do d ← as_dict configs; apply_profiler_configs out.parse_size d args)
    else ok args

-- The part behind the check of the host.
unfoldable pub fill_args : Outside → Fields → Namespace → Result Namespace
fill_args out config args = do
  args' ← apply_perfspect out config (apply_continuous config (copy_pids config args))
  apply_configs out (get "profiler_configs" (obj end) config)
      (insert "max_processes_per_profiler" (get "max_processes" (num (pos 10)) config) args')

unfoldable pub copy_keys : Fields → Namespace → Namespace
copy_keys config args =
    copy_key "profiling_mode" config (copy_key "frequency" config (copy_key "duration" config args))

abbrev pub fill_if : Bool → Outside → Fields → Namespace → Result (Option Namespace)
fill_if true out config args = do args' ← fill_args out config args; ok (some args')
fill_if false out config args = ok none

-- None where the host is no target of the command.
unfoldable pub create_profiler_args : Outside → Namespace → Fields → Result (Option Namespace)
create_profiler_args out base_args profiling_command = do
  config ← as_dict (get "combined_config" (obj end) profiling_command)
  targeted ← targets_host out.hostname config
  fill_if targeted out config (copy_keys config base_args)
