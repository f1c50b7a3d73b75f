-- ===== src/DynamicProfiling/Args/Java.antt =====
-- The Java part of `_apply_profiler_configs`. `bitmath` is a parameter: the size of a text in bytes.
use gprofiler.Prelude.{String, ◌==◌, Bool, true, false, not, List, [], ◌∷◌}
use gprofiler.Prelude.Tests.{if◌then◌else◌}
use gprofiler.Prelude.Lists.{contains}
use gprofiler.Prelude.Dict.{insert}
use gprofiler.Prelude.Result.{Exn, Result, ok, err, value_error, ◌>>=◌}
use gprofiler.DynamicProfiling.Json.{
  ℤ, Json, bool, num, str, arr, obj, Fields, field, end, get, truthy, is_text,
}
use gprofiler.DynamicProfiling.Args.Perf.{Namespace}

-- int(bitmath.parse_string(text).to_Byte())
abbrev pub ParseSize : Type 0
ParseSize = String → Result ℤ

abbrev pub valid_ap_time_modes : List String
valid_ap_time_modes = "cpu" ∷ "itimer" ∷ "wall" ∷ "auto" ∷ "alloc" ∷ []

-- `value in _VALID_AP_TIME_MODES`
abbrev pub is_valid_mode : Json → Bool
is_valid_mode (str s) = contains s valid_ap_time_modes
is_valid_mode v = false

-- A list or a dict cannot be looked up in a set, which is a TypeError; another value is refused.
abbrev pub mode_error : Json → Exn
mode_error (arr items) = Exn.type_error
mode_error (obj d) = Exn.type_error
mode_error v = Exn.value_error

-- A non-empty text gives the interval; a failure to parse it is a ValueError too.
unfoldable pub alloc_frequency : ParseSize → Json → Result ℤ
alloc_frequency parse (str s) = if s == "" then err value_error else parse s
alloc_frequency parse v = err value_error

module _ (parse : ParseSize) where
  unfoldable pub apply_java_dict : Fields → Namespace → Result Namespace
  apply_java_dict d args =
      let mode = get "time" (str "cpu") d in
      if not (truthy (get "enabled" (bool true) d))
      then ok (insert "java_mode" (str "disabled") args)
      else if not (is_valid_mode mode)
      then err (mode_error mode)
      else if is_text "alloc" mode
      then (do
        bytes ← alloc_frequency parse (get "alloc_interval" (str "2MB") d)
        ok (insert "frequency" (num bytes) (insert "profiling_mode" (str "allocation") args)))
      else ok (insert "java_async_profiler_mode" mode args)

  unfoldable pub apply_java_config : Json → Namespace → Result Namespace
  apply_java_config (obj d) args = apply_java_dict d args
  apply_java_config v args =
      if is_text "disabled" v
      then ok (insert "java_mode" (str "disabled") args)
      else if is_text "enabled_wall" v
      then ok (insert "java_async_profiler_mode" (str "wall") args)
      else if is_text "enabled_alloc" v
      then (do
        bytes ← parse "2MB"
        ok (insert "frequency" (num bytes) (insert "profiling_mode" (str "allocation") args)))
      else ok (insert "java_async_profiler_mode" (str "cpu") args)

  abbrev pub default_java : Json
  default_java = obj (field "enabled" (bool true) (field "time" (str "cpu") end))

  unfoldable pub apply_java : Fields → Namespace → Result Namespace
  apply_java configs args = apply_java_config (get "async_profiler" default_java configs) args
