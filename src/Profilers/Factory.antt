-- ===== src/Profilers/Factory.antt =====
-- `get_profilers` of gprofiler/profilers/factory.py. The constructors of the profilers are a parameter, and
-- a profiler that was created is a number.
pub mod Creation
pub mod Tests
use text.Mathlib.Text.{starts_with}
use gprofiler.Prelude.{
  ℕ, String, Bool, true, false, not, ◌&&◌, ◌||◌, Option, none, some, List, [], ◌∷◌, ◌++◌, ◌==◌,
}
use gprofiler.Prelude.Tests.{if◌then◌else◌}
use gprofiler.Prelude.Lists.{contains}
use gprofiler.Prelude.Dict.{Dict, lookup, insert}
use gprofiler.Prelude.Result.{Exn, Result, ok, err, perf_no_supported_event}
use gprofiler.DynamicProfiling.Json.{Json, str, is_text}

-- An entry of the registry; `mode_key` is f"{name.lower()}_mode".
pub record ProfilerConfig : Type 0 where
  pub name : String
  pub lower_name : String
  pub mode_key : String
  pub supported_archs : List String
  pub supported_windows_archs : List String
  pub supported_profiling_modes : List String
  pub is_system : Bool

-- What the function finds outside.
pub record Machine : Type 0 where
  pub arch : String
  pub is_windows : Bool
  pub create : String → Dict Json → Result ℕ

-- The system profiler, None for the NoopProfiler, and the process profilers; or the end of the agent.
pub data Created : Type 0 where
  profilers : Option ℕ → List ℕ → Created
  exited : Created

abbrev pub common_profiler_argument_names : List String
common_profiler_argument_names = "frequency" ∷ "duration" ∷ "min_duration" ∷ []

abbrev pub is_profiler_disabled : Option Json → Bool
is_profiler_disabled none = false
is_profiler_disabled (some mode) = is_text "none" mode || is_text "disabled" mode

abbrev pub is_in : Option Json → List String → Bool
is_in (some (str name)) names = contains name names
is_in other names = false

-- The three tests that end in `continue`.
unfoldable pub is_eligible : Machine → Dict Json → ProfilerConfig → Bool
is_eligible machine user_args config =
    not (is_profiler_disabled (lookup config.mode_key user_args))
    && contains machine.arch
        (if machine.is_windows then config.supported_windows_archs else config.supported_archs)
    && is_in (lookup "profiling_mode" user_args) config.supported_profiling_modes

-- The arguments of a constructor.
unfoldable pub profiler_kwargs : String → Dict Json → Dict Json → Dict Json
profiler_kwargs lower_name [] kwargs = kwargs
profiler_kwargs lower_name ((key, value) ∷ more) kwargs = profiler_kwargs lower_name more (
    if starts_with key lower_name || contains key common_profiler_argument_names
    then insert key value kwargs
    else kwargs)

-- The rest of the loop, with what was created so far.
unfoldable pub create_loop :
    Machine → Dict Json → Dict Json → List ProfilerConfig → Option ℕ → List ℕ → Created
create_loop machine user_args kwargs [] system processes = profilers system processes
create_loop machine user_args kwargs (config ∷ more) system processes =
    if is_eligible machine user_args config
    then elim (machine.create config.name (profiler_kwargs config.lower_name user_args kwargs)) [
      | ok p ↦
          if config.is_system
          then create_loop machine user_args kwargs more (some p) processes
          else create_loop machine user_args kwargs more system (processes ++ (p ∷ []))
      | err perf_no_supported_event ↦ create_loop machine user_args kwargs more system processes
      | err e ↦ exited
    ]
    else create_loop machine user_args kwargs more system processes

abbrev pub is_none_mode : Option Json → Bool
is_none_mode none = false
is_none_mode (some mode) = is_text "none" mode

unfoldable pub get_profilers : Machine → List ProfilerConfig → Dict Json → Dict Json → Created
get_profilers machine registry user_args kwargs =
    if is_none_mode (lookup "profiling_mode" user_args)
    then profilers none []
    else create_loop machine user_args kwargs registry none []
