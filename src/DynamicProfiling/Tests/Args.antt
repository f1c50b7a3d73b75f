-- ===== src/DynamicProfiling/Tests/Args.antt =====
-- Runs of the translation of a command into arguments.
use gprofiler.Prelude.{◌≡◌, refl, false, Option, some, []}
use gprofiler.Prelude.Lists.{contains}
use gprofiler.Prelude.Dict.{lookup, insert}
use gprofiler.Prelude.Result.{Result, ok}
use gprofiler.DynamicProfiling.Json.{bool, str, Fields, end, field, as_dict, get, find}
use gprofiler.DynamicProfiling.Args.{
  create_profiler_args, targets_host, copy_keys, copy_key, fill_args, apply_perfspect,
  apply_continuous, copy_pids, apply_profiler_configs, apply_python, set_pyperf, set_pyspy,
  apply_others, switch_off,
}
use gprofiler.DynamicProfiling.Args.Java.{apply_java, apply_java_config}
use gprofiler.DynamicProfiling.Args.Perf.{Namespace, apply_perf, apply_perf_config, apply_perf_mode}
use gprofiler.DynamicProfiling.Args.Frame.{managed}
use gprofiler.DynamicProfiling.Args.Untouched.{create_profiler_args-untouched}
use gprofiler.DynamicProfiling.Tests.{env, base_args, ruby_config}

abbrev made_or : Namespace → Result (Option Namespace) → Namespace
made_or args (ok (some args')) = args'
made_or args r = args

abbrev some_args : Namespace
some_args = made_or [] (create_profiler_args env.outside base_args ruby_config)

ruby_translated : create_profiler_args env.outside base_args ruby_config ≡ ok (some some_args)
unfolding create_profiler_args as_dict get find targets_host copy_keys copy_key fill_args
    apply_perfspect apply_continuous copy_pids apply_profiler_configs apply_perf apply_perf_config
    apply_perf_mode apply_python set_pyperf set_pyspy apply_java apply_java_config apply_others
    switch_off insert lookup
ruby_translated = refl

create_profiler_args-untouched_example :
    lookup "output_dir" some_args ≡ lookup "output_dir" base_args
unfolding contains managed
create_profiler_args-untouched_example =
    create_profiler_args-untouched "output_dir" refl env.outside base_args ruby_config some_args
      ruby_translated

abbrev ruby_off : Fields
ruby_off = field "rbspy" (str "disabled") end

abbrev php_off : Fields
php_off = field "enabled" (bool false) end
