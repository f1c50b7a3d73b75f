-- ===== src/DynamicProfiling/Args/Perf.antt =====
-- The perf part of `_apply_profiler_configs`, and the namespace that it writes to.
use gprofiler.Prelude.{String, none, some, List, [], ◌∷◌}
use gprofiler.Prelude.Tests.{if◌then◌else◌}
use gprofiler.Prelude.Dict.{Dict, lookup, insert}
use gprofiler.Prelude.Result.{Result, ok, err, attribute_error, ◌>>=◌}
use gprofiler.Perf.Numbers.{join_commas}
use gprofiler.Perf.Events.{validate_and_normalize_events}
use gprofiler.DynamicProfiling.Json.{Json, str, arr, obj, Fields, cons, nil, get, is_text, texts}

-- configargparse.Namespace: attributes by name.
abbrev pub Namespace : Type 0
Namespace = Dict Json

-- args.name
unfoldable pub attr : String → Namespace → Result Json
unfolding lookup
attr name args = elim (lookup name args) [ none ↦ err attribute_error | some v ↦ ok v ]

-- args.target = args.source
unfoldable pub copy_attr : String → String → Namespace → Result Namespace
copy_attr target source args = do v ← attr source args; ok (insert target v args)

-- The limits of the two perf modes; another value than these three sets nothing.
unfoldable pub apply_perf_mode : Json → Namespace → Result Namespace
apply_perf_mode mode args =
    if is_text "enabled_restricted" mode
    then (do
      args' ←
          copy_attr "max_system_processes_for_system_profilers"
            "heartbeat_perf_restricted_max_system_processes" args
      copy_attr "perf_max_docker_containers" "heartbeat_perf_restricted_max_docker_containers"
          args')
    else if is_text "enabled_aggressive" mode
    then (do
      args' ←
          copy_attr "max_system_processes_for_system_profilers"
            "heartbeat_perf_aggressive_max_system_processes" args
      copy_attr "perf_max_docker_containers" "heartbeat_perf_aggressive_max_docker_containers"
          args')
    else if is_text "disabled" mode
    then ok (insert "perf_mode" (str "disabled") args)
    else ok args

-- A text stands for itself, what is neither text nor list for the default. Items that are no texts are
-- no supported events, and validation drops them.
abbrev pub requested_events : Json → List String
requested_events (str s) = s ∷ []
requested_events (arr items) = texts items
requested_events v = "cycles" ∷ []

unfoldable pub apply_perf_config : Json → Namespace → Result Namespace
apply_perf_config (obj d) args = do
  let events =
      validate_and_normalize_events
        (requested_events (get "events" (arr (cons (str "cycles") nil)) d))
  args' ← apply_perf_mode (get "mode" (str "enabled_restricted") d) args
  ok (insert "perf_events" (str (join_commas events)) args')
apply_perf_config v args = do
  args' ← apply_perf_mode v args
  ok (insert "perf_events" (str "cycles") args')

unfoldable pub apply_perf : Fields → Namespace → Result Namespace
apply_perf configs args = apply_perf_config (get "perf" (str "enabled_restricted") configs) args
