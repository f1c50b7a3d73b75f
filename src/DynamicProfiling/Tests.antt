-- ===== src/DynamicProfiling/Tests.antt =====
-- Concrete commands and states, shared by the runs in the modules below.
pub mod Queues
pub mod Slots
pub mod Blocking
pub mod Args
use gprofiler.Prelude.{
  ℕ, zero, suc, String, Bool, true, false, Option, none, some, List, [], ◌∷◌, ◌++◌,
}
use gprofiler.Prelude.Result.{ok, err, other_error, value_error}
use gprofiler.DynamicProfiling.Json.{pos, Json, null, bool, num, str, arr, obj, Fields, end, field}
use gprofiler.DynamicProfiling.Queues.{ProfilingCommand, CommandManager, empty_queues}
use gprofiler.DynamicProfiling.Client.{new_client}
use gprofiler.DynamicProfiling.Args.{Outside}
use gprofiler.DynamicProfiling.Args.Perf.{Namespace}
use gprofiler.DynamicProfiling.Slots.{Slot, free_slot, State, Env}

abbrev pub command_of : String → String → Fields → Bool → ProfilingCommand
command_of i type body continuous = record {
  command_id = i;
  command_type = str type;
  profiling_command = body;
  is_continuous = continuous;
  is_paused = false;
}

abbrev pub with_config : Fields → Fields
with_config config = field "command_type" (str "start") (field "combined_config" (obj config) end)

abbrev pub continuous_config : Fields
continuous_config = with_config (field "continuous" (bool true) end)

-- Only Ruby stays enabled.
abbrev pub ruby_config : Fields
ruby_config = with_config (
    field "profiler_configs"
      (obj (
        field "perf" (str "disabled") (
          field "async_profiler" (str "disabled") (
            field "pyperf" (str "disabled") (
              field "pyspy" (str "disabled") (
                field "phpspy" (str "disabled") (
                  field "dotnet_trace" (str "disabled")
                    (field "nodejs_perf" (str "disabled") end))))))))
      end)

abbrev pub adhoc_command : ProfilingCommand
adhoc_command = command_of "a" "start" ruby_config false

abbrev pub continuous_command : ProfilingCommand
continuous_command = command_of "c" "start" continuous_config true

abbrev pub stop_command : ProfilingCommand
stop_command = command_of "s" "stop" end false

abbrev pub base_args : Namespace
base_args =
    ("heartbeat_perf_restricted_max_system_processes_for_system_profilers", num (pos 600))
    ∷ ("heartbeat_perf_restricted_max_docker_containers", num (pos 2))
    ∷ ("output_dir", str "/tmp")
    ∷ []

abbrev pub env : Env
env = record {
  outside = record {
    hostname = "host";
    perfspect_path = err other_error;
    is_executable = λ path. false;
    parse_size = λ size. ok (pos 2097152);
  };
  base_args = base_args;
  create_instance = λ args. ok tt;
  set_order = λ ids. ids;
  joins = λ n. true;
}

abbrev pub idle_state : CommandManager → State
idle_state queues = record {
  queues = queues;
  continuous = free_slot;
  adhoc = free_slot;
  client = new_client;
  live = [];
  next_number = 0;
  sent = [];
  stop_event = false;
}

abbrev pub running_slot : ℕ → ProfilingCommand → List String → Slot
running_slot n command types = record {
  gprofiler = some n;
  thread = some n;
  command = some command;
  profiler_types = types;
}

-- The continuous profiler runs, its command is queued, and an ad-hoc one waits.
abbrev pub busy_queues : CommandManager
busy_queues = record {
  stop_queue = [];
  adhoc_queue = adhoc_command ∷ [];
  continuous_queue = continuous_command ∷ [];
}

abbrev pub busy_state : State
busy_state = record (idle_state busy_queues) {
  continuous = running_slot 7 continuous_command ("perf" ∷ []);
  next_number = 8;
}
