-- ===== src/Lib.antt =====
-- A verification library of gProfiler's core: how the agent receives profiling commands, queues them,
-- decides which profiler runs, sets up `perf`, profiles processes, and merges the samples into a profile.
--
-- The parts, and how they interact:
-- - gprofiler/dynamic_profiling_management/heartbeat.py polls the server. An answer becomes a command in
--   one of three queues (command_control.py); each round takes the next command and starts, replaces,
--   pauses or stops the profilers in two slots (continuous.py, ad_hoc.py, over `ProfilerSlotBase` of
--   __init__.py). A profiler runs in a thread, whose end dequeues its command and frees its slot.
-- - A command's configuration becomes the arguments of a profiler and a set of profiler types
--   (__init__.py). Its perf events go through gprofiler/profilers/perf_events.py.
-- - gprofiler/profilers/pmu_manager.py caches the events that the host's perf reports, which the heartbeat
--   sends.
-- - A profiler selects processes and waits for the profile of each (gprofiler/profilers/profiler_base.py),
--   and watches for new ones. The tools it runs (gprofiler/utils/__init__.py) print stacks, which
--   gprofiler/utils/collapsed_format.py reads; gprofiler/merge.py puts the runtime profilers' samples in
--   place of perf's, and adds the applications' metadata and the containers' names
--   (gprofiler/containers_client.py).
-- - The agent (gprofiler/main.py) starts the profilers, collects their results and has them merged into a
--   text.
-- - gprofiler/utils/perf_process.py runs `perf record`, on the cgroups that
--   gprofiler/utils/cgroup_utils.py finds to use the most; gprofiler/utils/perf.py tries perf events out;
--   gprofiler/profilers/factory.py creates the profilers.
--
-- Which file models which part:
-- - DynamicProfiling/Json: the JSON values of an answer, with the Python operations on them.
-- - DynamicProfiling/Queues: `CommandManager`; its child Order has the abstract priority queue, Removal
--   what leaves a queue, Kept what stays.
-- - DynamicProfiling/ProfilerTypes and DynamicProfiling/Args with its children Perf and Java:
--   `get_enabled_profiler_types`, `create_profiler_args` and `_apply_profiler_configs`. Args/Frame,
--   Args/Configs and Args/Untouched are about the attributes that stay, Args/Agreement compares the two
--   functions.
-- - DynamicProfiling/Client: the history of command ids and `send_heartbeat`'s reading of an answer.
-- - DynamicProfiling/Slots and Slots/Lifecycle: both slots and their threads, over one state; Slots/Started is
--   about what a start leaves.
-- - DynamicProfiling/Manager: `_enqueue_command`, `_should_process` and `_process_command`; Manager/Loop:
--   the rounds of `start_heartbeat_loop`, ends of threads and `stop` as the steps of one machine.
-- - Perf/Events and Perf/PmuManager: perf_events.py and pmu_manager.py.
-- - Perf/Cgroups and its children: cgroup_utils.py; Perf/Paths and Perf/Numbers: the operations on texts.
-- - Perf/Process: perf_process.py; its child Command is about the command line, Lifetime about what runs.
-- - Perf/Discovery: `discover_appropriate_perf_event` of gprofiler/utils/perf.py.
-- - Perf/Script: the reading of `perf script`, of gprofiler/utils/perf.py; its child Blocks is about the
--   count of samples.
-- - Profilers/Smart: the merge of frame pointer and DWARF stacks, of gprofiler/profilers/perf.py;
--   Smart/Merged is about what each process gets, Smart/Parsed about the merge of two outputs of `perf script`.
-- - Profilers/Factory: gprofiler/profilers/factory.py.
-- - Profilers/Base and its children: profiler_base.py. Selection is about the limit on processes, Results
--   about the waiting, Spawning models the watching of new processes as a machine whose events are
--   executions and timers.
-- - Samples/Splits and Samples/Counters: `str.split` at one character, and `collections.Counter`.
-- - Samples/Collapsed and its children: collapsed_format.py; Many has `parse_many_collapsed`, Printed the
--   reading of printed lines.
-- - Samples/ErrorStacks, Samples/Arguments: gprofiler/gprofiler_types.py.
-- - Samples/Scaling, Samples/Merge, Samples/Metadata, Samples/Document: `scale_sample_counts`,
--   `merge_profiles`, the enrichment of stacks, and the profile's text, of merge.py.
-- - Samples/ContainerNames: containers_client.py.
-- - Agent/Snapshot: `start` and the texts of `_snapshot` of gprofiler/main.py; Agent/Starting is about the
--   profilers that are started, Agent/Containers about the container names in the text, Agent/Stripped
--   about `_strip_extra_data`.
-- - Utils/Waiting, Utils/Running, Utils/Processes, Utils/Signals, Utils/Dicts: the parts of
--   gprofiler/utils/__init__.py.
-- - Prelude: lists, dicts, exceptions as values, and the library's names. Each Tests module holds runs.
--
-- How the program is modelled:
-- - Exceptions are values of `Exn`. A `try` is a case on the result.
-- - The round of the loop and the end of a thread are atomic steps: the queues' lock makes their
--   operations atomic, the slots have no lock, and what an interleaving within a round can do is not
--   modelled. Within a round, `stop` waits for a thread: which threads end in time is a parameter
--   (`joins`).
-- - An arguments namespace is a dict. A set is a list with no text twice; the order in which Python lists
--   a set is a parameter.
-- - JSON numbers are integers, since the code only copies them and tests them for truth. Command ids are
--   texts.
-- - Ratios of samples are exact fractions where Python has floats; a random draw is a multiple of 2 ^ -53.
--   What a wait sees in each round is a function of the round. Metadata dictionaries are values with `==`
--   and `update`, each profile with one of its own.
-- - Outside the model, as parameters: the construction of a GProfiler, `bitmath`, the PerfSpect binary,
--   the host's name, the file system, the `docker` and `perf` commands, the parsing of numbers, the
--   methods of `str` that take text apart, the regular expressions for perf's output, random draws, JSON,
--   the container runtimes, the profiling of one process.
-- - Natural numbers have no bound, as Python's integers; scores of cgroups are exact where Python rounds.
-- - Texts are UTF-8: file names and container ids are cut at bytes, which are characters for the ASCII
--   names that the kernel and docker give.
-- - The loops that wait, `wait_event` and `run_process`, have fuel for their rounds; as many rounds as the
--   timeout has intervals, and one, are enough. All other loops run over lists. The helpers of Perf/Paths
--   and Perf/Numbers count rounds by the length of the text or the number, which is enough since each
--   round uses up a character or a digit.
--
-- Not modelled: the agent's loop over snapshots, its uploads and command line;
-- `concatenate_from_external_file`, `pgrep_maps` and the small file helpers; timestamps, logging and
-- metrics; TLS sessions and the requests' bodies; the threads that refresh certificates; and the profilers
-- themselves, but for what is listed above.
pub mod Prelude
pub mod Perf
pub mod Profilers
pub mod DynamicProfiling
pub mod Samples
pub mod Utils
pub mod Agent
