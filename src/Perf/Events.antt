-- ===== src/Perf/Events.antt =====
-- gprofiler/profilers/perf_events.py: which PMU events perf may record.
pub mod Validation
pub mod Detection
use gprofiler.Prelude.{ℕ, String, Bool, true, false, ◌&&◌, List, [], ◌∷◌, ◌++◌, ◌==◌}
use gprofiler.Prelude.Tests.{if◌then◌else◌, leb, eqb}
use gprofiler.Prelude.Lists.{contains, is_empty, length}
use gprofiler.Prelude.Result.{Exn, timeout_expired, other_error}
use gprofiler.Prelude.Python.{StrMethods, add, sorted}
use text.Mathlib.Text.{starts_with}

abbrev pub supported_pmu_events : List String
supported_pmu_events =
    "cycles" ∷ "cpu-cycles" ∷ "instructions" ∷ "cache-misses" ∷ "cache-references" ∷ "branch-misses"
    ∷ "branch-instructions" ∷ "stalled-cycles-frontend" ∷ "stalled-cycles-backend" ∷ []

-- event in SUPPORTED_PMU_EVENTS
unfoldable pub is_supported : String → Bool
unfolding contains
is_supported event = contains event supported_pmu_events

-- PMU_EVENT_ALIASES.get(event, event)
unfoldable pub pmu_event_aliases : String → String
pmu_event_aliases event = if event == "cpu-cycles" then "cycles" else event

abbrev pub default_pmu_event : String
default_pmu_event = "cycles"

-- How `perf list pmu` ended: its exit status with its output, or an exception of `subprocess.run`.
pub data PerfList : Type 0 where
  exited : ℕ → String → PerfList
  raised : Exn → PerfList

-- The body of the loop over the output: the first word of a line, and the third behind an "or".
abbrev pub words_events : StrMethods → List String → List String → List String
words_events py events [] = events
words_events py events (name ∷ word ∷ alias ∷ more) =
    if py.lower word == "or" then add alias (add name events) else add name events
words_events py events (name ∷ more) = add name events

abbrev pub line_events : StrMethods → List String → String → List String
line_events py events raw =
    let line = py.strip raw in
    if line == ""
    then events
    else if starts_with line "List of"
    then events
    else words_events py events (py.split line)

unfoldable pub lines_events : StrMethods → List String → List String → List String
lines_events py events [] = events
lines_events py events (line ∷ lines) = lines_events py (line_events py events line) lines

-- What `perf list pmu` printed. An exit status other than 0 gives the empty set.
unfoldable pub query_perf_hardware_events : StrMethods → ℕ → String → List String
query_perf_hardware_events py status stdout =
    if eqb status 0 then lines_events py [] (py.splitlines stdout) else []

-- Sets have no order of their own, and the caller sorts the result.
-- available_events.intersection(SUPPORTED_PMU_EVENTS)
unfoldable pub filter_supported_events : List String → List String
filter_supported_events [] = []
filter_supported_events (e ∷ es) =
    let kept = filter_supported_events es in if is_supported e then e ∷ kept else kept

unfoldable pub normalize_event_names : List String → List String
normalize_event_names [] = []
normalize_event_names (e ∷ es) = add (pmu_event_aliases e) (normalize_event_names es)

abbrev pub or_default : List String → List String
or_default [] = default_pmu_event ∷ []
or_default (e ∷ es) = e ∷ es

-- Both `except` clauses answer with the default event.
unfoldable pub detect_supported_pmu_events : StrMethods → PerfList → List String
detect_supported_pmu_events py (exited status stdout) = or_default (
    sorted (
      normalize_event_names
        (filter_supported_events (query_perf_hardware_events py status stdout))))
detect_supported_pmu_events py (raised e) = default_pmu_event ∷ []

-- One round of the loop of `validate_and_normalize_events`.
unfoldable pub keep_event : List String → String → List String
keep_event valid event =
    if is_supported event
    then (if contains (pmu_event_aliases event) valid
        then valid
        else valid ++ (pmu_event_aliases event ∷ []))
    else valid

unfoldable pub keep_events : List String → List String → List String
keep_events valid [] = valid
keep_events valid (e ∷ es) = keep_events (keep_event valid e) es

unfoldable pub validate_and_normalize_events : List String → List String
validate_and_normalize_events events = or_default (keep_events [] events)
