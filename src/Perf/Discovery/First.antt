-- ===== src/Perf/Discovery/First.antt =====
-- Which event the discovery takes, and what it leaves running, gprofiler/utils/perf.py.
use gprofiler.Prelude.{Bool, List, [], ◌∷◌}
use gprofiler.Prelude.Tests.{if◌then◌else◌}
use gprofiler.Prelude.Result.{Result, ok, err, perf_no_supported_event}
use gprofiler.Perf.Discovery.{SupportedPerfEvent}

-- The first event in the list whose trial gave samples.
abbrev pub first_working :
    (SupportedPerfEvent → Bool) → List SupportedPerfEvent → Result SupportedPerfEvent
first_working worked [] = err perf_no_supported_event
first_working worked (e ∷ es) =
    let rest = first_working worked es in if worked e then ok e else rest
