-- ===== src/Perf/PmuManager.antt =====
-- gprofiler/profilers/pmu_manager.py: the cache of the detected events.
-- The lock makes `_detect_and_cache_events` one step; the singleton is the one value that is passed on.
use gprofiler.Prelude.{◌≡◌, refl, inl, inr, String, Bool, true, false, Option, none, some, List, []}
use gprofiler.Prelude.Tests.{if◌then◌else◌, Bool-cases}
use gprofiler.Prelude.Result.{Result, ok, err}
use gprofiler.Prelude.Python.{StrMethods}
use gprofiler.Perf.Events.{PerfList, detect_supported_pmu_events}
use gprofiler.Perf.Events.Validation.{IsEventList}
use gprofiler.Perf.Events.Detection.{detect-IsEventList}

pub record PmuEventsManager : Type 0 where
  pub supported_events : List String
  pub detection_attempted : Bool

abbrev pub new_manager : PmuEventsManager
new_manager = record { supported_events = []; detection_attempted = false }

-- What a call finds outside: `resource_path("perf")`, and how a perf binary answers.
pub record Host : Type 0 where
  pub resource_perf : Result String
  pub perf_list : String → PerfList

module _ (py : StrMethods) where
  abbrev get_perf_path : Result String → String
  get_perf_path (ok path) = path
  get_perf_path (err e) = "/usr/bin/perf"

  abbrev resolve : Host → Option String → String
  resolve host (some path) = path
  resolve host none = get_perf_path host.resource_perf

  unfoldable pub detect_and_cache_events :
      Host → Option String → PmuEventsManager → PmuEventsManager
  detect_and_cache_events host path m = if m.detection_attempted then m else record m {
    detection_attempted = true;
    supported_events = detect_supported_pmu_events py (host.perf_list (resolve host path));
  }

  unfoldable pub get_supported_events :
      Host → Option String → PmuEventsManager → PmuEventsManager × List String
  unfolding detect_and_cache_events
  get_supported_events host path m =
      let m' = if m.detection_attempted then m else detect_and_cache_events host path m in
      (m', m'.supported_events)

  unfoldable pub refresh_events : Host → Option String → PmuEventsManager → PmuEventsManager
  unfolding get_supported_events
  refresh_events host path m =
      (get_supported_events host path
        (record m { detection_attempted = false; supported_events = [] })).0

  -- From a manager whose cache, if filled, can be given to perf: every call answers with at least one
  -- event, all canonical and none twice, and after it any call on any host answers the same and changes
  -- nothing.
  get_supported_events-cached :
      (m : PmuEventsManager) (host later : Host) (path path' : Option String)
      → (m.detection_attempted ≡ true → IsEventList m.supported_events)
      → let (m', events) = get_supported_events host path m in
        IsEventList events × (get_supported_events later path' m' ≡ (m', events))
  unfolding get_supported_events
  get_supported_events-cached m host later path path' h = elim (Bool-cases m.detection_attempted) [
    | inl filled ↦ simp filled (h filled, refl)
    | inr fresh ↦ simp fresh (detect-IsEventList py _, refl)
  ]

  -- After a refresh the manager answers what the perf of that moment reports, whatever was cached.
  refresh_events-fresh :
      (m : PmuEventsManager) (host later : Host) (path path' : Option String)
      → (get_supported_events later path' (refresh_events host path m)).1
        ≡ (get_supported_events host path new_manager).1
  unfolding refresh_events
  refresh_events-fresh m host later path path' = refl
