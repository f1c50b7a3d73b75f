-- ===== src/Perf.antt =====
-- Hardware events, cgroups and the process of `perf`: gprofiler/profilers/perf_events.py and pmu_manager.py,
-- gprofiler/utils/cgroup_utils.py, perf_process.py and perf.py.
pub mod Events
pub mod PmuManager
pub mod Paths
pub mod Cgroups
pub mod Numbers
pub mod Process
pub mod Discovery
pub mod Script
pub mod Tests
