-- ===== src/Agent.antt =====
-- The agent's profiling of gprofiler/main.py: how a GProfiler starts its profilers, collects their
-- results, and writes the profile.
pub mod Snapshot
pub mod Starting
pub mod Stripped
pub mod Containers
pub mod Tests
