-- ===== src/Utils.antt =====
-- gprofiler/utils/__init__.py and the state kept beside it.
pub mod Waiting
pub mod Processes
pub mod Signals
pub mod Dicts
pub mod Running
pub mod Tests
