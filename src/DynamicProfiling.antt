-- ===== src/DynamicProfiling.antt =====
-- gprofiler/dynamic_profiling_management: profiling commands that the server sends by heartbeat.
pub mod Json
pub mod Queues
pub mod ProfilerTypes
pub mod Args
pub mod Client
pub mod Slots
pub mod Manager
pub mod Tests
