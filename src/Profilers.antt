-- ===== src/Profilers.antt =====
-- The creation of profilers, gprofiler/profilers.
pub mod Factory
pub mod Base
pub mod Smart
