-- ===== src/Samples.antt =====
-- The stacks that the profilers sample, from their text to the merged profile:
-- gprofiler/gprofiler_types.py, gprofiler/utils/collapsed_format.py and gprofiler/merge.py.
pub mod Splits
pub mod Counters
pub mod Collapsed
pub mod ErrorStacks
pub mod Scaling
pub mod Metadata
pub mod Merge
pub mod ContainerNames
pub mod Document
pub mod Arguments
pub mod Tests
