-- ===== src/Samples/Metadata/Index.antt =====
-- The index that gprofiler/merge.py writes before a stack, and the list of metadata it stands for.
use Prim.Native.String.{◌++◌ as ◌⧺◌}
use gprofiler.Prelude.{ℕ, Option, List, ◌++◌}
use gprofiler.Samples.Metadata.{EnrichmentOptions, ProfileData, Dictionaries, enrich_profiles}

module _ {M : Type 0} (dicts : Dictionaries M) (options : EnrichmentOptions)
    (external : ℕ → Option M) where
  -- The list after some processes.
  abbrev pub listed_after : List (ℕ × ProfileData M) → List (Option M) → List (Option M)
  listed_after profiles entries = (enrich_profiles dicts options external profiles entries).1
