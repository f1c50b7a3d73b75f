-- ===== src/Perf/Cgroups/Names.antt =====
-- Cgroup paths as names for `perf -G`, and the check that perf can use one,
-- gprofiler/utils/cgroup_utils.py.
use text.Mathlib.Text.{starts_with}
use Prim.Native.String.{◌++◌ as ◌<>◌}
use gprofiler.Prelude.{String, Bool, false, ◌&&◌, ◌||◌, List, [], ◌∷◌}
use gprofiler.Prelude.Tests.{if◌then◌else◌}
use gprofiler.Perf.Paths.{after, replace, basename}
use gprofiler.Perf.Cgroups.{System, is_v2, detect_cgroup_version}

abbrev relative_to : List String → String → String
relative_to [] path = basename path
relative_to (base ∷ more) path =
    let rest = relative_to more path in if starts_with path base then after base path else rest

unfoldable pub cgroup_to_perf_name : String → String
cgroup_to_perf_name path =
    relative_to
      ("/sys/fs/cgroup/memory/" ∷ "/sys/fs/cgroup/cpu,cpuacct/" ∷ "/sys/fs/cgroup/cpuacct/" ∷ [])
      path

-- Where a container's cgroup may stand under the unified hierarchy.
abbrev pub possible_paths : String → List String
possible_paths id =
    ("/sys/fs/cgroup/system.slice/docker-" <> id <> ".scope")
    ∷ ("/sys/fs/cgroup/docker/" <> id)
    ∷ ("/sys/fs/cgroup/system.slice/docker.service/docker/" <> id)
    ∷ []

module _ (sys : System) where
  abbrev pub is_directory : String → Bool
  is_directory path = sys.exists path && sys.is_dir path

  abbrev any_directory : List String → Bool
  any_directory [] = false
  any_directory (p ∷ ps) = is_directory p || any_directory ps

  unfoldable pub validate_cgroup_perf_event_access : String → Bool
  validate_cgroup_perf_event_access cgroup_name =
      if is_v2 (detect_cgroup_version sys)
      then (if starts_with cgroup_name "docker/"
          then any_directory (possible_paths (replace "docker/" "" cgroup_name))
          else if starts_with cgroup_name "/sys/fs/cgroup/"
          then is_directory cgroup_name
          else is_directory ("/sys/fs/cgroup/" <> cgroup_name))
      else is_directory ("/sys/fs/cgroup/perf_event/" <> cgroup_name)
