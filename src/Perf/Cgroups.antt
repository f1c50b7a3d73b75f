-- ===== src/Perf/Cgroups.antt =====
-- gprofiler/utils/cgroup_utils.py: which cgroups use the most. The file system, the `docker` and
-- `perf` commands, number parsing and the order of a set are the record `System`.
pub mod Usage
pub mod Names
pub mod Docker
pub mod Top
pub mod Containers
pub mod Bounds
use text.Mathlib.Text.{starts_with}
use gprofiler.Prelude.{
  ℕ, String, Bool, true, false, not, ◌&&◌, ◌||◌, Option, none, some, List, [], ◌∷◌, ◌==◌,
}
use gprofiler.Prelude.Tests.{if◌then◌else◌}
use gprofiler.Prelude.Result.{Result}
use gprofiler.Perf.Paths.{has}

pub record Completed : Type 0 where
  pub returncode : ℕ
  pub stdout : String

-- A read that fails with OSError is `none`; a command that raises is an error.
pub record System : Type 0 where
  pub exists : String → Bool
  pub is_dir : String → Bool
  pub read : String → Option String
  pub read_lines : String → Option (List String)
  pub listdir : String → Option (List String)
  pub walk : String → List String
  pub glob : String → Result (List String)
  pub set_order : List String → List String
  pub run : List String → Result Completed
  pub strip : String → String
  pub lower : String → String
  pub words : String → List String
  pub split_on : String → String → List String
  pub parse_int : String → Option ℕ
  pub parse_percent : String → Option ℕ

pub data CgroupVersion : Type 0 where
  v1 v2 unknown : CgroupVersion

abbrev pub is_v2 : CgroupVersion → Bool
is_v2 CgroupVersion.v2 = true
is_v2 v = false

abbrev pub is_unknown : CgroupVersion → Bool
is_unknown CgroupVersion.unknown = true
is_unknown v = false

module _ (sys : System) where
  -- any("docker" in entry.lower() ...) over what can be listed
  abbrev any_docker : List String → Bool
  any_docker [] = false
  any_docker (e ∷ es) = has "docker" (sys.lower e) || any_docker es

  abbrev lists_docker : Option (List String) → Bool
  lists_docker none = false
  lists_docker (some entries) = any_docker entries

  abbrev any_v2_docker : List String → Bool
  any_v2_docker [] = false
  any_v2_docker (p ∷ ps) = (sys.exists p && lists_docker (sys.listdir p)) || any_v2_docker ps

  -- The check of the file system, where the mounts decide nothing.
  abbrev by_structure : CgroupVersion
  by_structure =
      if sys.exists "/sys/fs/cgroup/memory" || sys.exists "/sys/fs/cgroup/cpu,cpuacct"
      then CgroupVersion.v1
      else if sys.exists "/sys/fs/cgroup/cgroup.controllers"
      then CgroupVersion.v2
      else CgroupVersion.unknown

  abbrev by_mounts : Option String → CgroupVersion
  by_mounts none = by_structure
  by_mounts (some mounts) =
      let v1_mounted = has "/sys/fs/cgroup/memory" mounts || has "/sys/fs/cgroup/cpu" mounts in
      if has "cgroup2" mounts && has "/sys/fs/cgroup" mounts
      then (if any_v2_docker ("/sys/fs/cgroup/system.slice" ∷ "/sys/fs/cgroup/docker" ∷ [])
          then CgroupVersion.v2
          else if v1_mounted
          then CgroupVersion.v1
          else CgroupVersion.v2)
      else if has "cgroup" mounts && v1_mounted
      then CgroupVersion.v1
      else by_structure

  unfoldable pub detect_cgroup_version : CgroupVersion
  detect_cgroup_version =
      if sys.exists "/sys/fs/cgroup/memory/docker" || sys.exists "/sys/fs/cgroup/cpu,cpuacct/docker"
      then CgroupVersion.v1
      else by_mounts (sys.read "/proc/mounts")

  unfoldable pub is_cgroup_available : Bool
  is_cgroup_available = sys.exists "/sys/fs/cgroup" && not (is_unknown (detect_cgroup_version))
