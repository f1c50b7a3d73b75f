-- ===== src/Perf/Cgroups/Usage.antt =====
-- The usage of one cgroup and the ranking of all, gprofiler/utils/cgroup_utils.py.
-- A line `usage_usec` of cpu.stat always holds a number: the IndexError of one that holds none is left out.
use text.Mathlib.Text.{starts_with}
use Prim.Native.String.{count, slice, ◌++◌ as ◌<>◌}
use gprofiler.Prelude.{
  ℕ, ◌+◌, ◌*◌, String, Bool, true, false, not, ◌&&◌, ◌||◌, Option, none, some, List, [], ◌∷◌, ◌++◌,
  ◌==◌,
}
use gprofiler.Prelude.Tests.{if◌then◌else◌, leb, ltb}
use gprofiler.Prelude.Lists.{take}
use gprofiler.Prelude.Python.{add}
use gprofiler.Perf.Paths.{replace, basename, join_path}
use gprofiler.Perf.Cgroups.{System, is_v2, detect_cgroup_version, is_cgroup_available}

pub record CgroupResourceUsage : Type 0 where
  pub cgroup_path : String
  pub name : String
  pub cpu_usage : ℕ
  pub memory_usage : ℕ

-- The score times 10^9 * 2^20, where it is a whole number: ten per second of CPU, one per MiB.
unfoldable pub total_score : CgroupResourceUsage → ℕ
total_score u = u.cpu_usage * 10 * 1048576 + u.memory_usage * 1000000000

abbrev second : List String → Option String
second (a ∷ b ∷ more) = some b
second short = none

-- x or 0
abbrev or_zero : Option ℕ → ℕ
or_zero none = 0
or_zero (some n) = n

abbrev both_missing : Option ℕ → Option ℕ → Bool
both_missing none none = true
both_missing a b = false

abbrev usage_of_set : List String → List String
usage_of_set [] = []
usage_of_set (x ∷ xs) = add x (usage_of_set xs)

module _ (sys : System) where
  abbrev parsed : Option String → Option ℕ
  parsed none = none
  parsed (some text) = sys.parse_int text

  abbrev read_number : String → Option ℕ
  read_number file = elim (sys.read file) [
    | none ↦ none
    | some text ↦ sys.parse_int (sys.strip text)
  ]

  abbrev in_nanoseconds : Option ℕ → Option ℕ
  in_nanoseconds none = none
  in_nanoseconds (some usec) = some (usec * 1000)

  -- The first line that gives the usage decides.
  abbrev usage_of_lines : List String → Option ℕ
  usage_of_lines [] = none
  usage_of_lines (line ∷ more) =
      let rest = usage_of_lines more in
      if starts_with line "usage_usec "
      then in_nanoseconds (parsed (second (sys.words line)))
      else rest

  abbrev usage_of_file : String → Option ℕ
  usage_of_file file = elim (sys.read_lines file) [
    | none ↦ none
    | some lines ↦ usage_of_lines lines
  ]

  unfoldable pub get_cgroup_cpu_usage : String → Option ℕ
  get_cgroup_cpu_usage cgroup_path =
      let stat = join_path cgroup_path "cpu.stat" in
      let direct = join_path cgroup_path "cpuacct.usage" in
      let alternative =
        join_path (replace "/cpu,cpuacct/" "/cpuacct/" cgroup_path) "cpuacct.usage" in
      if is_v2 (detect_cgroup_version sys)
      then (if sys.exists stat then usage_of_file stat else none)
      else if sys.exists direct
      then read_number direct
      else if sys.exists alternative
      then read_number alternative
      else none

  unfoldable pub get_cgroup_memory_usage : String → Option ℕ
  get_cgroup_memory_usage cgroup_path =
      let file =
        join_path cgroup_path (
          if is_v2 (detect_cgroup_version sys)
          then "memory.current"
          else "memory.usage_in_bytes") in
      if sys.exists file then read_number file else none

  -- One walk: the directories below `base` with one of two files.
  abbrev measured : (String → String) → (String → String) → String → List String → List String
  measured cpu memory base [] = []
  measured cpu memory base (root ∷ more) =
      let rest = measured cpu memory base more in
      if not (root == base) && (sys.exists (cpu root) || sys.exists (memory root))
      then root ∷ rest
      else rest

  abbrev v2_cgroups : String → List String
  v2_cgroups base =
      measured (λ root. join_path root "cpu.stat") (λ root. join_path root "memory.current") base
        (sys.walk base)

  abbrev v1_cgroups : String → List String
  v1_cgroups base =
      if sys.exists base
      then measured (λ root. join_path root "cpuacct.usage")
          (λ root. replace "/cpu,cpuacct/" "/memory/" root <> "/memory.usage_in_bytes") base
          (sys.walk base)
      else []

  -- list(set(paths)): the set's order is the system's.
  unfoldable pub find_all_cgroups : List String
  find_all_cgroups = sys.set_order (
      usage_of_set (
        if is_v2 (detect_cgroup_version sys)
        then v2_cgroups "/sys/fs/cgroup"
        else v1_cgroups "/sys/fs/cgroup/cpu,cpuacct"
          ++ v1_cgroups "/sys/fs/cgroup/memory"
          ++ v1_cgroups "/sys/fs/cgroup/cpuacct"))

  abbrev memory_path : String → String
  memory_path cgroup_path =
      let first = replace "/cpu,cpuacct/" "/memory/" cgroup_path in
      if sys.exists first then first else replace "/cpuacct/" "/memory/" cgroup_path

  abbrev short_name : String → String
  short_name name = if ltb 12 (count name) then slice name 0 12 else name

  abbrev usage_of : String → Option ℕ → Option ℕ → Option CgroupResourceUsage
  usage_of path cpu memory =
      if both_missing cpu memory
      then none
      else some (record {
        cgroup_path = path;
        name = short_name (basename path);
        cpu_usage = or_zero cpu;
        memory_usage = or_zero memory;
      })

  unfoldable pub get_cgroup_resource_usage : String → Option CgroupResourceUsage
  get_cgroup_resource_usage path =
      usage_of path (get_cgroup_cpu_usage path) (get_cgroup_memory_usage (memory_path path))

  abbrev all_usages : List String → List CgroupResourceUsage
  all_usages [] = []
  all_usages (path ∷ more) = elim (get_cgroup_resource_usage path) [
    | none ↦ all_usages more
    | some usage ↦ usage ∷ all_usages more
  ]

-- sort(key=total_score, reverse=True), which keeps the order of equal scores.
unfoldable pub insert_by_score :
    CgroupResourceUsage → List CgroupResourceUsage → List CgroupResourceUsage
insert_by_score u [] = u ∷ []
insert_by_score u (w ∷ ws) =
    let rest = insert_by_score u ws in
    if leb (total_score w) (total_score u) then u ∷ w ∷ ws else w ∷ rest

unfoldable pub sort_by_score : List CgroupResourceUsage → List CgroupResourceUsage
sort_by_score [] = []
sort_by_score (u ∷ us) = insert_by_score u (sort_by_score us)

unfoldable pub get_top_cgroups_by_usage : System → ℕ → List CgroupResourceUsage
get_top_cgroups_by_usage sys limit =
    if is_cgroup_available sys
    then take limit (sort_by_score (all_usages sys (find_all_cgroups sys)))
    else []
