-- ===== src/Perf/Cgroups/Top.antt =====
-- `get_top_cgroup_names_for_perf` and `validate_perf_cgroup_support` of gprofiler/utils/cgroup_utils.py.
use text.Mathlib.Text.{starts_with}
use gprofiler.Prelude.{ℕ, String, Bool, false, not, ◌&&◌, ◌||◌, List, [], ◌∷◌, ◌++◌}
use gprofiler.Prelude.Tests.{if◌then◌else◌, leb, ltb}
use gprofiler.Prelude.Lists.{length, contains}
use gprofiler.Prelude.Result.{
  timeout_expired, called_process_error, file_not_found, Result, ok, err, ◌>>=◌,
}
use gprofiler.Perf.Paths.{has}
use gprofiler.Perf.Cgroups.{System, Completed}
use gprofiler.Perf.Cgroups.Names.{cgroup_to_perf_name, validate_cgroup_perf_event_access}
use gprofiler.Perf.Cgroups.Usage.{CgroupResourceUsage, get_top_cgroups_by_usage}
use gprofiler.Perf.Cgroups.Docker.{get_top_docker_containers_for_perf}

module _ (sys : System) where
  -- Both loops skip a name that was seen or that perf cannot use.
  abbrev pub is_new : String → List String → Bool
  is_new name seen = not (contains name seen) && validate_cgroup_perf_event_access sys name

  -- The loop over all cgroups; the names so far are also the names seen.
  unfoldable pub traditional : List CgroupResourceUsage → List String → List String
  traditional [] names = names
  traditional (c ∷ cs) names =
      let name = cgroup_to_perf_name c.cgroup_path in
      traditional cs (if is_new name names then names ++ (name ∷ []) else names)

  -- The loop beside the containers: it ends when a name that was just added fills the limit.
  unfoldable pub beside_docker : ℕ → List CgroupResourceUsage → List String → List String
  beside_docker limit [] names = names
  beside_docker limit (c ∷ cs) names =
      let name = cgroup_to_perf_name c.cgroup_path in
      let names' = names ++ (name ∷ []) in
      let filled = beside_docker limit cs names' in
      let skipped = beside_docker limit cs names in
      if not (starts_with name "docker") && is_new name names
      then (if leb limit (length names') then names' else filled)
      else skipped

  unfoldable pub get_top_cgroup_names_for_perf : ℕ → ℕ → Result (List String)
  get_top_cgroup_names_for_perf limit max_docker_containers =
      let top = get_top_cgroups_by_usage sys limit in
      if ltb 0 max_docker_containers
      then (do
        containers ← get_top_docker_containers_for_perf sys max_docker_containers
        ok (beside_docker limit top containers))
      else ok (traditional top [])

  abbrev supports : Result Completed → Result Bool
  supports (ok r) = ok (has "--cgroup" r.stdout || has "-G" r.stdout)
  supports (err timeout_expired) = ok false
  supports (err called_process_error) = ok false
  supports (err file_not_found) = ok false
  supports (err e) = err e

  unfoldable pub validate_perf_cgroup_support : Result Bool
  validate_perf_cgroup_support = supports (sys.run ("perf" ∷ "record" ∷ "--help" ∷ []))
