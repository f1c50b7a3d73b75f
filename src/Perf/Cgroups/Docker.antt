-- ===== src/Perf/Cgroups/Docker.antt =====
-- `get_top_docker_containers_for_perf` of gprofiler/utils/cgroup_utils.py.
-- `parse_percent` gives hundredths of a percent.
use Prim.Native.String.{slice, ◌++◌ as ◌<>◌}
use gprofiler.Prelude.{
  ℕ, suc, ◌*◌, String, Bool, true, false, ◌&&◌, ◌||◌, Option, none, some, List, [], ◌∷◌, ◌++◌, ◌==◌,
}
use gprofiler.Prelude.Tests.{if◌then◌else◌, leb, eqb}
use gprofiler.Prelude.Lists.{length, take}
use gprofiler.Prelude.Result.{
  Exn, timeout_expired, called_process_error, file_not_found, Result, ok, err,
}
use gprofiler.Perf.Paths.{replace}
use gprofiler.Perf.Cgroups.{System, Completed, is_v2, detect_cgroup_version}
use gprofiler.Perf.Cgroups.Names.{possible_paths, is_directory, validate_cgroup_perf_event_access}

-- except (subprocess.TimeoutExpired, subprocess.CalledProcessError)
abbrev pub is_process_error : Exn → Bool
is_process_error timeout_expired = true
is_process_error called_process_error = true
is_process_error e = false

abbrev pub is_file_not_found : Exn → Bool
is_file_not_found file_not_found = true
is_file_not_found e = false

abbrev insert_by_cpu : String × ℕ → List (String × ℕ) → List (String × ℕ)
insert_by_cpu c [] = c ∷ []
insert_by_cpu c (d ∷ ds) =
    let rest = insert_by_cpu c ds in if leb d.1 c.1 then c ∷ d ∷ ds else d ∷ rest

unfoldable pub sort_by_cpu : List (String × ℕ) → List (String × ℕ)
sort_by_cpu [] = []
sort_by_cpu (c ∷ cs) = insert_by_cpu c (sort_by_cpu cs)

module _ (sys : System) where
  abbrev with_percent : String → Option ℕ → List (String × ℕ)
  with_percent id none = []
  with_percent id (some cpu) = (id, cpu) ∷ []

  -- One line of `docker stats`: an id and its CPU percentage, if it has both.
  abbrev stat_of_parts : List String → List (String × ℕ)
  stat_of_parts (id ∷ cpu ∷ more) = with_percent id (sys.parse_percent (replace "%" "" cpu))
  stat_of_parts short = []

  unfoldable pub container_stats : List String → List (String × ℕ)
  container_stats [] = []
  container_stats (line ∷ more) =
      if sys.strip line == ""
      then container_stats more
      else stat_of_parts (sys.split_on "\t" line) ++ container_stats more

  abbrev first_directory : List String → Option String
  first_directory [] = none
  first_directory (p ∷ ps) =
      let rest = first_directory ps in if is_directory sys p then some p else rest

  -- The match of a search by the id's first twelve characters, if there is one.
  abbrev glob_cgroup : String → Result (List String) → String
  glob_cgroup id (ok (m ∷ more)) = replace "/sys/fs/cgroup/" "" m
  glob_cgroup id found = "docker/" <> id

  unfoldable pub docker_cgroup : String → String
  docker_cgroup id =
      if is_v2 (detect_cgroup_version sys)
      then elim (first_directory (possible_paths id)) [
        | some path ↦ replace "/sys/fs/cgroup/" "" path
        | none ↦ glob_cgroup id (sys.glob ("/sys/fs/cgroup/**/docker*" <> slice id 0 12 <> "*"))
      ]
      else "docker/" <> id

  abbrev pub inspect : String → Result Completed
  inspect id = sys.run ("docker" ∷ "inspect" ∷ "--format" ∷ "{{.Id}}" ∷ id ∷ [])

  -- The container's cgroup is added where perf can use it.
  abbrev pub add_container : String → List String → List String
  add_container cgroup found =
      if validate_cgroup_perf_event_access sys cgroup then found ++ (cgroup ∷ []) else found

  -- The containers after one `docker inspect`; an exception that only the outer `except` catches ends the loop.
  abbrev pub inspected : Result Completed → List String → Result (List String)
  inspected (ok r) found =
      if eqb r.returncode 0
      then ok (add_container (docker_cgroup (sys.strip r.stdout)) found)
      else ok found
  inspected (err e) found = if is_process_error e then ok found else err e

  -- The loop ends when a container that was just added fills the limit.
  unfoldable pub container_loop : ℕ → List (String × ℕ) → List String → List String × Option Exn
  container_loop limit [] found = (found, none)
  container_loop limit ((id, cpu) ∷ more) found = elim (inspected (inspect id) found) [
    | err e ↦ (found, some e)
    | ok found' ↦
        let rest = container_loop limit more found' in
        if leb (suc (length found)) (length found') && leb limit (length found')
        then (found', none)
        else rest
  ]

  abbrev pub caught : List String × Option Exn → Result (List String)
  caught (found, none) = ok found
  caught (found, some e) = if is_process_error e || is_file_not_found e then ok found else err e

  abbrev pub of_stats : ℕ → Result Completed → Result (List String)
  of_stats limit (err e) = caught ([], some e)
  of_stats limit (ok r) =
      if eqb r.returncode 0
      then caught (
          container_loop limit
            (take (limit * 2)
              (sort_by_cpu (container_stats (sys.split_on "\n" (sys.strip r.stdout)))))
            [])
      else ok []

  unfoldable pub get_top_docker_containers_for_perf : ℕ → Result (List String)
  get_top_docker_containers_for_perf limit = of_stats limit (
      sys.run (
        "docker" ∷ "stats" ∷ "--no-stream" ∷ "--format"
        ∷ "{{.Container}}\t{{.CPUPerc}}\t{{.MemUsage}}" ∷ []))
