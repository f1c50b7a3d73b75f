-- ===== src/Perf/Cgroups/Containers.antt =====
-- How many containers are found, and that perf can use them: gprofiler/utils/cgroup_utils.py.
use gprofiler.Prelude.{
  ℕ, suc, ◌*◌, ◌≤◌, ◌<◌, String, ◌≡◌, refl, sym, ◌∙◌, ◌⊎◌, inl, inr, true, ◌&&◌, ◌||◌, Option, none,
  some, List, [], ◌∷◌, ◌++◌, arith,
}
use gprofiler.Prelude.Tests.{if◌then◌else◌, leb, eqb, Bool-cases}
use gprofiler.Prelude.Lists.{length, take, All, All-append, length-append}
use gprofiler.Prelude.Result.{Exn, Result, ok, err, ok-injective}
use gprofiler.Perf.Cgroups.{System, Completed}
use gprofiler.Perf.Cgroups.Names.{validate_cgroup_perf_event_access}
use gprofiler.Perf.Cgroups.Docker.{
  inspect, inspected, docker_cgroup, container_loop, caught, of_stats, container_stats, sort_by_cpu,
  is_process_error, is_file_not_found, get_top_docker_containers_for_perf,
}

module _ (sys : System) where
  abbrev pub IsUsable : String → Type 0
  IsUsable name = validate_cgroup_perf_event_access sys name ≡ true

  -- One `docker inspect` adds at most one container, and only one that perf can use.
  inspected-Grown :
      (r : Result Completed) (found found' : List String)
      → inspected sys r found ≡ ok found'
      → (found' ≡ found) ⊎ ((c : String) × IsUsable c × (found' ≡ found ++ (c ∷ [])))
  inspected-Grown (err e) found found' h = ground (arith, h)
  inspected-Grown (ok r) found found' h = elim (Bool-cases (eqb r.returncode 0)) [
    | inr failed ↦ inl (ok-injective (sym h ∙ simp failed refl))
    | inl done ↦
        let cgroup = docker_cgroup sys (sys.strip r.stdout) in
        elim (Bool-cases (validate_cgroup_perf_event_access sys cgroup)) [
          | inl usable ↦ inr (cgroup, usable, ok-injective (sym h ∙ simp (done, usable) refl))
          | inr other ↦ inl (ok-injective (sym h ∙ simp (done, other) refl))
        ]
  ]

  grown-IsUsable :
      (found found' : List String)
      → (found' ≡ found) ⊎ ((c : String) × IsUsable c × (found' ≡ found ++ (c ∷ [])))
      → All IsUsable found
      → All IsUsable found' × (length found' ≤ suc (length found))
  grown-IsUsable found found' (inl same) h = simp same (h, omega arith)
  grown-IsUsable found found' (inr (c, usable, more)) h = simp more (
    All-append IsUsable found (c ∷ []) h (usable, tt),
    omega (arith, length-append found (c ∷ [])),
  )

  Filled : ℕ → List String × Option Exn → Type 0
  Filled limit r = (length r.0 ≤ limit) × All IsUsable r.0

  container_loop-Filled :
      (limit : ℕ) (stats : List (String × ℕ)) (found : List String)
      → length found < limit
      → All IsUsable found
      → Filled limit (container_loop sys limit stats found)
  unfolding Filled container_loop
  container_loop-Filled limit [] found room h = (omega arith, h)
  container_loop-Filled limit ((id, cpu) ∷ more) found room h =
      after_inspect (container_loop-Filled limit more) (inspected sys (inspect sys id) found) refl
    where
      after_inspect :
          ((found' : List String)
            → length found' < limit
            → All IsUsable found'
            → Filled limit (container_loop sys limit more found'))
          → (r : Result (List String)) → inspected sys (inspect sys id) found ≡ r
          → Filled limit (elim r [
            | err e ↦ (found, some e)
            | ok found' ↦
                let rest = container_loop sys limit more found' in
                if leb (suc (length found)) (length found') && leb limit (length found')
                then (found', none)
                else rest
          ])
      after_inspect next (err e) eq = (omega arith, h)
      after_inspect next (ok found') eq =
          let (usable, one) =
            grown-IsUsable found found' (inspected-Grown (inspect sys id) found found' eq) h in
          elim (Bool-cases
            (leb (suc (length found)) (length found') && leb limit (length found'))) [
              | inl full ↦ simp full (omega arith, usable)
              | inr more_room ↦ simp more_room (next found' (ground (arith, more_room)) usable)
            ]

  caught-Filled :
      (limit : ℕ) (r : List String × Option Exn) (containers : List String)
      → Filled limit r
      → caught sys r ≡ ok containers
      → (length containers ≤ limit) × All IsUsable containers
  unfolding Filled
  caught-Filled limit (found, none) containers (l, u) h = simp (sym (ok-injective h)) (l, u)
  caught-Filled limit (found, some e) containers (l, u) h =
      elim (Bool-cases (is_process_error e || is_file_not_found e)) [
        | inl ended ↦
            let kept : caught sys (found, some e) ≡ ok found = simp ended refl in
            simp (ok-injective (sym h ∙ kept)) (l, u)
        | inr raised ↦ cc
      ]

  pub containers-Filled :
      (limit : ℕ) (containers : List String)
      → 0 < limit
      → get_top_docker_containers_for_perf sys limit ≡ ok containers
      → (length containers ≤ limit) × All IsUsable containers
  unfolding get_top_docker_containers_for_perf Filled
  containers-Filled limit containers positive h = of (sys.run _) h
    where
      of :
          (r : Result Completed)
          → of_stats sys limit r ≡ ok containers
          → (length containers ≤ limit) × All IsUsable containers
      of (err e) k = caught-Filled limit ([], some e) containers (omega arith, tt) k
      of (ok r) k = elim (Bool-cases (eqb r.returncode 0)) [
        | inl done ↦
            let stats =
              take (limit * 2)
                (sort_by_cpu (container_stats sys (sys.split_on "\n" (sys.strip r.stdout)))) in
            let ran : of_stats sys limit (ok r) ≡ caught sys (container_loop sys limit stats []) =
              simp done refl in
            caught-Filled limit (container_loop sys limit stats []) containers
              (container_loop-Filled limit stats [] positive tt) (sym ran ∙ k)
        | inr failed ↦
            let nothing : of_stats sys limit (ok r) ≡ ok [] = simp failed refl in
            simp (ok-injective (sym k ∙ nothing)) (omega arith, tt)
      ]
