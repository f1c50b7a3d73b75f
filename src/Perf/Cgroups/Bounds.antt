-- ===== src/Perf/Cgroups/Bounds.antt =====
-- How many cgroups perf is given, and which ones: gprofiler/utils/cgroup_utils.py.
use text.Mathlib.Text.{starts_with}
use mathlib.Core.Path.{subst}
use gprofiler.Prelude.{
  ℕ, suc, ◌+◌, ◌≤◌, String, ◌≡◌, refl, sym, ◌∙◌, ◌⊎◌, inl, inr, true, false, not, ◌&&◌, List, [],
  ◌∷◌, ◌++◌, arith,
}
use gprofiler.Prelude.Tests.{leb, ltb, Bool-cases}
use gprofiler.Prelude.Lists.{
  length, All, All-append, IsDistinct, IsDistinct-snoc, length-append, length-take-le,
}
use gprofiler.Prelude.Result.{ok, ◌>>=◌, >>=-eq-ok, ok-injective}
use gprofiler.Perf.Cgroups.{System, is_cgroup_available}
use gprofiler.Perf.Cgroups.Names.{cgroup_to_perf_name}
use gprofiler.Perf.Cgroups.Usage.{CgroupResourceUsage, get_top_cgroups_by_usage}
use gprofiler.Perf.Cgroups.Docker.{get_top_docker_containers_for_perf}
use gprofiler.Perf.Cgroups.Top.{is_new, traditional, beside_docker, get_top_cgroup_names_for_perf}
use gprofiler.Perf.Cgroups.Containers.{IsUsable, containers-Filled}

module _ (sys : System) where
  top-length : (limit : ℕ) → length (get_top_cgroups_by_usage sys limit) ≤ limit
  unfolding get_top_cgroups_by_usage
  top-length limit = elim (Bool-cases (is_cgroup_available sys)) [
    | inl on ↦ simp on (length-take-le limit _)
    | inr off ↦ simp off (omega arith)
  ]

  traditional-length :
      (cs : List CgroupResourceUsage) (names : List String)
      → length (traditional sys cs names) ≤ length names + length cs
  unfolding traditional
  traditional-length [] names = omega arith
  traditional-length (c ∷ cs) names =
      elim (Bool-cases (is_new sys (cgroup_to_perf_name c.cgroup_path) names)) [
        | inl new ↦
            let name = cgroup_to_perf_name c.cgroup_path in
            simp new (
              omega (
                arith,
                traditional-length cs (names ++ (name ∷ [])),
                length-append names (name ∷ []),
              ))
        | inr old ↦ simp old (omega (arith, traditional-length cs names))
      ]

  beside_docker-length :
      (limit : ℕ) (cs : List CgroupResourceUsage) (names : List String)
      → (length (beside_docker sys limit cs names) ≤ limit)
        ⊎ (length (beside_docker sys limit cs names) ≤ suc (length names))
  unfolding beside_docker
  beside_docker-length limit [] names = inr (omega arith)
  beside_docker-length limit (c ∷ cs) names =
      let name = cgroup_to_perf_name c.cgroup_path in
      elim (Bool-cases (not (starts_with name "docker") && is_new sys name names)) [
        | inr old ↦ simp old (beside_docker-length limit cs names)
        | inl new ↦ elim (Bool-cases (leb limit (length (names ++ (name ∷ []))))) [
          | inl full ↦ simp (new, full) (inr (omega (arith, length-append names (name ∷ []))))
          | inr room ↦
              simp (new, room)
                (elim (beside_docker-length limit cs (names ++ (name ∷ []))) [
                  | inl within ↦ inl within
                  | inr most ↦ inl (ground (arith, length-append names (name ∷ []), most, room))
                ])
        ]
      ]

  traditional-IsUsable :
      (cs : List CgroupResourceUsage) (names : List String)
      → All (IsUsable sys) names
      → IsDistinct names
      → All (IsUsable sys) (traditional sys cs names) × IsDistinct (traditional sys cs names)
  unfolding traditional
  traditional-IsUsable [] names h d = (h, d)
  traditional-IsUsable (c ∷ cs) names h d =
      let name = cgroup_to_perf_name c.cgroup_path in
      elim (Bool-cases (is_new sys name names)) [
        | inl new ↦ simp new (
            traditional-IsUsable cs (names ++ (name ∷ []))
              (All-append (IsUsable sys) names (name ∷ []) h (ground (arith, new), tt))
              (IsDistinct-snoc names name (ground (arith, new)) d))
        | inr old ↦ simp old (traditional-IsUsable cs names h d)
      ]

  beside_docker-IsUsable :
      (limit : ℕ) (cs : List CgroupResourceUsage) (names : List String)
      → All (IsUsable sys) names
      → All (IsUsable sys) (beside_docker sys limit cs names)
  unfolding beside_docker
  beside_docker-IsUsable limit [] names h = h
  beside_docker-IsUsable limit (c ∷ cs) names h =
      let name = cgroup_to_perf_name c.cgroup_path in
      elim (Bool-cases (not (starts_with name "docker") && is_new sys name names)) [
        | inr old ↦ simp old (beside_docker-IsUsable limit cs names h)
        | inl new ↦
            let h' : All (IsUsable sys) (names ++ (name ∷ [])) =
              All-append (IsUsable sys) names (name ∷ []) h (ground (arith, new), tt) in
            elim (Bool-cases (leb limit (length (names ++ (name ∷ []))))) [
              | inl full ↦ simp (new, full) h'
              | inr room ↦
                  simp (new, room) (beside_docker-IsUsable limit cs (names ++ (name ∷ [])) h')
            ]
      ]

  -- With no limit on containers, perf is given at most `limit` cgroups, none twice, all of which it can use.
  names-IsDistinct :
      (limit : ℕ) (names : List String)
      → get_top_cgroup_names_for_perf sys limit 0 ≡ ok names
      → (length names ≤ limit) × IsDistinct names × All (IsUsable sys) names
  unfolding get_top_cgroup_names_for_perf
  names-IsDistinct limit names h =
      let top = get_top_cgroups_by_usage sys limit in
      let e : traditional sys top [] ≡ names = ok-injective h in
      let (usable, distinct) = traditional-IsUsable top [] tt tt in
      simp (sym e) (omega (arith, traditional-length top [], top-length limit), distinct, usable)

  -- perf is given at most `limit` cgroups, or at most one more than the limit on containers,
  -- and it can use all of them.
  pub names-IsUsable :
      (limit max_docker_containers : ℕ) (names : List String)
      → get_top_cgroup_names_for_perf sys limit max_docker_containers ≡ ok names
      → ((length names ≤ limit) ⊎ (length names ≤ suc max_docker_containers))
        × All (IsUsable sys) names
  unfolding get_top_cgroup_names_for_perf
  names-IsUsable limit max names h = elim (Bool-cases (ltb 0 max)) [
    | inr none_asked ↦
        let unlimited : max ≡ 0 = ground (arith, none_asked) in
        let (few, _, usable) =
          names-IsDistinct limit names
            (subst (λ m. get_top_cgroup_names_for_perf sys limit m ≡ ok names) unlimited h) in
        (inl few, usable)
    | inl asked ↦
        let top = get_top_cgroups_by_usage sys limit in
        let m = get_top_docker_containers_for_perf sys max in
        let e : get_top_cgroup_names_for_perf sys limit max
            ≡ (m >>= λ cs. ok (beside_docker sys limit top cs)) =
          simp asked refl in
        let (containers, found, same) =
          >>=-eq-ok m (λ cs. ok (beside_docker sys limit top cs)) (sym e ∙ h) in
        let (few, usable) = containers-Filled sys max containers (ground (arith, asked)) found in
        simp (sym (ok-injective same)) (
          elim (beside_docker-length limit top containers) [
            | inl l ↦ inl l
            | inr l ↦ inr (omega arith)
          ],
          beside_docker-IsUsable limit top containers usable,
        )
  ]

  -- Where the containers alone reach the limit, a further cgroup that perf can use, whose name is new
  -- and does not start with docker, is still added.
  limit_exceeded :
      (limit : ℕ) (c : CgroupResourceUsage) (cs : List CgroupResourceUsage)
      (containers : List String)
      → limit ≤ length containers
      → starts_with (cgroup_to_perf_name c.cgroup_path) "docker" ≡ false
      → is_new sys (cgroup_to_perf_name c.cgroup_path) containers ≡ true
      → length (beside_docker sys limit (c ∷ cs) containers) ≡ suc (length containers)
  unfolding beside_docker
  limit_exceeded limit c cs containers full other new =
      let name = cgroup_to_perf_name c.cgroup_path in
      let grown = length-append containers (name ∷ []) in
      let reached : leb limit (length (containers ++ (name ∷ []))) ≡ true = ground (arith, grown) in
      simp (other, new, reached) (omega (arith, grown))
