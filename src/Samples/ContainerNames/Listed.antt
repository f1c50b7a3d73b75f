-- ===== src/Samples/ContainerNames/Listed.antt =====
-- The names that `ContainerNamesClient` of gprofiler/containers_client.py lists for the profile's header.
use gprofiler.Prelude.{
  ℕ, String, ◌≡◌, refl, sym, ◌∙◌, inl, inr, Bool, true, not, ◌&&◌, ◌||◌, Option, none, some, List,
  [], ◌∷◌, arith, ◌==◌, eq_iff,
}
use gprofiler.Prelude.Tests.{if_both, eqb, eqb_iff, Bool-cases}
use gprofiler.Prelude.Lists.{contains, All, IsDistinct}
use gprofiler.Prelude.Python.{add-IsDistinct, contains-add}
use gprofiler.Prelude.Result.{Result, ok, err}
use gprofiler.Prelude.Dict.{lookup}
use gprofiler.Prelude.Mapping.{fetch, store, fetch-store}
use gprofiler.Samples.ContainerNames.{
  Runtimes, ContainerNamesClient, reset_cache, valid_perf_pid, note_name, refresh_container_names,
  failed_listing, answer_known, answer_refreshed, answer, find_container_name, by_id,
  safely_get_process_container_name, or_empty, remember, cached_or, client_container_name,
}

-- A name is empty or among the listed ones.
abbrev pub is_listed : String → List String → Bool
is_listed name names = name == "" || contains name names

-- Every name in the cache of processes is listed, and no name is listed twice.
unfoldable pub IsListed : ContainerNamesClient → Type 0
IsListed c =
    All (λ entry. is_listed (entry.1) c.current_container_names ≡ true) c.pid_to_container_name
    × IsDistinct c.current_container_names

-- What reading a name may do to the client.
Extends : ContainerNamesClient → Option String × ContainerNamesClient → Type 0
Extends c (name, c') =
    (c'.pid_to_container_name ≡ c.pid_to_container_name)
    × (c'.has_runtimes ≡ c.has_runtimes)
    × ((x : String)
        → is_listed x c.current_container_names ≡ true
        → is_listed x c'.current_container_names ≡ true)
    × (is_listed (or_empty name) c'.current_container_names ≡ true)
    × (IsDistinct c.current_container_names → IsDistinct c'.current_container_names)

answer_known-Extends :
    (name : Option String) (c : ContainerNamesClient) → Extends c (answer_known name c)
unfolding Extends note_name
answer_known-Extends none c = (refl, refl, (λ x h. h), refl, λ d. d)
answer_known-Extends (some name) c = (
  refl,
  refl,
  (λ x h. ground (arith, contains-add name x c.current_container_names)),
  ground (arith, contains-add name name c.current_container_names, eq_iff name name),
  λ d. add-IsDistinct name c.current_container_names d,
)

unchanged-Extends : (c : ContainerNamesClient) → Extends c (none, c)
unfolding Extends
unchanged-Extends c = (refl, refl, (λ x h. h), refl, λ d. d)

answer_refreshed-Extends :
    (id : String) (found : Option (Option String)) (c : ContainerNamesClient)
    → Extends c (answer_refreshed id found c)
unfolding Extends
answer_refreshed-Extends id none c = unchanged-Extends c
answer_refreshed-Extends id (some name) c = answer_known-Extends name c

answer-Extends :
    (r : Runtimes) (id : String) (found : Option (Option String)) (c : ContainerNamesClient)
    → Extends c (answer r id found c)
unfolding Extends refresh_container_names
answer-Extends r id (some name) c = answer_known-Extends name c
answer-Extends r id none c =
    let c' = refresh_container_names r c in
    if_both (Extends c) (c.has_runtimes && failed_listing r.list_containers) (none, c')
      (answer_refreshed id (lookup id c'.container_id_to_name) c') (unchanged-Extends c')
      (answer_refreshed-Extends id (lookup id c'.container_id_to_name) c')

by_id-Extends :
    (r : Runtimes) (id : Result (Option String)) (c : ContainerNamesClient)
    → Extends c (by_id r id c)
unfolding find_container_name
by_id-Extends r (ok (some id)) c = answer-Extends r id (lookup id c.container_id_to_name) c
by_id-Extends r (ok none) c = unchanged-Extends c
by_id-Extends r (err raised) c = unchanged-Extends c

store-All :
    (P : String → Type 0) (pid : ℕ) (name : String) (d : List (ℕ × String))
    → P name
    → All (λ entry. P (entry.1)) d
    → All (λ entry. P (entry.1)) (store eqb pid name d)
unfolding store
store-All P pid name [] p h = (p, tt)
store-All P pid name ((first, old) ∷ more) p h =
    if_both (λ d. All (λ entry. P (entry.1)) d) (eqb first pid) ((first, name) ∷ more)
      ((first, old) ∷ store eqb pid name more) (p, h.1) (h.0, store-All P pid name more p h.1)

All-map_to :
    (P Q : String → Type 0) (d : List (ℕ × String))
    → ((x : String) → P x → Q x)
    → All (λ entry. P (entry.1)) d
    → All (λ entry. Q (entry.1)) d
All-map_to P Q [] f h = tt
All-map_to P Q (entry ∷ more) f h = (f (entry.1) h.0, All-map_to P Q more f h.1)

fetch-All :
    (P : String → Type 0) (pid : ℕ) (name : String) (d : List (ℕ × String))
    → All (λ entry. P (entry.1)) d
    → fetch eqb pid d ≡ some name
    → P name
unfolding fetch
fetch-All P pid name [] h e = cc
fetch-All P pid name ((first, old) ∷ more) h e = elim (Bool-cases (eqb first pid)) [
  | inl same ↦
      let k : some old ≡ some name = simp same at e in let n : old ≡ name = cc in rw (sym n) h.0
  | inr other ↦ fetch-All P pid name more h.1 (simp other at e)
]

remember-IsListed :
    (pid : ℕ) (c : ContainerNamesClient) (found : Option String × ContainerNamesClient)
    → Extends c found
    → IsListed c
    → IsListed (remember pid found).1
unfolding Extends IsListed
remember-IsListed pid c (name, c') (pids, runtimes, grows, here, distinct) (all, d) =
    let P : String → Type 0 = λ x. is_listed x c'.current_container_names ≡ true in
    let all' : All (λ entry. P (entry.1)) c'.pid_to_container_name = rw pids (
      All-map_to (λ x. is_listed x c.current_container_names ≡ true) P c.pid_to_container_name grows
        all) in
    (store-All P pid (or_empty name) c'.pid_to_container_name here all', distinct d)

fetch-store_self :
    (pid : ℕ) (name : String) (d : List (ℕ × String))
    → fetch eqb pid (store eqb pid name d) ≡ some name
fetch-store_self pid name d =
    let same : eqb pid pid ≡ true = ground arith in
    fetch-store eqb eqb_iff pid pid name d ∙ simp same refl

cached_or-lem :
    (r : Runtimes) (pid : ℕ) (cached : Option String) (c : ContainerNamesClient)
    → fetch eqb pid c.pid_to_container_name ≡ cached
    → IsListed c
    → let result = cached_or r pid cached c in
      IsListed (result.1)
      × (is_listed (result.0) (result.1).current_container_names ≡ true)
      × (fetch eqb pid (result.1).pid_to_container_name ≡ some (result.0))
      × ((result.1).has_runtimes ≡ c.has_runtimes)
unfolding IsListed Extends safely_get_process_container_name
cached_or-lem r pid none c e l =
    let x = by_id-Extends r (r.process_container_id pid) c in
    let found = by_id r (r.process_container_id pid) c in
    (
      remember-IsListed pid c found x l,
      x.3,
      fetch-store_self pid (or_empty (found.0)) (found.1).pid_to_container_name,
      x.1,
    )
cached_or-lem r pid (some name) c e l = (
  l,
  fetch-All (λ x. is_listed x c.current_container_names ≡ true) pid name c.pid_to_container_name l.0
      e,
  e,
  refl,
)

-- Whatever the runtimes answer, an error included: if every cached name is empty or listed and none is
-- listed twice, then this still holds once a process has been asked for, whose name is empty or listed
-- too, and once the cache has been reset; and asking for the same process again, even after the runtimes
-- have changed, gives the same name and changes nothing.
pub client_container_name-IsListed :
    (r later : Runtimes) (pid : ℕ) (c : ContainerNamesClient)
    → IsListed c
    → let (name, c') = client_container_name r pid c in
      IsListed c'
      × (is_listed name c'.current_container_names ≡ true)
      × IsListed (reset_cache c')
      × (client_container_name later pid c' ≡ (name, c'))
unfolding client_container_name reset_cache IsListed
client_container_name-IsListed r later pid c l =
    let (l', here, stored, runtimes) =
      cached_or-lem r pid (fetch eqb pid c.pid_to_container_name) c refl l in
    elim (Bool-cases (not c.has_runtimes || not (valid_perf_pid pid))) [
      | inl off ↦ simp off (l, refl, (tt, tt), refl)
      | inr on ↦ rw on (l', here, (tt, tt), simp (runtimes, on, stored) refl)
    ]
