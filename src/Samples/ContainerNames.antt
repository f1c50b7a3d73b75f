-- ===== src/Samples/ContainerNames.antt =====
-- `ContainerNamesClient` of gprofiler/containers_client.py: the names of processes' containers, cached.
-- The container runtimes and the process table are the parameters of `Runtimes`.
pub mod Listed
use gprofiler.Prelude.{
  ℕ, String, ◌≡◌, refl, inl, inr, Bool, true, false, not, ◌&&◌, ◌||◌, Option, none, some, List, [],
  ◌∷◌, arith, ◌==◌, eq_iff,
}
use gprofiler.Prelude.Tests.{if◌then◌else◌, eqb, eqb_iff, Bool-cases, Option-cases}
use gprofiler.Prelude.Lists.{contains, All, IsDistinct}
use gprofiler.Prelude.Python.{add, add-All, add-IsDistinct, contains-add}
use gprofiler.Prelude.Result.{Exn, Result, ok, err}
use gprofiler.Prelude.Dict.{Dict, lookup, insert}
use gprofiler.Prelude.Mapping.{fetch, store}

-- A container is its id and its name. A process that is gone has no container id.
pub record Runtimes : Type 0 where
  pub list_containers : Result (List (String × String))
  pub process_container_id : ℕ → Result (Option String)

pub record ContainerNamesClient : Type 0 where
  pub has_runtimes : Bool
  pub pid_to_container_name : List (ℕ × String)
  pub current_container_names : List String
  pub container_id_to_name : Dict (Option String)

unfoldable pub reset_cache : ContainerNamesClient → ContainerNamesClient
reset_cache c = record c { pid_to_container_name = []; current_container_names = [] }

-- valid_perf_pid of gprofiler/utils/perf.py; a process id is not negative
abbrev pub valid_perf_pid : ℕ → Bool
valid_perf_pid pid = not (eqb pid 0)

-- The name, if there is one, is added to the current ones.
unfoldable pub note_name : Option String → ContainerNamesClient → ContainerNamesClient
note_name none c = c
note_name (some name) c = record c { current_container_names = add name c.current_container_names }

abbrev fill_cache : List (String × String) → Dict (Option String) → Dict (Option String)
fill_cache [] d = d
fill_cache ((id, name) ∷ more) d = fill_cache more (insert id (some name) d)

-- _refresh_container_names_cache, whose error comes after the clearing
abbrev refreshed_ids : Bool → Result (List (String × String)) → Dict (Option String)
refreshed_ids true (ok containers) = fill_cache containers []
refreshed_ids has_runtimes containers = []

unfoldable pub refresh_container_names : Runtimes → ContainerNamesClient → ContainerNamesClient
refresh_container_names r c = record c {
  container_id_to_name = refreshed_ids c.has_runtimes r.list_containers;
}

abbrev pub failed_listing : Result (List (String × String)) → Bool
failed_listing (ok containers) = false
failed_listing (err raised) = true

-- Name and client after a read of the id cache; an unknown id is remembered as one without a name.
abbrev pub answer_known :
    Option String → ContainerNamesClient → Option String × ContainerNamesClient
answer_known name c = (name, note_name name c)

abbrev pub answer_refreshed :
    String → Option (Option String) → ContainerNamesClient → Option String × ContainerNamesClient
answer_refreshed id none c =
    (none, record c { container_id_to_name = insert id none c.container_id_to_name })
answer_refreshed id (some name) c = answer_known name c

abbrev pub answer :
    Runtimes
    → String
    → Option (Option String)
    → ContainerNamesClient
    → Option String × ContainerNamesClient
answer r id (some name) c = answer_known name c
answer r id none c =
    let c' = refresh_container_names r c in
    if c.has_runtimes && failed_listing r.list_containers
    then (none, c')
    else answer_refreshed id (lookup id c'.container_id_to_name) c'

-- _get_container_name, within the `try` of its caller, for which an error is no name
unfoldable pub find_container_name :
    Runtimes → String → ContainerNamesClient → Option String × ContainerNamesClient
find_container_name r id c = answer r id (lookup id c.container_id_to_name) c

abbrev pub by_id :
    Runtimes → Result (Option String) → ContainerNamesClient → Option String × ContainerNamesClient
by_id r (ok (some id)) c = find_container_name r id c
by_id r failed c = (none, c)

unfoldable pub safely_get_process_container_name :
    Runtimes → ℕ → ContainerNamesClient → Option String × ContainerNamesClient
safely_get_process_container_name r pid c = by_id r (r.process_container_id pid) c

abbrev pub or_empty : Option String → String
or_empty none = ""
or_empty (some name) = name

abbrev pub remember : ℕ → Option String × ContainerNamesClient → String × ContainerNamesClient
remember pid (name, c) = (
  or_empty name,
  record c { pid_to_container_name = store eqb pid (or_empty name) c.pid_to_container_name },
)

abbrev pub cached_or :
    Runtimes → ℕ → Option String → ContainerNamesClient → String × ContainerNamesClient
cached_or r pid (some name) c = (name, c)
cached_or r pid none c = remember pid (safely_get_process_container_name r pid c)

unfoldable pub client_container_name :
    Runtimes → ℕ → ContainerNamesClient → String × ContainerNamesClient
client_container_name r pid c =
    let found = cached_or r pid (fetch eqb pid c.pid_to_container_name) c in
    if not c.has_runtimes || not (valid_perf_pid pid) then ("", c) else found
