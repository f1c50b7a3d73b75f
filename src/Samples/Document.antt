-- ===== src/Samples/Document.antt =====
-- `_make_profile_metadata`, `concatenate_profiles` and `merge_profiles` of gprofiler/merge.py: the text of
-- a profile. What is only copied into its header has the type J.
use Prim.Native.String.{◌++◌ as ◌⧺◌}
use gprofiler.Prelude.{ℕ, String, Bool, true, false, Option, none, some, List, [], ◌∷◌}
use gprofiler.Prelude.Result.{Result, ok, ◌>>=◌}
use gprofiler.Samples.ContainerNames.{ContainerNamesClient, reset_cache}
use gprofiler.Samples.Metadata.{EnrichmentOptions, Dictionaries, enrich_profiles}
use gprofiler.Samples.Merge.{Profiles, merge_loop}

-- The caller's arguments that only go into the header.
pub record Surroundings (J : Type 0) : Type 0 where
  pub metadata : J
  pub profiling_mode : J
  pub metrics : J
  pub hwmetrics : Option J
  pub htmlblob : Option J
  pub flamegraph_html : Option J

pub record Header (M J : Type 0) : Type 0 where
  pub containers : List String
  pub container_names_enabled : Bool
  pub application_metadata : List (Option M)
  pub application_metadata_enabled : Bool
  pub surroundings : Surroundings J

-- "\n".join(lines)
unfoldable pub join_lines : List String → String
join_lines [] = ""
join_lines (line ∷ []) = line
join_lines (line ∷ next ∷ more) = line ⧺ ("\n" ⧺ join_lines (next ∷ more))

abbrev pub reset_used : Bool → Option ContainerNamesClient → Option ContainerNamesClient
reset_used true (some client) = some (reset_cache client)
reset_used add_container_names client = client

abbrev pub listed_containers : Bool → Option ContainerNamesClient → List String
listed_containers true (some client) = client.current_container_names
listed_containers add_container_names client = []

abbrev pub names_enabled : Bool → Option ContainerNamesClient → Bool
names_enabled true (some client) = true
names_enabled add_container_names client = false

module _ {M J : Type 0} (dicts : Dictionaries M) (dumps : Header M J → String)
    (options : EnrichmentOptions) (surroundings : Surroundings J) (external : ℕ → Option M) where
  unfoldable pub make_profile_metadata :
      Option ContainerNamesClient → List (Option M) → String × Option ContainerNamesClient
  make_profile_metadata client application_metadata = (
    "# "
        ⧺ dumps (record {
          containers = listed_containers options.container_names client;
          container_names_enabled = names_enabled options.container_names client;
          application_metadata = application_metadata;
          application_metadata_enabled = options.application_metadata;
          surroundings = surroundings;
        }),
    reset_used options.container_names client,
  )

  -- The lines, the header first, and the client; application_metadata starts as [None].
  unfoldable pub concatenate_profiles :
      Option ContainerNamesClient → Profiles M → String × Option ContainerNamesClient
  concatenate_profiles client process_profiles =
      let (lines, application_metadata) =
        enrich_profiles dicts options external process_profiles (none ∷ []) in
      let (header, client') = make_profile_metadata client application_metadata in
      (join_lines (header ∷ lines), client')

  unfoldable pub merge_profiles :
      (ℕ → String → ℕ)
      → Option ContainerNamesClient
      → Profiles M
      → Profiles M
      → Result (String × Option ContainerNamesClient)
  merge_profiles draws client perf_pid_to_profiles process_profiles =
      merge_loop draws perf_pid_to_profiles process_profiles >>= λ merged.
      ok (concatenate_profiles client merged)
