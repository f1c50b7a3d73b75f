-- ===== src/Agent/Containers.antt =====
-- The container names in the header of the profile that `_snapshot` of gprofiler/main.py writes.
use Prim.Native.String.{◌++◌ as ◌⧺◌}
use mathlib.Core.Path.{subst}
use gprofiler.Prelude.{
  ℕ, String, ◌≡◌, refl, sym, ap, ◌∙◌, Bool, true, false, not, ◌&&◌, Option, none, some, List, [],
  ◌∷◌,
}
use gprofiler.Prelude.Tests.{if◌then◌else◌}
use gprofiler.Prelude.Lists.{is_empty}
use gprofiler.Prelude.Result.{Exn, Result, ok, err, ◌>>=◌, >>=-eq-ok, ok-injective}
use gprofiler.Samples.Metadata.{EnrichmentOptions, Dictionaries, enrich_profiles}
use gprofiler.Samples.Merge.{Profiles}
use gprofiler.Samples.ContainerNames.{ContainerNamesClient, reset_cache}
use gprofiler.Samples.Document.{
  Header, Surroundings, join_lines, make_profile_metadata, concatenate_profiles, listed_containers,
  names_enabled,
}
use gprofiler.Agent.Snapshot.{merge_or_not, first_text, snapshot_text}

the_rest :
    {A : Type 0} {a : A} (raised : Exn) (rest : Result A) (b : Bool)
    → (if b then err raised else rest) ≡ ok a
    → rest ≡ ok a
the_rest raised rest true h = cc
the_rest raised rest false h = h

module _ {M J : Type 0} (dicts : Dictionaries M) (dumps : Header M J → String)
    (options : EnrichmentOptions) (external : ℕ → Option M)
    (names_on : options.container_names ≡ true) where
  -- A text whose header lists these containers.
  abbrev pub Lists : List String → String → Type 0
  Lists containers text =
      (header : Header M J) × (lines : List String) × (text
        ≡ join_lines (("# " ⧺ dumps header) ∷ lines))
      × (header.containers ≡ containers)

  concatenate-Lists :
      (surroundings : Surroundings J) (client : ContainerNamesClient) (profiles : Profiles M)
      → let written =
          concatenate_profiles dicts dumps options surroundings external (some client) profiles in
        Lists client.current_container_names (written.0) × (written.1 ≡ some (reset_cache client))
  unfolding concatenate_profiles make_profile_metadata
  concatenate-Lists surroundings client profiles =
      let enriched = enrich_profiles dicts options external profiles (none ∷ []) in
      (
        (
          record {
            containers = listed_containers options.container_names (some client);
            container_names_enabled = names_enabled options.container_names (some client);
            application_metadata = enriched.1;
            application_metadata_enabled = options.application_metadata;
            surroundings = surroundings;
          },
          enriched.0,
          refl,
          rw names_on refl,
        ),
        rw names_on refl,
      )

  first_text-client :
      (flamegraph is_noop : Bool) (surroundings : Surroundings J) (draws : ℕ → String → ℕ)
      (client : ContainerNamesClient) (system_result process_profiles : Profiles M)
      (before : (Profiles M × Profiles M) × Option ContainerNamesClient)
      → first_text dicts dumps options external flamegraph is_noop surroundings draws
          (some client)
          system_result
          process_profiles
        ≡ ok before
      → before.1 ≡ some (if flamegraph then reset_cache client else client)
  first_text-client false is_noop surroundings draws client sys procs before h =
      sym (ap (λ b. b.1) (ok-injective h))
  first_text-client true is_noop surroundings draws client sys procs before h =
      let (merged, e, f) =
        >>=-eq-ok (merge_or_not dicts dumps options external is_noop draws sys procs) _ h in
      sym (ap (λ b. b.1) (ok-injective f)) ∙ (concatenate-Lists surroundings client merged).1

  last_text-Lists :
      (is_noop : Bool) (surroundings : Surroundings J) (draws : ℕ → String → ℕ)
      (client : ContainerNamesClient)
      (before : (Profiles M × Profiles M) × Option ContainerNamesClient)
      (written : String × Option ContainerNamesClient)
      → before.1 ≡ some client
      → (merge_or_not dicts dumps options external is_noop draws (before.0.0) (before.0.1)
          >>= λ merged.
              ok (concatenate_profiles dicts dumps options surroundings external (before.1) merged))
        ≡ ok written
      → Lists client.current_container_names (written.0)
  last_text-Lists is_noop surroundings draws client before written c h =
      let (merged, e, f) =
        >>=-eq-ok
          (merge_or_not dicts dumps options external is_noop draws (before.0.0) (before.0.1)) _ h in
      let g =
        sym (ok-injective f)
        ∙ ap (λ x. concatenate_profiles dicts dumps options surroundings external x merged) c in
      subst (λ x. Lists client.current_container_names (x.0)) (sym g)
        ((concatenate-Lists surroundings client merged).0)

  listed_if :
      (flamegraph : Bool) (client : ContainerNamesClient)
      → (if flamegraph then reset_cache client else client).current_container_names
        ≡ (if flamegraph then [] else client.current_container_names)
  unfolding reset_cache
  listed_if true client = refl
  listed_if false client = refl

  -- Where container names are on and the agent has a client for them: if the profile of a snapshot is
  -- written, its header lists the container names the client had noted for the snapshot where no flamegraph
  -- is drawn, and lists no container where one is drawn.
  pub snapshot_text-Lists :
      (flamegraph is_noop : Bool) (surroundings : Surroundings J)
      (first_draws draws : ℕ → String → ℕ) (client : ContainerNamesClient)
      (system_result process_profiles : Profiles M) (written : String × Option ContainerNamesClient)
      → snapshot_text dicts dumps options external flamegraph is_noop surroundings first_draws draws
          (some client)
          system_result
          process_profiles
        ≡ ok written
      → Lists (if flamegraph then [] else client.current_container_names) (written.0)
  unfolding snapshot_text
  snapshot_text-Lists flamegraph is_noop surroundings first_draws draws client system_result
        process_profiles written h =
      let (before, e, f) =
        >>=-eq-ok
          (first_text dicts dumps options external flamegraph is_noop surroundings first_draws
            (some client) system_result process_profiles)
          _ h in
      let c =
        first_text-client flamegraph is_noop surroundings first_draws client system_result
          process_profiles before e in
      let last =
        last_text-Lists is_noop surroundings draws
          (if flamegraph then reset_cache client else client) before written c in
      subst (λ l. Lists l (written.0)) (listed_if flamegraph client)
        (last (the_rest Exn.assertion_error _ (is_noop && not (is_empty system_result)) f))
