-- ===== src/Samples/Metadata.antt =====
-- `_enrich_pid_stacks` and `_enrich_and_finalize_stack` of gprofiler/merge.py: the application's name, the
-- index of its metadata and the container's name, put before or into each stack of a process.
pub mod Index
use Prim.Native.String.{◌++◌ as ◌⧺◌}
use mathlib.Core.List.{append_assoc}
use gprofiler.Prelude.{
  ℕ, zero, suc, ◌<◌, String, Bool, true, false, not, ◌&&◌, Option, none, some, List, [], ◌∷◌, ◌++◌,
  map, arith, ◌==◌,
}
use gprofiler.Prelude.Tests.{if◌then◌else◌}
use gprofiler.Prelude.Lists.{length}
use gprofiler.Perf.Numbers.{show}
use gprofiler.Samples.Splits.{split_first}
use gprofiler.Samples.Counters.{Counter}

-- EnrichmentOptions of gprofiler/metadata/enrichment.py
pub record EnrichmentOptions : Type 0 where
  pub profile_api_version : Option String
  pub container_names : Bool
  pub application_identifiers : Bool
  pub application_metadata : Bool

-- ProfileData, for a type of metadata dictionaries
pub record ProfileData (M : Type 0) : Type 0 where
  pub stacks : Counter
  pub appid : Option String
  pub app_metadata : Option M
  pub container_name : Option String

pub record PidStackEnrichment : Type 0 where
  pub enriched_appid : Option String
  pub application_prefix : String
  pub container_prefix : String

-- What the code uses of metadata dictionaries: `==` and `update`.
pub record Dictionaries (M : Type 0) : Type 0 where
  pub same : M → M → Bool
  pub update : M → M → M

-- f"{container_name};", with no name for None
unfoldable pub get_container_name : Option String → String
get_container_name none = ";"
get_container_name (some name) = name ⧺ ";"

-- profile_api_version != "v1"
abbrev pub is_after_v1 : Option String → Bool
is_after_v1 none = true
is_after_v1 (some version) = not (version == "v1")

abbrev pub with_appid : String → Option String → String
with_appid stack none = stack
with_appid stack (some appid) = insert_frame stack appid (split_first ";" stack)
  where
    insert_frame : String → String → Option (String × String) → String
    insert_frame whole frame none = whole ⧺ (";" ⧺ frame)
    insert_frame whole frame (some (first_frame, others)) =
        first_frame ⧺ (";" ⧺ (frame ⧺ (";" ⧺ others)))

unfoldable pub enrich_and_finalize_stack :
    EnrichmentOptions → PidStackEnrichment → String × ℕ → String
enrich_and_finalize_stack options e (stack, n) =
    let named =
      if options.application_identifiers then with_appid stack e.enriched_appid else stack in
    e.application_prefix ⧺ (e.container_prefix ⧺ (named ⧺ (" " ⧺ show n)))

abbrev pub prefixed : Option String → Option String
prefixed none = none
prefixed (some appid) = some ("appid: " ⧺ appid)

-- xs[n], for comparison with the index that the code writes
unfoldable pub get_elem? {ℓ} : {A : Type ℓ} → List A → ℕ → Option A
get_elem? [] n = none
get_elem? (x ∷ xs) zero = some x
get_elem? (x ∷ xs) (suc n) = get_elem? xs n

module _ {M : Type 0} (dicts : Dictionaries M) where
  abbrev pub same_entry : Option M → Option M → Bool
  same_entry none none = true
  same_entry (some a) (some b) = dicts.same a b
  same_entry a b = false

  -- What a profile brings and what is given from outside, which overrides.
  abbrev pub combined_metadata : Option M → Option M → Option M
  combined_metadata app_metadata none = app_metadata
  combined_metadata none (some outer) = some outer
  combined_metadata (some own) (some outer) = some (dicts.update own outer)

  -- application_metadata.index(app_metadata), once the entry has been appended if it is not there
  unfoldable pub register : Option M → List (Option M) → List (Option M) × ℕ
  register entry [] = (entry ∷ [], 0)
  register entry (first ∷ more) =
      let rest = register entry more in
      if same_entry first entry then (first ∷ more, 0) else (first ∷ rest.0, suc rest.1)

  unfoldable pub enrich_pid_stacks :
      EnrichmentOptions
      → ProfileData M
      → List (Option M)
      → Option M
      → PidStackEnrichment × List (Option M)
  enrich_pid_stacks options profile application_metadata external =
      let entry = combined_metadata profile.app_metadata external in
      let (listed, idx) = register entry application_metadata in
      (
        record {
          enriched_appid = prefixed profile.appid;
          application_prefix =
              if is_after_v1 options.profile_api_version && options.application_metadata
              then show idx ⧺ ";"
              else "";
          container_prefix =
              if is_after_v1 options.profile_api_version
              then get_container_name profile.container_name
              else "";
        },
        listed,
      )

  -- The loop over the processes of `concatenate_profiles`.
  unfoldable pub enrich_profiles :
      EnrichmentOptions
      → (ℕ → Option M)
      → List (ℕ × ProfileData M)
      → List (Option M)
      → List String × List (Option M)
  enrich_profiles options external [] application_metadata = ([], application_metadata)
  enrich_profiles options external ((pid, profile) ∷ more) application_metadata =
      let (e, listed) = enrich_pid_stacks options profile application_metadata (external pid) in
      let (lines, final) = enrich_profiles options external more listed in
      (map (enrich_and_finalize_stack options e) profile.stacks ++ lines, final)
