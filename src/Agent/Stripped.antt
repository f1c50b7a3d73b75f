-- ===== src/Agent/Stripped.antt =====
-- `_strip_extra_data` of gprofiler/main.py, and the header that a flamegraph leaves for the profile.
use Prim.Native.String.{◌++◌ as ◌⧺◌}
use text.Mathlib.Text.{starts_with}
use text.Mathlib.TextLemmas.{append_assoc, nil-append}
use gprofiler.Prelude.{
  ℕ, String, ◌≡◌, refl, inl, inr, Bool, true, Option, none, some, List, [], ◌∷◌,
}
use gprofiler.Prelude.Tests.{if◌then◌else◌, Bool-cases}
use gprofiler.Perf.Numbers.{show}
use gprofiler.Samples.Splits.{split_first, lacks, split_first-lem}
use gprofiler.Samples.Collapsed.Printed.{lacks-show, NoDigit}
use gprofiler.Samples.Metadata.{
  EnrichmentOptions, Dictionaries, ProfileData, is_after_v1, get_container_name, with_appid,
  enrich_and_finalize_stack, enrich_pid_stacks, register, combined_metadata, prefixed,
}

-- line[line.find(";") + 1 :], which is the whole line where there is no ";"
abbrev pub without_front : String → Option (String × String) → String
without_front line none = line
without_front line (some (front, back)) = back

abbrev pub drop_frame : String → String
drop_frame line = without_front line (split_first ";" line)

unfoldable pub strip_line : Bool → String → String
strip_line application_metadata line =
    if application_metadata then drop_frame (drop_frame line) else drop_frame line

-- The lines that are no comment.
unfoldable pub strip_extra_data : Bool → List String → List String
strip_extra_data application_metadata [] = []
strip_extra_data application_metadata (line ∷ lines) =
    let rest = strip_extra_data application_metadata lines in
    if starts_with line "#" then rest else strip_line application_metadata line ∷ rest

drop_front :
    (front back : String) → lacks ";" front ≡ true → drop_frame ((front ⧺ ";") ⧺ back) ≡ back
drop_front front back h =
    let e : (front ⧺ ";") ⧺ back ≡ front ⧺ (";" ⧺ back) = append_assoc front ";" back in
    rw e (simp (split_first-lem ";" front back h) refl)

abbrev pub or_no_name : Option String → String
or_no_name none = ""
or_no_name (some name) = name

drop_container :
    (name : Option String) (back : String)
    → lacks ";" (or_no_name name) ≡ true
    → drop_frame (get_container_name name ⧺ back) ≡ back
unfolding get_container_name
drop_container none back h = drop_front "" back h
drop_container (some name) back h = drop_front name back h

NoDigit-semicolon : NoDigit ";"
unfolding lacks
NoDigit-semicolon =
    (refl, (refl, (refl, (refl, (refl, (refl, (refl, (refl, (refl, (refl, tt))))))))))

-- Where the protocol is not v1 and the container's name has no ";": the stripping of a line takes away
-- exactly the frames that the enrichment puts before the stack, the index of the metadata, if it is there,
-- and the container's name. What is left is the stack, with the application's name where that is on, and
-- its count.
pub strip_line-enrich :
    {M : Type 0} (dicts : Dictionaries M) (options : EnrichmentOptions) (profile : ProfileData M)
    (entries : List (Option M)) (external : Option M) (stack : String) (n : ℕ)
    → is_after_v1 options.profile_api_version ≡ true
    → lacks ";" (or_no_name profile.container_name) ≡ true
    → let e = (enrich_pid_stacks dicts options profile entries external).0 in
      strip_line options.application_metadata (enrich_and_finalize_stack options e (stack, n))
      ≡ (if options.application_identifiers
          then with_appid stack (prefixed profile.appid)
          else stack)
        ⧺ (" " ⧺ show n)
unfolding strip_line enrich_and_finalize_stack enrich_pid_stacks
strip_line-enrich dicts options profile entries external stack n after_v1 no_semicolon =
    let idx = (register dicts (combined_metadata dicts profile.app_metadata external) entries).1 in
    let text =
      (if options.application_identifiers then with_appid stack (prefixed profile.appid) else stack)
      ⧺ (" " ⧺ show n) in
    let inner = drop_container profile.container_name text no_semicolon in
    let outer =
      drop_front (show idx) (get_container_name profile.container_name ⧺ text)
        (lacks-show ";" idx NoDigit-semicolon) in
    elim (Bool-cases options.application_metadata) [
      | inl indexed ↦ simp (after_v1, indexed, outer, inner) refl
      | inr plain ↦ simp (after_v1, plain, nil-append, inner) refl
    ]
