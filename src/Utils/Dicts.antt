-- ===== src/Utils/Dicts.antt =====
-- `merge_dicts` of gprofiler/utils/__init__.py, on dictionaries of texts and further dictionaries, and the
-- other small functions of that file.
use Prim.Native.String.{◌++◌ as ◌⧺◌, len, slice}
use text.Mathlib.Text.{starts_with}
pub mod Merged
use gprofiler.Prelude.{
  ℕ, suc, ◌≤◌, String, ◌≡◌, refl, inl, inr, Bool, true, false, not, ◌||◌, ◌&&◌, Option, none, some,
  List, [], ◌∷◌, ◌++◌, arith, ◌==◌, eq_iff,
}
use gprofiler.Prelude.Tests.{if◌then◌else◌, ltb, Bool-cases}
use gprofiler.Prelude.Lists.{contains}
use gprofiler.Prelude.Result.{Exn, Result, ok, err}

mutual
  -- A value that is no dict is opaque.
  pub data Value : Type 0 where
    leaf : String → Value
    node : Entries → Value

  pub data Entries : Type 0 where
    done : Entries
    entry : String → Value → Entries → Entries

-- d.get(key)
unfoldable pub read_key : String → Entries → Option Value
read_key key done = none
read_key key (entry first value more) =
    let rest = read_key key more in if first == key then some value else rest

-- d[key] = value
unfoldable pub write_key : String → Value → Entries → Entries
write_key key value done = entry key value done
write_key key value (entry first old more) =
    let rest = write_key key value more in
    if first == key then entry first value more else entry first old rest

abbrev pub then_merge : Result Entries → (Entries → Result Entries) → Result Entries
then_merge (ok entries) next = next entries
then_merge (err raised) next = err raised

-- The merged dict takes its place in the outer one.
abbrev pub put_node : String → Entries → Result Entries → Result Entries
put_node key dest merged = then_merge merged (λ inner. ok (write_key key (node inner) dest))

-- What is no dict takes no entries: without entries to merge nothing happens.
abbrev pub into_leaf : Entries → Entries → Result Entries
into_leaf done dest = ok dest
into_leaf (entry key value more) dest = err Exn.other_error

-- The dict at dest.setdefault(key, {}), if it is one, is merged into.
abbrev pub merge_node :
    String → Entries → (Entries → Result Entries) → Option Value → Entries → Result Entries
merge_node key inner merge_inner none dest = put_node key dest (merge_inner done)
merge_node key inner merge_inner (some (node found)) dest = put_node key dest (merge_inner found)
merge_node key inner merge_inner (some (leaf text)) dest = into_leaf inner dest

unfoldable mutual
  pub merge_value : String → Value → Entries → Result Entries
  merge_value key (leaf text) dest = ok (write_key key (leaf text) dest)
  merge_value key (node inner) dest =
      merge_node key inner (λ found. merge_dicts inner found) (read_key key dest) dest

  pub merge_dicts : Entries → Entries → Result Entries
  merge_dicts done dest = ok dest
  merge_dicts (entry key value more) dest =
      then_merge (merge_value key value dest) (λ dest'. merge_dicts more dest')

-- limit_frequency, where "cpu" is CPU_PROFILING_MODE
unfoldable pub limit_frequency : Option ℕ → ℕ → String → ℕ
limit_frequency none requested profiling_mode = requested
limit_frequency (some limit) requested profiling_mode =
    if not (profiling_mode == "cpu")
    then requested
    else if ltb limit requested
    then limit
    else requested

-- remove_prefix, whose assertion is that the prefix is there
unfoldable pub remove_prefix : String → String → Result String
remove_prefix text prefix =
    if starts_with text prefix
    then ok (slice text (len prefix) (len text))
    else err Exn.assertion_error

-- _INSTALLED_PROGRAMS_CACHE and shutil.which: whether the call returns, and the new cache; else it raises
-- ProgramMissingException.
unfoldable pub assert_program_installed :
    (String → Bool) → String → List String → Bool × List String
assert_program_installed which program cache =
    if contains program cache
    then (true, cache)
    else if which program
    then (true, cache ++ (program ∷ []))
    else (false, cache)
