-- ===== src/Perf/Paths.antt =====
-- The `str` operations of gprofiler/utils/cgroup_utils.py on file names; positions count bytes.
use Prim.Native.String.{String, ◌++◌, len, count, slice}
use Prim.Native.Nat.{ℕ, zero, suc, ◌+◌}
use text.Mathlib.Text.{find?, ◌==◌}
use mathlib.Core.Path.{◌≡◌, refl}
use mathlib.Core.Bool.{Bool, true}
use mathlib.Core.Option.{none, some}
use gprofiler.Prelude.Tests.{is_some}

-- `part in text`
abbrev pub has : String → String → Bool
has part text = is_some (find? text part)

-- text[len(prefix):]
abbrev pub after : String → String → String
after prefix text = slice text (len prefix) (len text)

-- text.replace(old, new), for an `old` that is not empty; each round removes one occurrence.
abbrev replace_within : ℕ → String → String → String → String
replace_within zero old new text = text
replace_within (suc n) old new text = elim (find? text old) [
  | none ↦ text
  | some i ↦ slice text 0 i ++ new ++ replace_within n old new (slice text (i + len old) (len text))
]

abbrev pub replace : String → String → String → String
replace old new text = replace_within (count text) old new text

-- os.path.basename: what stands behind the last slash.
abbrev basename_within : ℕ → String → String
basename_within zero text = text
basename_within (suc n) text = elim (find? text "/") [
  | none ↦ text
  | some i ↦ basename_within n (slice text (i + 1) (len text))
]

abbrev pub basename : String → String
basename path = basename_within (count path) path

-- os.path.join of a directory and a name.
abbrev pub join_path : String → String → String
join_path dir name = dir ++ "/" ++ name

replaced :
    replace "/cpuacct/" "/memory/" "/sys/cpuacct/a/cpuacct/b" == "/sys/memory/a/memory/b" ≡ true
replaced = refl

based : basename "/sys/fs/cgroup/user.slice" == "user.slice" ≡ true
based = refl

cut : after "/sys/" "/sys/fs" == "fs" ≡ true
cut = refl
