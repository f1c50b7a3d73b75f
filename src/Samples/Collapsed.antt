-- ===== src/Samples/Collapsed.antt =====
-- gprofiler/utils/collapsed_format.py: stacks and their counts, one to a line.
pub mod Accounting
pub mod Printed
pub mod Many
use text.Mathlib.Text.{starts_with}
use Prim.Native.String.{◌++◌ as ◌⧺◌}
use gprofiler.Prelude.{
  ℕ, suc, ◌+◌, ◌*◌, String, ◌≡◌, Bool, ◌||◌, Option, none, some, List, [], ◌∷◌, ◌++◌, arith, ◌==◌,
}
use gprofiler.Prelude.Tests.{if◌then◌else◌, ltb}
use gprofiler.Prelude.Lists.{length}
use gprofiler.Prelude.Python.{StrMethods}
use gprofiler.Prelude.Integers.{ℤ, ◌+ℤ◌, same_int}
use gprofiler.Prelude.Dict.{Dict, lookup, insert}
use gprofiler.Prelude.Mapping.{fetch, store}
use gprofiler.Samples.Splits.{split_first, split_last}
use gprofiler.Samples.Counters.{Counter, increase, total, total-increase}

-- Why a line is bad, with the line.
pub data BadLine : Type 0 where
  missing negative invalid : String → BadLine

pub record Parsing : Type 0 where
  pub stacks : Counter
  pub bad_lines : List BadLine
  pub total_lines : ℕ
  pub parsed_lines : ℕ

-- What a line says, once it is stripped.
pub data Line : Type 0 where
  skipped : Line
  bad : BadLine → Line
  sample : String → ℕ → Line

-- line.rpartition(" "), without the separator
abbrev partition_at : String → Option (String × String) → String × String
partition_at line none = ("", line)
partition_at line (some parts) = parts

abbrev read_sample : String → String → Option ℤ → Line
read_sample line stack none = Line.bad (BadLine.invalid line)
read_sample line stack (some (ℤ.negsuc n)) = Line.bad (BadLine.negative line)
read_sample line stack (some (ℤ.pos n)) = Line.sample stack n

-- f"{add_comm};{stack}"
abbrev pub with_comm : Option String → String → String
with_comm none stack = stack
with_comm (some comm) stack = comm ⧺ (";" ⧺ stack)

module _ (int : String → Option ℤ) where
  unfoldable pub read_line : String → Line
  read_line stripped =
      let (stack, count_str) = partition_at stripped (split_last " " stripped) in
      if stripped == "" || starts_with stripped "#"
      then Line.skipped
      else if stack == "" || count_str == ""
      then Line.bad (BadLine.missing stripped)
      else read_sample stripped stack (int count_str)

unfoldable pub parse_line : Option String → Line → Parsing → Parsing
parse_line add_comm Line.skipped s = record s { total_lines = suc s.total_lines }
parse_line add_comm (Line.bad why) s = record s {
  total_lines = suc s.total_lines;
  bad_lines = s.bad_lines ++ (why ∷ []);
}
parse_line add_comm (Line.sample stack n) s = record s {
  total_lines = suc s.total_lines;
  parsed_lines = suc s.parsed_lines;
  stacks = increase (with_comm add_comm stack) n s.stacks;
}

abbrev pub parsing_start : Parsing
parsing_start = record { stacks = []; bad_lines = []; total_lines = 0; parsed_lines = 0 }

-- bad_count > total_lines * 0.5, which is logged as corruption
unfoldable pub is_corrupted : Parsing → Bool
is_corrupted s = ltb s.total_lines (length s.bad_lines * 2)

module _ (str : StrMethods) (int : String → Option ℤ) where
  -- The loop over the lines.
  unfoldable pub parse_lines : Option String → List String → Parsing → Parsing
  parse_lines add_comm [] s = s
  parse_lines add_comm (line ∷ lines) s =
      parse_lines add_comm lines (parse_line add_comm (read_line int (str.strip line)) s)

  unfoldable pub parse_one_collapsed : String → Option String → Parsing
  parse_one_collapsed collapsed add_comm =
      parse_lines add_comm (str.splitlines collapsed) parsing_start
