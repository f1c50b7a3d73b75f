-- ===== src/Samples/Collapsed/Accounting.antt =====
-- What `parse_one_collapsed` of gprofiler/utils/collapsed_format.py makes of all lines of a text.
use gprofiler.Prelude.{ℕ, ◌+◌, String, ◌≡◌, Option, List, [], ◌∷◌, arith}
use gprofiler.Prelude.Lists.{length, length-append}
use gprofiler.Prelude.Python.{StrMethods}
use gprofiler.Prelude.Integers.{ℤ}
use gprofiler.Samples.Counters.{total, total-increase}
use gprofiler.Samples.Collapsed.{
  Line, Parsing, with_comm, read_line, parse_line, parse_lines, parsing_start, parse_one_collapsed,
}

abbrev pub amount : Line → ℕ
amount (Line.sample stack n) = n
amount other = 0

abbrev pub skips : Line → ℕ
skips Line.skipped = 1
skips other = 0

parse_line-total :
    (add_comm : Option String) (line : Line) (s : Parsing)
    → total (parse_line add_comm line s).stacks ≡ total s.stacks + amount line
unfolding parse_line
parse_line-total add_comm Line.skipped s = omega arith
parse_line-total add_comm (Line.bad why) s = omega arith
parse_line-total add_comm (Line.sample stack n) s =
    total-increase (with_comm add_comm stack) n s.stacks

-- Each line is parsed, bad or skipped.
abbrev accounted : Parsing → ℕ
accounted s = s.parsed_lines + length s.bad_lines

parse_line-counts :
    (add_comm : Option String) (line : Line) (s : Parsing)
    → ((parse_line add_comm line s).total_lines ≡ s.total_lines + 1)
      × (accounted (parse_line add_comm line s) + skips line ≡ accounted s + 1)
unfolding parse_line
parse_line-counts add_comm Line.skipped s = omega arith
parse_line-counts add_comm (Line.bad why) s =
    let k = length-append s.bad_lines (why ∷ []) in (omega arith, omega arith)
parse_line-counts add_comm (Line.sample stack n) s = (omega arith, omega arith)

module _ (str : StrMethods) (int : String → Option ℤ) where
  unfoldable pub sample_total : List String → ℕ
  sample_total [] = 0
  sample_total (line ∷ lines) = amount (read_line int (str.strip line)) + sample_total lines

  unfoldable pub skipped_lines : List String → ℕ
  skipped_lines [] = 0
  skipped_lines (line ∷ lines) = skips (read_line int (str.strip line)) + skipped_lines lines

  lines-total :
      (add_comm : Option String) (lines : List String) (s : Parsing)
      → total (parse_lines str int add_comm lines s).stacks ≡ total s.stacks + sample_total lines
  unfolding parse_lines sample_total
  lines-total add_comm [] s = omega arith
  lines-total add_comm (line ∷ lines) s =
      let one = parse_line-total add_comm (read_line int (str.strip line)) s in
      let rest =
        lines-total add_comm lines (parse_line add_comm (read_line int (str.strip line)) s) in
      omega (arith, one, rest)

  lines-counts :
      (add_comm : Option String) (lines : List String) (s : Parsing)
      → ((parse_lines str int add_comm lines s).total_lines ≡ s.total_lines + length lines)
        × (accounted (parse_lines str int add_comm lines s) + skipped_lines lines
            ≡ accounted s + length lines)
  unfolding parse_lines skipped_lines
  lines-counts add_comm [] s = (omega arith, omega arith)
  lines-counts add_comm (line ∷ lines) s =
      let one = parse_line-counts add_comm (read_line int (str.strip line)) s in
      let rest =
        lines-counts add_comm lines (parse_line add_comm (read_line int (str.strip line)) s) in
      (omega (arith, one.0, rest.0), omega (arith, one.1, rest.1))

  -- For every text, the counters that `parse_one_collapsed` returns sum up to the counts of the text's
  -- good lines, with or without a command to add, and the lines it counted are all lines of the text:
  -- the parsed, the bad and those it skips.
  pub parse_one_collapsed-total :
      (add_comm : Option String) (collapsed : String)
      → let result = parse_one_collapsed str int collapsed add_comm in
        (total result.stacks ≡ sample_total (str.splitlines collapsed))
        × (result.total_lines ≡ length (str.splitlines collapsed))
        × (result.parsed_lines + length result.bad_lines + skipped_lines (str.splitlines collapsed)
            ≡ result.total_lines)
  unfolding parse_one_collapsed total
  parse_one_collapsed-total add_comm collapsed =
      let counts = lines-counts add_comm (str.splitlines collapsed) parsing_start in
      let sums = lines-total add_comm (str.splitlines collapsed) parsing_start in
      (omega (arith, sums), omega (arith, counts.0), omega (arith, counts.0, counts.1))
