-- ===== src/Samples/Collapsed/Many.antt =====
-- `parse_many_collapsed` of gprofiler/utils/collapsed_format.py: stacks with their process.
use Prim.Native.String.{◌++◌ as ◌⧺◌}
use gprofiler.Prelude.{String, ◌≡◌, refl, true, Option, none, some, List, [], ◌∷◌, ◌++◌}
use gprofiler.Prelude.Python.{StrMethods}
use gprofiler.Prelude.Integers.{ℤ, ◌+ℤ◌, same_int}
use gprofiler.Prelude.Dict.{Dict, lookup, insert}
use gprofiler.Prelude.Mapping.{fetch, store}
use gprofiler.Samples.Splits.{split_first, split_last, lacks, split_first-lem, split_last-lem}

abbrev pub Results : Type 0
Results = List (ℤ × Dict ℤ)

-- results[pid], where `results` is a defaultdict(Counter)
abbrev pub counters : ℤ → Results → Dict ℤ
counters pid results = elim (fetch same_int pid results) [ none ↦ [] | some found ↦ found ]

abbrev signed_count : String → Dict ℤ → ℤ
signed_count stack d = elim (lookup stack d) [ none ↦ ℤ.pos 0 | some n ↦ n ]

-- results[pid][stack] += int(count): the process is entered before the count is read.
unfoldable pub count_stack : ℤ → String → Option ℤ → Results → Results
count_stack pid stack none results = store same_int pid (counters pid results) results
count_stack pid stack (some n) results =
    let found = counters pid results in
    store same_int pid (insert stack (signed_count stack found +ℤ n) found) results

abbrev before_slash : String → Option (String × String) → String
before_slash pid_tid none = pid_tid
before_slash pid_tid (some (pid, tid)) = pid

pub record Listing : Type 0 where
  pub results : Results
  pub bad_lines : List String

module _ (str : StrMethods) (int : String → Option ℤ) where
  abbrev count_or_fail : String → String → String → String → Option ℤ → Listing → Listing
  count_or_fail line comm stack count none s = record s { bad_lines = s.bad_lines ++ (line ∷ []) }
  count_or_fail line comm stack count (some pid) s = record s {
    results = count_stack pid (comm ⧺ (";" ⧺ stack)) (int count) s.results;
    bad_lines = elim (int count) [ none ↦ s.bad_lines ++ (line ∷ []) | some n ↦ s.bad_lines ];
  }

  abbrev with_comm_pid : String → String → String → Option (String × String) → Listing → Listing
  with_comm_pid line stack count none s = record s { bad_lines = s.bad_lines ++ (line ∷ []) }
  with_comm_pid line stack count (some (comm, pid_tid)) s =
      count_or_fail line comm stack count (int (before_slash pid_tid (split_first "/" pid_tid))) s

  abbrev with_stack : String → String → Option (String × String) → Listing → Listing
  with_stack line count none s = record s { bad_lines = s.bad_lines ++ (line ∷ []) }
  with_stack line count (some (comm_pid_tid, stack)) s =
      with_comm_pid line stack count (split_last "-" comm_pid_tid) s

  abbrev with_count : String → Option (String × String) → Listing → Listing
  with_count line none s = record s { bad_lines = s.bad_lines ++ (line ∷ []) }
  with_count line (some (stack, count)) s = with_stack line count (split_first ";" stack) s

  unfoldable pub parse_many_line : String → Listing → Listing
  parse_many_line line s = with_count line (split_last " " line) s

  unfoldable pub parse_many_lines : List String → Listing → Listing
  parse_many_lines [] s = s
  parse_many_lines (line ∷ lines) s = parse_many_lines lines (parse_many_line line s)

  unfoldable pub parse_many_collapsed : String → Listing
  parse_many_collapsed text =
      parse_many_lines (str.splitlines text) (record { results = []; bad_lines = [] })

  -- A line "comm-pid/tid;stack count", whose command may hold dashes, slashes and blanks and whose stack
  -- may hold anything, is read as one sample of that process and stack: when the command and the thread
  -- id have no ";", the process id has neither "-", "/" nor ";", the thread id no "-", the count no
  -- blank, and `int` reads the process id and the count.
  parse_many_line-printed :
      (comm pid_text tid stack count : String) (pid n : ℤ) (s : Listing)
      → lacks ";" (comm ⧺ ("-" ⧺ (pid_text ⧺ ("/" ⧺ tid)))) ≡ true
      → lacks "-" (pid_text ⧺ ("/" ⧺ tid)) ≡ true
      → lacks "/" pid_text ≡ true
      → lacks " " count ≡ true
      → int pid_text ≡ some pid
      → int count ≡ some n
      → parse_many_line
          (((comm ⧺ ("-" ⧺ (pid_text ⧺ ("/" ⧺ tid)))) ⧺ (";" ⧺ stack)) ⧺ (" " ⧺ count))
          s
        ≡ record s { results = count_stack pid (comm ⧺ (";" ⧺ stack)) (some n) s.results }
  unfolding parse_many_line
  parse_many_line-printed comm pid_text tid stack count pid n s a b c d p q =
      let origin = comm ⧺ ("-" ⧺ (pid_text ⧺ ("/" ⧺ tid))) in
      simp
        (
          split_last-lem " " (origin ⧺ (";" ⧺ stack)) count d,
          split_first-lem ";" origin stack a,
          split_last-lem "-" comm (pid_text ⧺ ("/" ⧺ tid)) b,
          split_first-lem "/" pid_text tid c,
          p,
          q,
        )
        refl
