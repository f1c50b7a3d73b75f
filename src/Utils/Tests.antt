-- ===== src/Utils/Tests.antt =====
-- Runs of the models of gprofiler/utils/__init__.py.
use gprofiler.Prelude.{
  ℕ, suc, ◌+◌, ◌*◌, ◌≤◌, ◌<◌, String, ◌≡◌, refl, true, false, Option, none, some, List, [], ◌∷◌,
  arith, ◌==◌,
}
use gprofiler.Prelude.Tests.{if◌then◌else◌}
use gprofiler.Prelude.Lists.{length}
use gprofiler.Prelude.Integers.{ℤ}
use gprofiler.Prelude.Result.{ok}
use gprofiler.Prelude.Dict.{Dict, lookup}
use gprofiler.Utils.Waiting.{Round}
use gprofiler.Utils.Processes.{Pipe, Popen, cleanup_completed_processes, get_process_stats}
use gprofiler.Utils.Processes.Counts.{still_running, cleanup_completed_processes-counts}
use gprofiler.Utils.Dicts.{Entries, leaf, node, done, entry, merge_dicts, read_key, write_key}
use gprofiler.Utils.Dicts.Merged.{merged_entry, merge_dicts-merged_entry}
use gprofiler.Utils.Running.{Host, start_process, or_environ, Communicated, RunRound, run_process}
use gprofiler.Utils.Running.Outcomes.{
  GoesOn, called_for, or_else, run_process-ends, start_process-env,
}

-- A wait whose condition never holds, with a second between the rounds.
abbrev never : ℕ → Round
never n = record { condition = false; stop_set = false; clock = 10 + (n + 1) * 1 }

abbrev popen : ℕ → Option ℕ → Popen
popen pid code = record {
  pid = pid;
  command = "perf";
  returncode = code;
  stdout = Pipe.closable;
  stderr = Pipe.closed;
  stdin = Pipe.broken;
}

abbrev procs : List Popen
procs = popen 1 none ∷ popen 2 (some 0) ∷ popen 3 none ∷ []

cleanup_completed_processes-counts_example :
    let (stats, kept) = cleanup_completed_processes procs in
    (kept ≡ still_running procs)
    × (stats.total_processes ≡ length procs)
    × (stats.running_processes ≡ length kept)
    × (stats.completed_processes + length kept ≡ length procs)
    × (stats.processes_cleaned ≡ stats.completed_processes)
    × (stats.resources_freed ≤ 3 * stats.completed_processes)
    × ((cleanup_completed_processes kept).1 ≡ kept)
    × ((cleanup_completed_processes kept).0.processes_cleaned ≡ 0)
    × ((get_process_stats procs).stats_running ≡ stats.running_processes)
    × ((get_process_stats procs).stats_completed ≡ stats.completed_processes)
    × (length (get_process_stats procs).process_details ≡ stats.total_processes)
cleanup_completed_processes-counts_example = cleanup_completed_processes-counts procs

abbrev new_entries : Entries
new_entries = entry "a" (node (entry "b" (leaf "1") done)) done

abbrev old_entries : Entries
old_entries = entry "a" (node (entry "c" (leaf "2") done)) done

abbrev both_entries : Entries
both_entries = entry "a" (node (entry "c" (leaf "2") (entry "b" (leaf "1") done))) done

merge_dicts-merged_entry_example :
    merged_entry (read_key "a" new_entries) (read_key "a" old_entries)
    ≡ ok (read_key "a" both_entries)
unfolding merge_dicts read_key write_key
merge_dicts-merged_entry_example =
    merge_dicts-merged_entry new_entries old_entries both_entries "a" (refl, tt) refl

-- A process that goes on for longer than the timeout.
abbrev running_on : ℕ → RunRound
running_on n = record { communicated = Communicated.still; stop_set = false; clock = 10 + (n + 1) }

running_clock : (n : ℕ) → 10 + (n + 1) ≤ (running_on n).clock
running_clock n = omega arith

run_process-ends_example :
    (n : ℕ) × (n ≤ 3)
    × ((j : ℕ) → j < n → GoesOn (10 + 3) (running_on j))
    × ((extra : ℕ)
        → run_process (suc (3 + extra)) true true 10 (some 3) running_on (ℤ.negsuc 8)
          ≡ some (called_for true (ℤ.negsuc 8) (running_on n)))
run_process-ends_example = run_process-ends true 10 3 running_on (ℤ.negsuc 8) running_clock

abbrev bundled : Host
bundled = record {
  is_linux = true;
  pdeathsigger_path = "/pdeathsigger";
  staticx_dir = some "/tmp/staticx";
  environ = ("TMPDIR", "/var/tmp") ∷ ("PATH", "/bin") ∷ [];
}

start_process-env_example :
    (env' : Dict String) × ((start_process bundled false true none none ("rbspy" ∷ [])).env
      ≡ some env')
    × (lookup "TMPDIR" env' ≡ (
        if "LD_LIBRARY_PATH" == "TMPDIR"
        then some ""
        else if "TMPDIR" == "TMPDIR"
        then or_else none (
            or_else
              (lookup "TMPDIR" (or_environ bundled.environ none))
              (lookup "TMPDIR" bundled.environ))
        else lookup "TMPDIR" (or_environ bundled.environ none)))
start_process-env_example =
    start_process-env bundled true "/tmp/staticx" none none ("rbspy" ∷ []) "TMPDIR" refl
