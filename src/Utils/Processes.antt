-- ===== src/Utils/Processes.antt =====
-- The list of child processes in gprofiler/utils/__init__.py: `cleanup_completed_processes`,
-- `get_process_stats` and `_exit_handler`, and the cleanup of gprofiler/memory_manager.py.
pub mod Counts
use gprofiler.Prelude.{
  ℕ, zero, suc, ◌+◌, ◌-◌, String, Bool, true, false, Option, none, some, List, [], ◌∷◌, ◌++◌, map,
}
use gprofiler.Prelude.Tests.{if◌then◌else◌, is_some}
use gprofiler.Prelude.Lists.{length}

-- A pipe of a process: none, closed, or one whose close() returns or raises.
pub data Pipe : Type 0 where
  absent closed closable broken : Pipe

-- A Popen object; `returncode` is what poll() gives.
pub record Popen : Type 0 where
  pub pid : ℕ
  pub command : String
  pub returncode : Option ℕ
  pub stdout : Pipe
  pub stderr : Pipe
  pub stdin : Pipe

pub record CleanupStats : Type 0 where
  pub total_processes : ℕ
  pub completed_processes : ℕ
  pub running_processes : ℕ
  pub processes_cleaned : ℕ
  pub resources_freed : ℕ

-- How many pipes are closed until one fails.
unfoldable pub close_pipes : List Pipe → ℕ
close_pipes [] = 0
close_pipes (Pipe.absent ∷ more) = close_pipes more
close_pipes (Pipe.closed ∷ more) = close_pipes more
close_pipes (Pipe.closable ∷ more) = suc (close_pipes more)
close_pipes (Pipe.broken ∷ more) = 0

pub record Cleaning : Type 0 where
  pub kept : List Popen
  pub running_count : ℕ
  pub completed_count : ℕ
  pub freed : ℕ

abbrev pub clean_coded : Option ℕ → Popen → Cleaning → Cleaning
clean_coded none p s = record s { running_count = suc s.running_count; kept = s.kept ++ (p ∷ []) }
clean_coded (some code) p s = record s {
  completed_count = suc s.completed_count;
  freed = s.freed + close_pipes (p.stdout ∷ p.stderr ∷ p.stdin ∷ []);
}

-- One process: communicate() and its errors change none of this.
unfoldable pub clean_one : Popen → Cleaning → Cleaning
clean_one p s = clean_coded p.returncode p s

unfoldable pub clean_loop : List Popen → Cleaning → Cleaning
clean_loop [] s = s
clean_loop (p ∷ ps) s = clean_loop ps (clean_one p s)

abbrev pub no_cleanup : CleanupStats
no_cleanup = record {
  total_processes = 0;
  completed_processes = 0;
  running_processes = 0;
  processes_cleaned = 0;
  resources_freed = 0;
}

abbrev pub cleaning_start : Cleaning
cleaning_start = record { kept = []; running_count = 0; completed_count = 0; freed = 0 }

-- The statistics, and the new list of processes.
unfoldable pub cleanup_completed_processes : List Popen → CleanupStats × List Popen
cleanup_completed_processes [] = (no_cleanup, [])
cleanup_completed_processes (p ∷ ps) =
    let s = clean_loop (p ∷ ps) cleaning_start in
    (
      record {
        total_processes = length (p ∷ ps);
        completed_processes = s.completed_count;
        running_processes = s.running_count;
        processes_cleaned = length (p ∷ ps) - length s.kept;
        resources_freed = s.freed;
      },
      s.kept,
    )

pub record ProcessDetail : Type 0 where
  pub index : ℕ
  pub detail_pid : ℕ
  pub detail_command : String
  pub exit_code : Option ℕ

pub record ProcessStats : Type 0 where
  pub stats_total : ℕ
  pub stats_running : ℕ
  pub stats_completed : ℕ
  pub process_details : List ProcessDetail

-- The loop of `get_process_stats` from the process with index i on.
unfoldable pub stats_loop : ℕ → List Popen → ProcessStats
stats_loop i [] = record {
  stats_total = 0;
  stats_running = 0;
  stats_completed = 0;
  process_details = [];
}
stats_loop i (p ∷ ps) = by_code p.returncode (stats_loop (suc i) ps)
  where
    detail : ProcessDetail
    detail = record {
      index = i;
      detail_pid = p.pid;
      detail_command = p.command;
      exit_code = p.returncode;
    }

    by_code : Option ℕ → ProcessStats → ProcessStats
    by_code none s = record {
      stats_total = suc s.stats_total;
      stats_running = suc s.stats_running;
      stats_completed = s.stats_completed;
      process_details = detail ∷ s.process_details;
    }
    by_code (some code) s = record {
      stats_total = suc s.stats_total;
      stats_running = s.stats_running;
      stats_completed = suc s.stats_completed;
      process_details = detail ∷ s.process_details;
    }

unfoldable pub get_process_stats : List Popen → ProcessStats
get_process_stats processes = stats_loop 0 processes
