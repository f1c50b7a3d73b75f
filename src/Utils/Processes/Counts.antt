-- ===== src/Utils/Processes/Counts.antt =====
-- What the cleanup of gprofiler/utils/__init__.py counts and keeps.
use mathlib.Core.List.{append-nil, append_assoc}
use gprofiler.Prelude.{
  ℕ, suc, ◌+◌, ◌*◌, ◌≤◌, ◌≡◌, refl, sym, ap, ◌∙◌, inl, inr, Option, none, some, List, [], ◌∷◌, ◌++◌,
  arith,
}
use gprofiler.Prelude.Tests.{Option-cases}
use gprofiler.Prelude.Lists.{length}
use gprofiler.Utils.Processes.{
  Pipe, Popen, close_pipes, Cleaning, clean_one, clean_coded, clean_loop, cleaning_start,
  cleanup_completed_processes, stats_loop, get_process_stats,
}

abbrev keep : Option ℕ → Popen → List Popen → List Popen
keep none p rest = p ∷ rest
keep (some code) p rest = rest

-- The processes that still run, in their order.
unfoldable pub still_running : List Popen → List Popen
still_running [] = []
still_running (p ∷ ps) = keep p.returncode p (still_running ps)

still_running_idem : (ps : List Popen) → still_running (still_running ps) ≡ still_running ps
unfolding still_running
still_running_idem [] = refl
still_running_idem (p ∷ ps) = elim (Option-cases p.returncode) [
  | inl runs ↦ simp (runs, still_running_idem ps) refl
  | inr (code, ended) ↦ simp (ended, still_running_idem ps) refl
]

close_pipes-le : (pipes : List Pipe) → close_pipes pipes ≤ length pipes
unfolding close_pipes
close_pipes-le [] = omega arith
close_pipes-le (Pipe.absent ∷ more) = omega (arith, close_pipes-le more)
close_pipes-le (Pipe.closed ∷ more) = omega (arith, close_pipes-le more)
close_pipes-le (Pipe.closable ∷ more) = omega (arith, close_pipes-le more)
close_pipes-le (Pipe.broken ∷ more) = omega arith

clean_loop-running :
    (ps : List Popen) (s : Cleaning) → (clean_loop ps s).kept ≡ s.kept ++ still_running ps
unfolding clean_loop clean_one still_running
clean_loop-running [] s = rw append-nil refl
clean_loop-running (p ∷ ps) s = coded p.returncode (clean_loop-running ps)
  where
    coded :
        (code : Option ℕ)
        → ((s' : Cleaning) → (clean_loop ps s').kept ≡ s'.kept ++ still_running ps)
        → (clean_loop ps (clean_coded code p s)).kept ≡ s.kept ++ keep code p (still_running ps)
    coded none rest = rest (clean_coded none p s) ∙ append_assoc s.kept (p ∷ []) (still_running ps)
    coded (some code) rest = rest (clean_coded (some code) p s)

-- From one state of the loop to another, for some of the processes.
Counted : List Popen → List Popen → Cleaning → Cleaning → Type 0
Counted ps kept s s' =
    (s'.running_count ≡ s.running_count + length kept)
    × (s'.completed_count + length kept ≡ s.completed_count + length ps)
    × (s'.freed + 3 * s.completed_count ≤ s.freed + 3 * s'.completed_count)

clean_loop-counts :
    (ps : List Popen) (s : Cleaning) → Counted ps (still_running ps) s (clean_loop ps s)
unfolding clean_loop clean_one still_running Counted
clean_loop-counts [] s = (omega arith, omega arith, omega arith)
clean_loop-counts (p ∷ ps) s = coded p.returncode (clean_loop-counts ps)
  where
    coded :
        (code : Option ℕ)
        → ((s' : Cleaning) → Counted ps (still_running ps) s' (clean_loop ps s'))
        → Counted (p ∷ ps) (keep code p (still_running ps)) s (clean_loop ps (clean_coded code p s))
    coded none rest =
        let r = rest (clean_coded none p s) in
        (omega (arith, r), omega (arith, r), omega (arith, r))
    coded (some code) rest =
        let r = rest (clean_coded (some code) p s) in
        let freed = close_pipes-le (p.stdout ∷ p.stderr ∷ p.stdin ∷ []) in
        (omega (arith, r), omega (arith, r), omega (arith, r, freed))

stats_loop-counts :
    (i : ℕ) (ps : List Popen)
    → ((stats_loop i ps).stats_running ≡ length (still_running ps))
      × ((stats_loop i ps).stats_completed + length (still_running ps) ≡ length ps)
      × ((stats_loop i ps).stats_total ≡ length ps)
      × (length (stats_loop i ps).process_details ≡ length ps)
unfolding stats_loop still_running
stats_loop-counts i [] = (refl, refl, refl, refl)
stats_loop-counts i (p ∷ ps) =
    let rest = stats_loop-counts (suc i) ps in
    elim (Option-cases p.returncode) [
      | inl runs ↦
          rw runs
            (omega (arith, rest), omega (arith, rest), omega (arith, rest), omega (arith, rest))
      | inr (code, ended) ↦
          rw ended
            (omega (arith, rest), omega (arith, rest), omega (arith, rest), omega (arith, rest))
    ]

cleanup-kept : (ps : List Popen) → (cleanup_completed_processes ps).1 ≡ still_running ps
unfolding cleanup_completed_processes still_running
cleanup-kept [] = refl
cleanup-kept (p ∷ ps) = clean_loop-running (p ∷ ps) cleaning_start

cleanup-counts :
    (ps : List Popen)
    → let stats = (cleanup_completed_processes ps).0 in
      (stats.total_processes ≡ length ps)
      × (stats.running_processes ≡ length (still_running ps))
      × (stats.completed_processes + length (still_running ps) ≡ length ps)
      × (stats.processes_cleaned ≡ stats.completed_processes)
      × (stats.resources_freed ≤ 3 * stats.completed_processes)
unfolding cleanup_completed_processes still_running Counted
cleanup-counts [] = omega arith
cleanup-counts (p ∷ ps) =
    let kept = ap length (clean_loop-running (p ∷ ps) cleaning_start) in
    let counts = clean_loop-counts (p ∷ ps) cleaning_start in
    (
      refl,
      omega (arith, counts),
      omega (arith, counts),
      omega (arith, counts, kept),
      omega (arith, counts),
    )

-- Whatever runs and whichever pipes fail to close: the cleanup keeps exactly the processes that still run,
-- in order; its numbers are those of all, the kept and the removed processes; it closes at most three
-- pipes for each removed process; a second cleanup right after it removes nothing; and the statistics
-- that get_process_stats gives of the same list agree with it, with one detail for each process.
pub cleanup_completed_processes-counts :
    (ps : List Popen)
    → let (stats, kept) = cleanup_completed_processes ps in
      (kept ≡ still_running ps)
      × (stats.total_processes ≡ length ps)
      × (stats.running_processes ≡ length kept)
      × (stats.completed_processes + length kept ≡ length ps)
      × (stats.processes_cleaned ≡ stats.completed_processes)
      × (stats.resources_freed ≤ 3 * stats.completed_processes)
      × ((cleanup_completed_processes kept).1 ≡ kept)
      × ((cleanup_completed_processes kept).0.processes_cleaned ≡ 0)
      × ((get_process_stats ps).stats_running ≡ stats.running_processes)
      × ((get_process_stats ps).stats_completed ≡ stats.completed_processes)
      × (length (get_process_stats ps).process_details ≡ stats.total_processes)
unfolding get_process_stats
cleanup_completed_processes-counts ps =
    let k = cleanup-kept ps in
    let kl = ap length k in
    let c = cleanup-counts ps in
    let k2 = cleanup-kept (cleanup_completed_processes ps).1 in
    let c2 = cleanup-counts (cleanup_completed_processes ps).1 in
    let same : still_running (cleanup_completed_processes ps).1
        ≡ (cleanup_completed_processes ps).1 =
      ap still_running k ∙ still_running_idem ps ∙ sym k in
    let sl = ap length same in
    let st = stats_loop-counts 0 ps in
    (
      k,
      omega (arith, c),
      omega (arith, c, kl),
      omega (arith, c, kl),
      omega (arith, c),
      omega (arith, c),
      k2 ∙ same,
      omega (arith, c2, sl),
      omega (arith, c, st),
      omega (arith, c, st),
      omega (arith, c, st),
    )
