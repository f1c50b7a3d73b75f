-- ===== src/Perf/Process/Lifetime.antt =====
-- Which processes run after a start, a stop and a restart, gprofiler/utils/perf_process.py.
use gprofiler.Prelude.{
  ℕ, ◌+◌, ◌-◌, ◌≤◌, ◌<◌, ◌≡◌, refl, ap, ◌∙◌, Bool, true, false, Option, none, some, List, [], ◌∷◌,
  arith,
}
use gprofiler.Prelude.Tests.{leb}
use gprofiler.Prelude.Result.{Exn, Result, ok, err}
use gprofiler.Perf.Process.{
  PerfProcess, Launch, is_timeout, after_wait, spawn, start, stop_process, stop, restart,
  restart_if_rss_exceeded, restart_after_s, perf_memory_usage_threshold,
}

-- The one process that runs is the one that the object holds.
abbrev holds : Option ℕ → List ℕ
holds none = []
holds (some n) = n ∷ []

abbrev pub IsTracked : PerfProcess → Type 0
IsTracked p = p.live ≡ holds p.process

-- The wait for the output ends well or in a TimeoutError.
abbrev pub is_settled : Result Bool → Bool
is_settled (ok b) = true
is_settled (err e) = is_timeout e

pub stop-IsTracked :
    (p : PerfProcess) → IsTracked p → (((stop p).process ≡ none) × ((stop p).live ≡ []))
unfolding stop
stop-IsTracked p h = by_process p.process refl
  where
    by_process :
        (o : Option ℕ)
        → p.process ≡ o
        → ((stop_process o p).process ≡ none) × ((stop_process o p).live ≡ [])
    by_process none e = (e, h ∙ ap holds e)
    by_process (some n) e =
        let one : p.live ≡ n ∷ [] = h ∙ ap holds e in (refl, simp one (ground arith))

pub start-IsTracked :
    (l : Launch) (p : PerfProcess)
    → is_settled l.waited ≡ true
    → p.process ≡ none
    → p.live ≡ []
    → IsTracked (start l p).0
unfolding start
start-IsTracked l p settled idle empty = by_spawn l.spawned
  where
    by_wait : (n : ℕ) (r : Result Bool) → is_settled r ≡ true → IsTracked (after_wait l n r p).0
    by_wait n (ok b) fine = simp empty refl
    by_wait n (err e) fine = simp (fine, empty, idle) refl

    by_spawn : (r : Result ℕ) → IsTracked (spawn l r p).0
    by_spawn (ok n) = by_wait n l.waited settled
    by_spawn (err e) = simp (empty, idle) refl

-- From a state where the object holds the only running process, a restart leaves no process running
-- but the one it holds, if no stop event comes while it waits for the output.
pub restart-IsTracked :
    (l : Launch) (p : PerfProcess)
    → is_settled l.waited ≡ true
    → IsTracked p
    → IsTracked (restart l p).0
unfolding restart
restart-IsTracked l p settled h =
    let (idle, empty) = stop-IsTracked p h in start-IsTracked l (stop p) settled idle empty

stop_idle : (p : PerfProcess) → p.process ≡ none → (stop p).live ≡ p.live
unfolding stop
stop_idle p idle = simp idle refl

-- From a state where the object holds the only running process, a stop event during the wait of a
-- restart leaves the new process running and not held, so the next stop does not end it.
interrupted_restart_leaks :
    (l : Launch) (p : PerfProcess) (n : ℕ) (e : Exn)
    → l.spawned ≡ ok n
    → l.waited ≡ err e
    → is_timeout e ≡ false
    → IsTracked p
    → (stop (restart l p).0).live ≡ n ∷ []
unfolding restart start
interrupted_restart_leaks l p n e spawned waited other h =
    let (idle, empty) = stop-IsTracked p h in
    simp (spawned, waited, other)
      (stop_idle (record (stop p) { live = n ∷ (stop p).live }) idle ∙ ap (λ ms. n ∷ ms) empty)

-- A process that was started by this object and takes too much memory is restarted however short a
-- time it has run, once the clock has passed ten minutes.
young_process_restarted :
    (l next : Launch) (p : PerfProcess) (n now rss : ℕ)
    → p.start_time_ ≡ 0
    → l.spawned ≡ ok n
    → l.waited ≡ ok true
    → l.clock ≤ now
    → now < l.clock + restart_after_s
    → restart_after_s ≤ now
    → perf_memory_usage_threshold ≤ rss
    → restart_if_rss_exceeded now rss next (start l p).0 ≡ restart next (start l p).0
unfolding restart_if_rss_exceeded start
young_process_restarted l next p n now rss never spawned waited before young late big =
    let old : leb restart_after_s (now - p.start_time_) ≡ true = ground (arith, never, late) in
    let large : leb perf_memory_usage_threshold rss ≡ true = ground (arith, big) in
    simp (spawned, waited, old, large) refl
