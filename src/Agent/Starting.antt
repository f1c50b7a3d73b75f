-- ===== src/Agent/Starting.antt =====
-- Which profilers `start` of gprofiler/main.py keeps and starts.
use mathlib.Core.List.{append-nil}
use gprofiler.Prelude.{
  ℕ, String, ◌≡◌, refl, sym, ap, ◌∙◌, inl, inr, Bool, not, ◌&&◌, ◌||◌, Option, List, [], ◌∷◌, ◌++◌,
}
use gprofiler.Prelude.Tests.{if◌then◌else◌, Bool-cases}
use gprofiler.Prelude.Result.{Exn, ok, err}
use gprofiler.Agent.Snapshot.{
  Profiler, Starting, skip_system_profilers, is_skipped, starts, start_process_profilers, start,
}

-- The profilers that meet a test, in order, and their names.
unfoldable pub keep_if : (Profiler → Bool) → List Profiler → List Profiler
keep_if test [] = []
keep_if test (p ∷ ps) = let rest = keep_if test ps in if test p then p ∷ rest else rest

unfoldable pub names : List Profiler → List String
names [] = []
names (p ∷ ps) = p.name ∷ names ps

abbrev pub runs : Bool → Profiler → Bool
runs skip p = not (is_skipped skip p) && starts skip p

abbrev pub stays : Bool → Profiler → Bool
stays skip p = is_skipped skip p || starts skip p

start_process_profilers-lem :
    (skip : Bool) (ps : List Profiler)
    → ((start_process_profilers skip ps).process_profilers ≡ keep_if (stays skip) ps)
      × ((start_process_profilers skip ps).started ≡ names (keep_if (runs skip) ps))
unfolding start_process_profilers keep_if names
start_process_profilers-lem skip [] = (refl, refl)
start_process_profilers-lem skip (p ∷ ps) =
    let rest = start_process_profilers-lem skip ps in
    elim (Bool-cases (is_skipped skip p)) [
      | inl skipped ↦ simp skipped (ap (λ l. p ∷ l) rest.0, rest.1)
      | inr tried ↦ elim (Bool-cases (starts skip p)) [
        | inl works ↦ simp (tried, works) (ap (λ l. p ∷ l) rest.0, ap (λ l. p.name ∷ l) rest.1)
        | inr fails ↦ simp (tried, fails) rest
      ]
    ]

-- With skip standing for whether the number of processes exceeds the threshold, and a profiler failing if
-- its test of the threshold, where that is made, or its start raises: start raises exactly if the system
-- profiler is not skipped and fails; else the process profilers that stay are those that are skipped or do
-- not fail, in order, and those started, the system profiler last, are all that are not skipped and do not
-- fail. So a failing process profiler stops no other one.
pub start-keep_if :
    (threshold : ℕ) (counted : Option ℕ) (process_profilers : List Profiler) (system : Profiler)
    → let skip = skip_system_profilers threshold counted in
      let result = start threshold counted process_profilers system in
      if stays skip system
      then ((s : Starting) × (result ≡ ok s)
          × (s.process_profilers ≡ keep_if (stays skip) process_profilers)
          × (s.started
              ≡ names (keep_if (runs skip) process_profilers)
                ++ (if runs skip system then system.name ∷ [] else [])))
      else (result ≡ err Exn.other_error)
unfolding start
start-keep_if threshold counted process_profilers system =
    let skip = skip_system_profilers threshold counted in
    let s = start_process_profilers skip process_profilers in
    let (kept, started) = start_process_profilers-lem skip process_profilers in
    elim (Bool-cases (is_skipped skip system)) [
      | inl skipped ↦ simp skipped (s, refl, kept, started ∙ sym (append-nil _))
      | inr tried ↦ elim (Bool-cases (starts skip system)) [
        | inl works ↦
            simp (tried, works)
              (
                record s { started = s.started ++ (system.name ∷ []) },
                refl,
                kept,
                ap (λ l. l ++ (system.name ∷ [])) started,
              )
        | inr fails ↦ simp (tried, fails) refl
      ]
    ]
