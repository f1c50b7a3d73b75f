-- ===== src/Profilers/Base/Selection.antt =====
-- Which processes `_get_top_processes_by_cpu` of gprofiler/profilers/profiler_base.py leaves.
use gprofiler.Prelude.{
  ℕ, zero, suc, ◌+◌, ◌≤◌, ◌≡◌, refl, inl, inr, Bool, ◌||◌, List, [], ◌∷◌, arith,
}
use gprofiler.Prelude.Tests.{if◌then◌else◌, if_both, leb, eqb, Bool-cases}
use gprofiler.Prelude.Lists.{length, take, drop, length-take-le, All}
use gprofiler.Profilers.Base.{Process, cpu_of, insert_by_cpu, sort_by_cpu, get_top_processes_by_cpu}

-- From the most use of the CPU to the least.
abbrev pub IsFalling : List Process → Type 0
IsFalling [] = Unit
IsFalling (p ∷ ps) = All (λ q. cpu_of q ≤ cpu_of p) ps × IsFalling ps

insert_by_cpu-All :
    (P : Process → Type 0) (p : Process) (ps : List Process)
    → P p
    → All P ps
    → All P (insert_by_cpu p ps)
insert_by_cpu-All P p [] h all = (h, tt)
insert_by_cpu-All P p (q ∷ qs) h all =
    if_both (All P) (leb (cpu_of q) (cpu_of p)) (p ∷ q ∷ qs) (q ∷ insert_by_cpu p qs) (h, all)
      (all.0, insert_by_cpu-All P p qs h all.1)

All-le :
    (q p : ℕ) (ps : List Process) → q ≤ p → All (λ r. cpu_of r ≤ q) ps → All (λ r. cpu_of r ≤ p) ps
All-le q p [] h all = tt
All-le q p (r ∷ ps) h all = (omega (arith, h, all.0), All-le q p ps h all.1)

insert_by_cpu-IsFalling :
    (p : Process) (ps : List Process) → IsFalling ps → IsFalling (insert_by_cpu p ps)
insert_by_cpu-IsFalling p [] f = (tt, tt)
insert_by_cpu-IsFalling p (q ∷ qs) f = elim (Bool-cases (leb (cpu_of q) (cpu_of p))) [
  | inl before ↦
      let le : cpu_of q ≤ cpu_of p = ground arith in
      simp before ((le, All-le (cpu_of q) (cpu_of p) qs le f.0), f)
  | inr after ↦
      let le : cpu_of p ≤ cpu_of q = ground arith in
      simp after
        (insert_by_cpu-All (λ r. cpu_of r ≤ cpu_of q) p qs le f.0, insert_by_cpu-IsFalling p qs f.1)
]

sort_by_cpu-IsFalling : (ps : List Process) → IsFalling (sort_by_cpu ps)
unfolding sort_by_cpu
sort_by_cpu-IsFalling [] = tt
sort_by_cpu-IsFalling (p ∷ ps) =
    insert_by_cpu-IsFalling p (sort_by_cpu ps) (sort_by_cpu-IsFalling ps)

-- How many processes of a list meet a test.
unfoldable pub count_if : (Process → Bool) → List Process → ℕ
count_if test [] = 0
count_if test (p ∷ ps) = (if test p then 1 else 0) + count_if test ps

count_if-insert :
    (test : Process → Bool) (p : Process) (ps : List Process)
    → count_if test (insert_by_cpu p ps) ≡ count_if test (p ∷ ps)
unfolding count_if
count_if-insert test p [] = refl
count_if-insert test p (q ∷ qs) =
    let rest = count_if-insert test p qs in
    elim (Bool-cases (leb (cpu_of q) (cpu_of p))) [
      | inl before ↦ rw before refl
      | inr after ↦ rw after (omega (arith, rest))
    ]

count_if-sort :
    (test : Process → Bool) (ps : List Process) → count_if test (sort_by_cpu ps) ≡ count_if test ps
unfolding count_if sort_by_cpu
count_if-sort test [] = refl
count_if-sort test (p ∷ ps) =
    let one = count_if-insert test p (sort_by_cpu ps) in omega (arith, one, count_if-sort test ps)

count_if-split :
    (test : Process → Bool) (m : ℕ) (ps : List Process)
    → count_if test (take m ps) + count_if test (drop m ps) ≡ count_if test ps
unfolding count_if
count_if-split test zero ps = omega arith
count_if-split test (suc m) [] = omega arith
count_if-split test (suc m) (p ∷ ps) = omega (arith, count_if-split test m ps)

-- All of the first list use at least as much as all of the second.
abbrev pub Above : List Process → List Process → Type 0
Above [] low = Unit
Above (p ∷ ps) low = All (λ q. cpu_of q ≤ cpu_of p) low × Above ps low

All-drop : (P : Process → Type 0) (m : ℕ) (ps : List Process) → All P ps → All P (drop m ps)
All-drop P zero ps h = h
All-drop P (suc m) [] h = tt
All-drop P (suc m) (p ∷ ps) h = All-drop P m ps h.1

IsFalling-Above : (m : ℕ) (ps : List Process) → IsFalling ps → Above (take m ps) (drop m ps)
IsFalling-Above zero ps f = tt
IsFalling-Above (suc m) [] f = tt
IsFalling-Above (suc m) (p ∷ ps) f =
    (All-drop (λ q. cpu_of q ≤ cpu_of p) m ps f.0, IsFalling-Above m ps f.1)

Above-nothing : (ps : List Process) → Above ps []
Above-nothing [] = tt
Above-nothing (p ∷ ps) = (tt, Above-nothing ps)

top-length :
    (processes : List Process) (max_processes : ℕ)
    → let top = get_top_processes_by_cpu processes max_processes in
      if eqb max_processes 0 then (top ≡ processes) else (length top ≤ max_processes)
unfolding get_top_processes_by_cpu
top-length processes max_processes = elim (Bool-cases (eqb max_processes 0)) [
  | inl no_limit ↦ simp no_limit refl
  | inr limit ↦ elim (Bool-cases (leb (length processes) max_processes)) [
    | inl few ↦ let le : length processes ≤ max_processes = ground arith in simp (limit, few) le
    | inr many ↦ simp (limit, many) (length-take-le max_processes (sort_by_cpu processes))
  ]
]

top-Above :
    (processes : List Process) (max_processes : ℕ)
    → let top = get_top_processes_by_cpu processes max_processes in
      (dropped : List Process) × ((test : Process → Bool)
        → count_if test top + count_if test dropped ≡ count_if test processes)
      × Above top dropped
unfolding get_top_processes_by_cpu count_if
top-Above processes max_processes =
    elim (Bool-cases (eqb max_processes 0 || leb (length processes) max_processes)) [
      | inl all_left ↦ rw all_left ([], (λ test. nothing_dropped test), Above-nothing processes)
      | inr some_left ↦ rw some_left (
        drop max_processes (sort_by_cpu processes),
        (λ test. omega (
          arith,
          count_if-split test max_processes (sort_by_cpu processes),
          count_if-sort test processes,
        )),
        IsFalling-Above max_processes (sort_by_cpu processes) (sort_by_cpu-IsFalling processes),
      )
    ]
  where
    nothing_dropped :
        (test : Process → Bool)
        → count_if test processes + count_if test [] ≡ count_if test processes
    nothing_dropped test = omega arith

-- For every limit but 0, which means none: at most that many processes are left; the processes left and
-- dropped are together those that were there, with all they have, each as often, since any test is met
-- as often; and every process left uses at least as much of the CPU as every
-- dropped one, where what is gone or hidden counts as no use.
pub get_top_processes_by_cpu-Above :
    (processes : List Process) (max_processes : ℕ)
    → let top = get_top_processes_by_cpu processes max_processes in
      (if eqb max_processes 0 then (top ≡ processes) else (length top ≤ max_processes))
      × ((dropped : List Process) × ((test : Process → Bool)
            → count_if test top + count_if test dropped ≡ count_if test processes)
          × Above top dropped)
get_top_processes_by_cpu-Above processes max_processes =
    (top-length processes max_processes, top-Above processes max_processes)
