-- ===== src/Profilers/Smart/Merged.antt =====
-- What `_merge_fp_and_dwarf_results` of gprofiler/profilers/perf.py gives each process.
use mathlib.Core.Path.{subst}
use gprofiler.Prelude.{
  ℕ, String, ◌≡◌, refl, inl, inr, Bool, false, ◌+◌, ◌*◌, suc, ap, ◌∙◌, arith, Option, none, some,
  [], ◌∷◌,
}
use gprofiler.Prelude.Tests.{ltb, if◌then◌else◌, eqb, eqb_iff, Bool-cases}
use gprofiler.Prelude.Lists.{is_empty, length, All}
use gprofiler.Prelude.Result.{ok}
use gprofiler.Prelude.Mapping.{fetch, store, fetch-store}
use gprofiler.Samples.Counters.{Counter, keys}
use gprofiler.Samples.Splits.{count}
use gprofiler.Samples.Scaling.{Ratio, scale_sample_counts}
use gprofiler.Profilers.Smart.{
  ProcessCounters, Average, sum_frames, count_frames, user_part, get_average_frame_count,
  deepest_stacks, is_above, add_highest_avg_depth_stacks_per_process, total_samples,
  fp_to_dwarf_sample_ratio, merge_fp_and_dwarf_results,
}

-- No process twice, as in a dict.
abbrev pub IsDict : ProcessCounters → Type 0
IsDict [] = Unit
IsDict ((pid, stacks) ∷ more) = (fetch eqb pid more ≡ none) × IsDict more

abbrev pub HasStacks : Counter → Type 0
HasStacks stacks = is_empty stacks ≡ false

-- The frames of a stack: those before its kernel frames where these are found, else all, of which there is
-- one more than there are separators.
abbrev frames_of : String → Option String → ℕ
frames_of stack none = count ";" stack + 1
frames_of stack (some user) = count ";" user

abbrev unknown_of : String → Option String → ℕ
unknown_of stack none = count "[unknown]" stack
unknown_of stack (some user) = count "[unknown]" user

unfoldable pub total_frames : Counter → ℕ
total_frames [] = 0
total_frames ((stack, n) ∷ more) = frames_of stack (user_part stack) + total_frames more

unfoldable pub total_unknown : Counter → ℕ
total_unknown [] = 0
total_unknown ((stack, n) ∷ more) = unknown_of stack (user_part stack) + total_unknown more

-- The first stacks have more known frames on average than the second: with the fractions
-- (frames - unknown) / stacks of both, multiplied out.
abbrev pub is_deeper : Counter → Counter → Bool
is_deeper a b =
    ltb (total_frames b * length a + total_unknown a * length b)
      (total_frames a * length b + total_unknown b * length a)

-- The stacks of a process that perf has frame pointer stacks of.
abbrev pub chosen : (String → ℕ) → Ratio → Counter → Option Counter → Counter
chosen draws r fp none = fp
chosen draws r fp (some dwarf) =
    if is_deeper fp dwarf then fp else scale_sample_counts draws r dwarf

count_frames-lem :
    (stack : String) (user : Option String) (a : Average)
    → count_frames stack user a ≡ record {
      frames = frames_of stack user + a.frames;
      unknown = unknown_of stack user + a.unknown;
      samples = suc a.samples;
    }
count_frames-lem stack none a =
    ap
      (λ (frames : ℕ). record {
        frames = frames;
        unknown = count "[unknown]" stack + a.unknown;
        samples = suc a.samples;
      })
      (omega arith)
count_frames-lem stack (some user) a = refl

sum_frames-keys :
    (stacks : Counter)
    → sum_frames (keys stacks) ≡ record {
      frames = total_frames stacks;
      unknown = total_unknown stacks;
      samples = length stacks;
    }
unfolding sum_frames total_frames total_unknown
sum_frames-keys [] = refl
sum_frames-keys ((stack, n) ∷ more) =
    count_frames-lem stack (user_part stack) (sum_frames (keys more))
    ∙ ap
        (λ (a : Average). record {
          frames = frames_of stack (user_part stack) + a.frames;
          unknown = unknown_of stack (user_part stack) + a.unknown;
          samples = suc a.samples;
        })
        (sum_frames-keys more)

average-keys :
    (stacks : Counter)
    → HasStacks stacks
    → get_average_frame_count (keys stacks)
      ≡ ok (record {
        frames = total_frames stacks;
        unknown = total_unknown stacks;
        samples = length stacks;
      })
unfolding get_average_frame_count
average-keys [] h = cc
average-keys ((stack, n) ∷ more) h = ap (λ a. ok a) (sum_frames-keys ((stack, n) ∷ more))

abbrev IfSome : Option Counter → Type 0
IfSome none = Unit
IfSome (some stacks) = HasStacks stacks

HasStacks-fetch :
    (pid : ℕ) (perf : ProcessCounters)
    → All (λ p. HasStacks (p.1)) perf
    → IfSome (fetch eqb pid perf)
unfolding fetch
HasStacks-fetch pid [] h = tt
HasStacks-fetch pid ((first, stacks) ∷ more) h = elim (Bool-cases (eqb first pid)) [
  | inl same ↦ simp same (h.0)
  | inr other ↦ simp other (HasStacks-fetch pid more h.1)
]

deepest-chosen :
    (draws : String → ℕ) (r : Ratio) (fp : Counter) (dwarf : Option Counter)
    → HasStacks fp
    → IfSome dwarf
    → deepest_stacks draws r fp dwarf ≡ ok (chosen draws r fp dwarf)
unfolding is_above
deepest-chosen draws r fp none h k = refl
deepest-chosen draws r fp (some dwarf) h k = simp (average-keys fp h, average-keys dwarf k) refl

-- What a process ends up with, said of the process alone: what it has so far where perf has no frame
-- pointer stacks of it.
abbrev pub best_for :
    (String → ℕ) → Ratio → Option Counter → Option Counter → Option Counter → Option Counter
best_for draws r none dwarf before = before
best_for draws r (some fp) dwarf before = some (chosen draws r fp dwarf)

add-best_for :
    (draws : ℕ → String → ℕ) (r : Ratio) (dwarf fp merged : ProcessCounters)
    → IsDict fp
    → All (λ p. HasStacks (p.1)) fp
    → All (λ p. HasStacks (p.1)) dwarf
    → (result : ProcessCounters) × (add_highest_avg_depth_stacks_per_process draws r dwarf fp merged
        ≡ ok result)
      × ((asked : ℕ)
          → fetch eqb asked result
            ≡ best_for
                (draws asked)
                r
                (fetch eqb asked fp)
                (fetch eqb asked dwarf)
                (fetch eqb asked merged))
unfolding add_highest_avg_depth_stacks_per_process fetch
add-best_for draws r dwarf [] merged d h k = (merged, refl, λ asked. refl)
add-best_for draws r dwarf ((pid, fp) ∷ more) merged d h k =
    let one =
      deepest-chosen (draws pid) r fp (fetch eqb pid dwarf) h.0 (HasStacks-fetch pid dwarf k) in
    let stacks = chosen (draws pid) r fp (fetch eqb pid dwarf) in
    let (result, returned, rest) =
      add-best_for draws r dwarf more (store eqb pid stacks merged) d.1 h.1 k in
    (
      result,
      rw one returned,
      λ asked.
          let law = fetch-store eqb eqb_iff pid asked stacks merged in
          elim (Bool-cases (eqb pid asked)) [
            | inl same ↦
                let q = (eqb_iff pid asked).0 same in
                let gone = subst (λ q. fetch eqb q more ≡ none) q (d.0) in
                let put : fetch eqb asked result ≡ some stacks =
                  simp (gone, law, same) at (rest asked) in
                simp same (put ∙ ap (λ q. some (chosen (draws q) r fp (fetch eqb q dwarf))) q)
            | inr other ↦ simp other (simp (law, other) at (rest asked))
          ],
    )

-- By what DWARF counts are scaled: all frame pointer samples to all DWARF samples.
abbrev pub ratio_of_samples : ProcessCounters → ProcessCounters → Ratio
ratio_of_samples fp dwarf =
    if eqb (total_samples dwarf) 0
    then record { above = 0; below = 1 }
    else record { above = total_samples fp; below = total_samples dwarf }

-- If no process occurs twice among the frame pointer stacks, and no process has an empty counter, then
-- the merge returns. If perf has no frame pointer stacks at all, each process ends up with its DWARF stacks;
-- if it has no DWARF stacks at all, with its frame pointer stacks. Else, a process with both ends up with
-- its frame pointer stacks if these have more known frames on average, and with its DWARF stacks, scaled by
-- the ratio of all samples, if not; one with only frame pointer stacks keeps them, and a process that only
-- DWARF saw is left out.
pub merge_fp_and_dwarf_results-best_for :
    (draws : ℕ → String → ℕ) (fp dwarf : ProcessCounters)
    → IsDict fp
    → All (λ p. HasStacks (p.1)) fp
    → All (λ p. HasStacks (p.1)) dwarf
    → let r = ratio_of_samples fp dwarf in
      (merged : ProcessCounters) × (merge_fp_and_dwarf_results draws fp dwarf ≡ ok merged)
      × ((asked : ℕ)
          → fetch eqb asked merged ≡ (
              if is_empty fp
              then fetch eqb asked dwarf
              else if is_empty dwarf
              then fetch eqb asked fp
              else best_for (draws asked) r (fetch eqb asked fp) (fetch eqb asked dwarf) none))
unfolding merge_fp_and_dwarf_results fp_to_dwarf_sample_ratio fetch
merge_fp_and_dwarf_results-best_for draws [] dwarf d h k = (dwarf, refl, λ asked. refl)
merge_fp_and_dwarf_results-best_for draws (p ∷ fp) [] d h k = (p ∷ fp, refl, λ asked. refl)
merge_fp_and_dwarf_results-best_for draws (p ∷ fp) (q ∷ dwarf) d h k =
    add-best_for draws
      (fp_to_dwarf_sample_ratio (total_samples (p ∷ fp)) (total_samples (q ∷ dwarf))) (q ∷ dwarf)
      (p ∷ fp) [] d h k
