-- ===== src/Samples/Scaling.antt =====
-- `scale_sample_counts` of gprofiler/merge.py: a runtime profiler's counts made as large as perf's, with
-- exact fractions where Python has floats, and one random draw for each stack.
use mathlib.Core.List.{append-nil, append_assoc}
use native.Mathlib.Nat.{div-add-mod, mod-lt, add-mul, suc-mul, mul_comm, le_of_mul-le-mul_right}
use gprofiler.Prelude.{
  ℕ, suc, ◌+◌, ◌*◌, ◌/◌, ◌%◌, ◌≤◌, ◌<◌, String, ◌≡◌, refl, ap, ◌∙◌, inl, inr, Bool, false, [], ◌∷◌,
  ◌++◌, arith,
}
use gprofiler.Prelude.Tests.{Bool-cases, if_both, leb, eqb, if◌then◌else◌}
use gprofiler.Prelude.Lists.{length, contains, IsDistinct}
use gprofiler.Prelude.Dict.{insert}
use gprofiler.Samples.Counters.{Counter, keys, total, insert_new, middle_is_new}

-- The ratio of two counts of samples.
pub record Ratio : Type 0 where
  pub above : ℕ
  pub below : ℕ

-- random.random() is one of the 2 ^ 53 multiples of 2 ^ -53 below 1.
abbrev pub precision : ℕ
precision = 9007199254740992

-- random.random() <= math.modf(new_count)[0], for new_count = count * ratio
unfoldable pub rounds_up : ℕ → Ratio → ℕ → Bool
rounds_up draw r n = leb (draw * r.below) (((n * r.above) % r.below) * precision)

abbrev pub floor_count : Ratio → ℕ → ℕ
floor_count r n = (n * r.above) / r.below

abbrev pub ceil_count : Ratio → ℕ → ℕ
ceil_count r n = if eqb ((n * r.above) % r.below) 0 then floor_count r n else suc (floor_count r n)

unfoldable pub scaled_value : ℕ → Ratio → ℕ → ℕ
scaled_value draw r n = if rounds_up draw r n then ceil_count r n else floor_count r n

-- The loop over stacks.items(): a stack whose count is rounded to 0 is left out.
unfoldable pub scale_loop : (String → ℕ) → Ratio → Counter → Counter → Counter
scale_loop draws r [] scaled = scaled
scale_loop draws r ((stack, n) ∷ more) scaled =
    let v = scaled_value (draws stack) r n in
    scale_loop draws r more (if eqb v 0 then scaled else insert stack v scaled)

unfoldable pub scale_sample_counts : (String → ℕ) → Ratio → Counter → Counter
scale_sample_counts draws r stacks =
    if eqb r.above r.below then stacks else scale_loop draws r stacks []

-- A number of whole parts of size `b` that is less than one part away from `a`.
abbrev pub Near : ℕ → ℕ → ℕ → Type 0
Near v a b = (v * b < a + b) × (a < v * b + b)

Near-floor : (a b : ℕ) → 0 < b → Near (a / b) a b
Near-floor a b h =
    let m = div-add-mod a b in
    let k = mod-lt a h in
    let c = mul_comm b (a / b) in (omega (arith, m, k, c), omega (arith, m, k, c))

Near-suc : (a b : ℕ) → 0 < b → eqb (a % b) 0 ≡ false → Near (suc (a / b)) a b
Near-suc a b h e =
    let m = div-add-mod a b in
    let k = mod-lt a h in
    let c = mul_comm b (a / b) in
    let d = suc-mul (a / b) b in
    let pos : 0 < a % b = ground arith in
    (omega (arith, m, k, c, d, pos), omega (arith, m, k, c, d, pos))

-- A scaled count is next to the exact one, below or above it.
scaled_value-Near :
    (draw : ℕ) (r : Ratio) (n : ℕ)
    → 0 < r.below
    → Near (scaled_value draw r n) (n * r.above) r.below
unfolding scaled_value
scaled_value-Near draw r n h =
    let near = Near-floor (n * r.above) r.below h in
    let near_ceil : Near (ceil_count r n) (n * r.above) r.below =
      elim (Bool-cases (eqb ((n * r.above) % r.below) 0)) [
        | inl whole ↦ rw whole near
        | inr part ↦ rw part (Near-suc (n * r.above) r.below h part)
      ] in
    if_both (λ v. Near v (n * r.above) r.below) (rounds_up draw r n) (ceil_count r n)
      (floor_count r n) near_ceil near

-- The loop puts the scaled counts in place of the counts, and leaves out the zeros.
unfoldable pub scaled : (String → ℕ) → Ratio → Counter → Counter
scaled draws r [] = []
scaled draws r ((stack, n) ∷ more) =
    let v = scaled_value (draws stack) r n in
    let rest = scaled draws r more in if eqb v 0 then rest else (stack, v) ∷ rest

contains-scaled :
    (key : String) (draws : String → ℕ) (r : Ratio) (stacks : Counter)
    → contains key (keys stacks) ≡ false
    → contains key (keys (scaled draws r stacks)) ≡ false
unfolding contains scaled
contains-scaled key draws r [] new = refl
contains-scaled key draws r ((stack, n) ∷ more) new =
    let rest = contains-scaled key draws r more (ground arith) in
    if_both (λ d. contains key (keys d) ≡ false) (eqb (scaled_value (draws stack) r n) 0)
      (scaled draws r more) ((stack, scaled_value (draws stack) r n) ∷ scaled draws r more) rest
      (ground (arith, rest))

IsDistinct-scaled :
    (draws : String → ℕ) (r : Ratio) (stacks : Counter)
    → IsDistinct (keys stacks)
    → IsDistinct (keys (scaled draws r stacks))
unfolding scaled
IsDistinct-scaled draws r [] d = tt
IsDistinct-scaled draws r ((stack, n) ∷ more) d =
    let rest = IsDistinct-scaled draws r more d.1 in
    if_both (λ e. IsDistinct (keys e)) (eqb (scaled_value (draws stack) r n) 0)
      (scaled draws r more) ((stack, scaled_value (draws stack) r n) ∷ scaled draws r more) rest
      (contains-scaled stack draws r more d.0, rest)

total-scaled :
    (draws : String → ℕ) (r : Ratio) (stack : String) (n : ℕ) (more : Counter)
    → total (scaled draws r ((stack, n) ∷ more))
      ≡ scaled_value (draws stack) r n + total (scaled draws r more)
unfolding scaled total
total-scaled draws r stack n more = elim (Bool-cases (eqb (scaled_value (draws stack) r n) 0)) [
  | inl none_left ↦
      let e : scaled_value (draws stack) r n ≡ 0 = ground arith in rw (none_left, e) (omega arith)
  | inr kept ↦ rw kept refl
]

-- The sum of the scaled counts is at most one sample for each stack away from the exact sum.
scaled-total-bounds :
    (draws : String → ℕ) (r : Ratio) (stacks : Counter)
    → 0 < r.below
    → (total (scaled draws r stacks) * r.below ≤ total stacks * r.above + length stacks * r.below)
      × (total stacks * r.above ≤ total (scaled draws r stacks) * r.below + length stacks * r.below)
unfolding total scaled
scaled-total-bounds draws r [] h = (omega arith, omega arith)
scaled-total-bounds draws r ((stack, n) ∷ more) h =
    let rest = scaled-total-bounds draws r more h in
    let near = scaled_value-Near (draws stack) r n h in
    let v = scaled_value (draws stack) r n in
    let t = total (scaled draws r more) in
    let e : total (scaled draws r ((stack, n) ∷ more)) * r.below ≡ v * r.below + t * r.below =
      ap (λ x. x * r.below) (total-scaled draws r stack n more) ∙ add-mul v t r.below in
    let f = add-mul n (total more) r.above in
    let g = suc-mul (length more) r.below in
    (omega (arith, rest, near, e, f, g), omega (arith, rest, near, e, f, g))

scale_loop-scaled :
    (draws : String → ℕ) (r : Ratio) (stacks done : Counter)
    → IsDistinct (keys (done ++ scaled draws r stacks))
    → scale_loop draws r stacks done ≡ done ++ scaled draws r stacks
unfolding scale_loop scaled
scale_loop-scaled draws r [] done d = rw append-nil refl
scale_loop-scaled draws r ((stack, n) ∷ more) done d =
    let v = scaled_value (draws stack) r n in
    elim (Bool-cases (eqb v 0)) [
      | inl left_out ↦
          let d' : IsDistinct (keys (done ++ scaled draws r more)) = simp left_out at d in
          rw left_out (scale_loop-scaled draws r more done d')
      | inr kept ↦
          let d' : IsDistinct (keys (done ++ ((stack, v) ∷ scaled draws r more))) =
            simp kept at d in
          let new = middle_is_new done stack v (scaled draws r more) d' in
          let whole = append_assoc done ((stack, v) ∷ []) (scaled draws r more) in
          let d'' : IsDistinct (keys ((done ++ ((stack, v) ∷ [])) ++ scaled draws r more)) =
            rw whole d' in
          rw kept (
            rw (insert_new stack v done new)
              (scale_loop-scaled draws r more (done ++ ((stack, v) ∷ [])) d'' ∙ whole))
    ]

-- For counts of which no two are of the same stack and whose sum, the ratio's lower number, is not 0:
-- the counts scaled by the ratio of perf's samples to the runtime profiler's sum up to perf's number of
-- samples, but for one sample at most for each stack, whichever way each count was rounded.
pub scale_sample_counts-total :
    (draws : String → ℕ) (perf_samples : ℕ) (stacks : Counter)
    → IsDistinct (keys stacks)
    → 0 < total stacks
    → let result =
        scale_sample_counts draws (record { above = perf_samples; below = total stacks }) stacks in
      (total result ≤ perf_samples + length stacks) × (perf_samples ≤ total result + length stacks)
unfolding scale_sample_counts
scale_sample_counts-total draws perf_samples stacks d h =
    let r : Ratio = record { above = perf_samples; below = total stacks } in
    elim (Bool-cases (eqb perf_samples (total stacks))) [
      | inl same ↦
          let e : perf_samples ≡ total stacks = ground arith in rw same (omega arith, omega arith)
      | inr differs ↦
          let b = scaled-total-bounds draws r stacks h in
          let t = total (scaled draws r stacks) in
          let c = mul_comm perf_samples (total stacks) in
          let up = add-mul perf_samples (length stacks) (total stacks) in
          let low = add-mul t (length stacks) (total stacks) in
          let le : t ≤ perf_samples + length stacks =
            le_of_mul-le-mul_right (omega (arith, b, c, up)) h in
          let ge : perf_samples ≤ t + length stacks =
            le_of_mul-le-mul_right (omega (arith, b, c, low)) h in
          rw differs
            (rw (scale_loop-scaled draws r stacks [] (IsDistinct-scaled draws r stacks d)) (le, ge))
    ]
