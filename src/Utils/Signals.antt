-- ===== src/Utils/Signals.antt =====
-- `_sigint_handler` of gprofiler/utils/__init__.py: at most one KeyboardInterrupt in half a second. Times
-- are in milliseconds.
use gprofiler.Prelude.{
  ℕ, ◌+◌, ◌*◌, ◌≤◌, ◌≡◌, refl, inl, inr, Bool, true, false, Option, none, some, List, [], ◌∷◌,
  arith,
}
use gprofiler.Prelude.Tests.{if◌then◌else◌, ltb, Bool-cases}
use gprofiler.Prelude.Lists.{All, length}

abbrev pub sigint_ratelimit : ℕ
sigint_ratelimit = 500

-- _last_signal_ts is None or ts > _last_signal_ts + SIGINT_RATELIMIT
abbrev pub may_raise : Option ℕ → ℕ → Bool
may_raise none ts = true
may_raise (some last) ts = ltb (last + sigint_ratelimit) ts

-- Whether the handler raises, and the new `_last_signal_ts`.
unfoldable pub sigint_handler : ℕ → Option ℕ → Bool × Option ℕ
sigint_handler ts last = if may_raise last ts then (true, some ts) else (false, last)

-- The times at which a series of signals raises.
unfoldable pub raised_at : Option ℕ → List ℕ → List ℕ
raised_at last [] = []
raised_at last (ts ∷ more) =
    let (raises, last') = sigint_handler ts last in
    let rest = raised_at last' more in if raises then ts ∷ rest else rest

-- More than half a second after the time, and after each other.
abbrev pub IsApart : Option ℕ → List ℕ → Type 0
IsApart last [] = Unit
IsApart last (ts ∷ more) = (may_raise last ts ≡ true) × IsApart (some ts) more

raised_at-IsApart : (last : Option ℕ) (signals : List ℕ) → IsApart last (raised_at last signals)
unfolding raised_at sigint_handler
raised_at-IsApart last [] = tt
raised_at-IsApart last (ts ∷ more) = elim (Bool-cases (may_raise last ts)) [
  | inl raises ↦ simp raises (refl, raised_at-IsApart (some ts) more)
  | inr silent ↦ simp silent (raised_at-IsApart last more)
]

raised_at-All :
    (P : ℕ → Type 0) (last : Option ℕ) (signals : List ℕ)
    → All P signals
    → All P (raised_at last signals)
unfolding raised_at sigint_handler
raised_at-All P last [] h = tt
raised_at-All P last (ts ∷ more) h = elim (Bool-cases (may_raise last ts)) [
  | inl raises ↦ simp raises (h.0, raised_at-All P (some ts) more h.1)
  | inr silent ↦ simp silent (raised_at-All P last more h.1)
]

IsApart-length :
    (last end : ℕ) (times : List ℕ)
    → IsApart (some last) times
    → All (λ ts. ts ≤ end) times
    → last ≤ end
    → last + length times * 501 ≤ end
IsApart-length last end [] apart within h = omega (arith, h)
IsApart-length last end (ts ∷ more) apart within h =
    let rest = IsApart-length ts end more apart.1 within.1 within.0 in
    let a = apart.0 in ground (arith, rest)

-- For any signals within a span of milliseconds, the handler raises at most once, and once more for every
-- 501 milliseconds of the span; any two of its interrupts are more than half a second apart.
raised_at-bound :
    (start span : ℕ) (signals : List ℕ)
    → All (λ ts. (start ≤ ts) × (ts ≤ start + span)) signals
    → (length (raised_at none signals) * 501 ≤ span + 501) × IsApart none (raised_at none signals)
raised_at-bound start span signals h =
    let within = raised_at-All (λ ts. (start ≤ ts) × (ts ≤ start + span)) none signals h in
    let apart = raised_at-IsApart none signals in
    (counted (raised_at none signals) within apart, apart)
  where
    late :
        (times : List ℕ)
        → All (λ ts. (start ≤ ts) × (ts ≤ start + span)) times
        → All (λ ts. ts ≤ start + span) times
    late [] w = tt
    late (ts ∷ more) w = (w.0.1, late more w.1)

    counted :
        (times : List ℕ)
        → All (λ ts. (start ≤ ts) × (ts ≤ start + span)) times
        → IsApart none times
        → length times * 501 ≤ span + 501
    counted [] w apart = omega arith
    counted (ts ∷ more) w apart =
        let k = IsApart-length ts (start + span) more apart.1 (late more w.1) (w.0.1) in
        omega (arith, k, w.0.0)
