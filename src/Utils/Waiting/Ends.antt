-- ===== src/Utils/Waiting/Ends.antt =====
-- Waits of gprofiler/utils/__init__.py end.
use mathlib.Core.Path.{subst}
use gprofiler.Prelude.{
  ℕ, zero, suc, ◌+◌, ◌/◌, ◌≤◌, ◌<◌, String, ◌≡◌, refl, ap, inl, inr, true, false, Option, none,
  some, List, [], ◌∷◌, ◌++◌, arith,
}
use gprofiler.Prelude.Tests.{eqb, eqb_iff, is_some, Bool-cases, Option-cases}
use gprofiler.Prelude.Python.{sorted, insert_sorted, le_text}
use gprofiler.Prelude.Result.{ok}
use gprofiler.Utils.Waiting.{rounds, all_but_last, last_one, choose_file}

-- A loop ends with the outcome of its first round from n on that has one, and needs no more fuel than
-- `last` rounds and one.
pub record Settles {ℓ} (A : Type ℓ) (decide : ℕ → Option A) (n last : ℕ) : Type ℓ where
  pub at_round : ℕ
  pub outcome : A
  pub in_time : at_round ≤ n + last
  pub decided : decide at_round ≡ some outcome
  pub undecided : (j : ℕ) → n ≤ j → j < at_round → decide j ≡ none
  pub returns : (fuel : ℕ) → last < fuel → rounds fuel decide n ≡ some outcome

returns_now {ℓ} :
    {A : Type ℓ} (decide : ℕ → Option A) (n last : ℕ) (a : A)
    → decide n ≡ some a
    → (fuel : ℕ) → last < fuel
    → rounds fuel decide n ≡ some a
unfolding rounds
returns_now decide n last a e zero enough = ground arith
returns_now decide n last a e (suc fuel) enough = rw e refl

returns_later {ℓ} :
    {A : Type ℓ} (decide : ℕ → Option A) (n last : ℕ) (a : A)
    → decide n ≡ none
    → ((fuel : ℕ) → last < fuel → rounds fuel decide (suc n) ≡ some a)
    → (fuel : ℕ) → suc last < fuel
    → rounds fuel decide n ≡ some a
unfolding rounds
returns_later decide n last a e later zero enough = ground arith
returns_later decide n last a e later (suc fuel) enough = rw e (later fuel (omega (arith, enough)))

undecided_too {ℓ} :
    {A : Type ℓ} (decide : ℕ → Option A) (n k j : ℕ)
    → decide n ≡ none
    → ((j : ℕ) → suc n ≤ j → j < k → decide j ≡ none)
    → n ≤ j
    → j < k
    → decide j ≡ none
undecided_too decide n k j e later up down = elim (Bool-cases (eqb n j)) [
  | inl same ↦ subst (λ m. decide m ≡ none) ((eqb_iff n j).0 same) e
  | inr other ↦ later j (ground arith) down
]

Settles-now {ℓ} :
    {A : Type ℓ} (decide : ℕ → Option A) (n last : ℕ) (a : A)
    → decide n ≡ some a
    → Settles A decide n last
unfolding rounds
Settles-now decide n last a e = record {
  at_round = n;
  outcome = a;
  in_time = omega arith;
  decided = e;
  undecided = λ j up down. ground arith;
  returns = returns_now decide n last a e;
}

Settles-later {ℓ} :
    {A : Type ℓ} (decide : ℕ → Option A) (n last : ℕ)
    → decide n ≡ none
    → Settles A decide (suc n) last
    → Settles A decide n (suc last)
unfolding rounds
Settles-later decide n last e s = record {
  at_round = s.at_round;
  outcome = s.outcome;
  in_time = omega (arith, s.in_time);
  decided = s.decided;
  undecided = λ j up down. undecided_too decide n s.at_round j e s.undecided up down;
  returns = returns_later decide n last s.outcome e s.returns;
}

-- If a round ends the loop, the loop settles by then.
pub Settles-rounds {ℓ} :
    {A : Type ℓ} (decide : ℕ → Option A) (last n : ℕ)
    → is_some (decide (n + last)) ≡ true
    → Settles A decide n last
Settles-rounds decide zero n h = elim (Option-cases (decide n)) [
  | inl e ↦
      let k : is_some (decide n) ≡ true = subst (λ m. is_some (decide m) ≡ true) (omega arith) h in
      let k' : (is_some (decide n)) ≡ false = rw e refl in ground arith
  | inr (a, e) ↦ Settles-now decide n zero a e
]
Settles-rounds decide (suc last) n h = elim (Option-cases (decide n)) [
  | inl e ↦
      Settles-later decide n last e (
        Settles-rounds decide last (suc n) (subst (λ m. is_some (decide m) ≡ true) (omega arith) h))
  | inr (a, e) ↦ Settles-now decide n (suc last) a e
]

-- The rounds that a timeout takes, when each blocks for an interval.
abbrev pub rounds_of : ℕ → ℕ → ℕ
rounds_of timeout interval = timeout / interval

-- The files are one or more: those removed and the one returned are all that were found, in the order of
-- their names, so that only the last one stays.
split_last_file :
    (x : String) (xs : List String)
    → (kept : String) × (last_one (x ∷ xs) ≡ kept ∷ [])
      × (all_but_last (x ∷ xs) ++ (kept ∷ []) ≡ x ∷ xs)
split_last_file x [] = (x, refl, refl)
split_last_file x (y ∷ more) =
    let (kept, e, f) = split_last_file y more in (kept, e, ap (λ l. x ∷ l) f)

insert_sorted-cons :
    (x : String) (ys : List String)
    → (first : String) × (more : List String) × (insert_sorted x ys ≡ first ∷ more)
insert_sorted-cons x [] = (x, [], refl)
insert_sorted-cons x (y ∷ ys) = elim (Bool-cases (le_text x y)) [
  | inl before ↦ (x, y ∷ ys, simp before refl)
  | inr after ↦ (y, insert_sorted x ys, simp after refl)
]

-- Of any two or more files found, one is returned and the others are removed: together they are all files
-- found, and the returned one is the last by name.
choose_file-sorted :
    (first second : String) (more : List String)
    → (kept : String) × (removed : List String) × (choose_file (first ∷ second ∷ more)
        ≡ ok (kept, removed))
      × (removed ++ (kept ∷ []) ≡ sorted (first ∷ second ∷ more))
unfolding choose_file sorted
choose_file-sorted first second more =
    let (x, xs, e) = insert_sorted-cons first (insert_sorted second (sorted more)) in
    let (kept, f, g) = split_last_file x xs in
    (kept, all_but_last (x ∷ xs), simp (e, f) refl, rw e g)
