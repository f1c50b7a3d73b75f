-- ===== src/Perf/Events/Validation.antt =====
-- The events that a command asks for, after the validation of gprofiler/profilers/perf_events.py.
use mathlib.Core.List.{append-nil, append_assoc}
use gprofiler.Prelude.{
  String, ◌≡◌, refl, inl, inr, true, false, List, [], ◌∷◌, ◌++◌, ◌==◌, arith, eq_iff,
}
use gprofiler.Prelude.Tests.{Bool-cases}
use gprofiler.Prelude.Lists.{
  contains, contains-append, All, All-append, IsDistinct, IsDistinct-snoc, IsDistinct-middle,
  is_empty,
}
use gprofiler.Perf.Events.{
  is_supported, pmu_event_aliases, or_default, keep_event, keep_events,
  validate_and_normalize_events,
}

-- A supported event under its canonical name.
abbrev pub IsCanonical : String → Type 0
IsCanonical e = (is_supported e ≡ true) × (pmu_event_aliases e ≡ e)

-- What perf can be given: at least one event, each canonical, none twice.
pub record IsEventList (es : List String) : Type 0 where
  pub some_event : is_empty es ≡ false
  pub canonical : All IsCanonical es
  pub distinct : IsDistinct es

pub cycles-IsCanonical : IsCanonical "cycles"
unfolding is_supported pmu_event_aliases
cycles-IsCanonical = (refl, refl)

pub alias-IsCanonical : (e : String) → is_supported e ≡ true → IsCanonical (pmu_event_aliases e)
unfolding pmu_event_aliases
alias-IsCanonical e h = elim (Bool-cases (e == "cpu-cycles")) [
  | inl alias ↦ simp alias cycles-IsCanonical
  | inr other ↦ simp other (h, refl)
]

-- What the loop keeps.
record IsKept (valid : List String) : Type 0 where
  names : All IsCanonical valid
  once : IsDistinct valid

keep_event-IsKept : (valid : List String) (e : String) → IsKept valid → IsKept (keep_event valid e)
unfolding keep_event
keep_event-IsKept valid e k = elim (Bool-cases (is_supported e)) [
  | inl good ↦ elim (Bool-cases (contains (pmu_event_aliases e) valid)) [
    | inl old ↦ simp (good, old) k
    | inr new ↦
        simp (good, new)
          (record {
            names = All-append IsCanonical valid _ k.names (alias-IsCanonical e good, tt);
            once = IsDistinct-snoc valid _ new k.once;
          })
  ]
  | inr bad ↦ simp bad k
]

keep_events-IsKept : (valid es : List String) → IsKept valid → IsKept (keep_events valid es)
unfolding keep_events
keep_events-IsKept valid [] k = k
keep_events-IsKept valid (e ∷ es) k =
    keep_events-IsKept (keep_event valid e) es (keep_event-IsKept valid e k)

pub or_default-IsEventList :
    (es : List String) → All IsCanonical es → IsDistinct es → IsEventList (or_default es)
unfolding contains
or_default-IsEventList [] h d = record {
  some_event = refl;
  canonical = (cycles-IsCanonical, tt);
  distinct = (refl, tt);
}
or_default-IsEventList (e ∷ es) h d = record { some_event = refl; canonical = h; distinct = d }

-- Whatever events are asked for, perf gets at least one event, each of them supported and under its
-- canonical name, and none twice.
validate-IsEventList : (es : List String) → IsEventList (validate_and_normalize_events es)
unfolding validate_and_normalize_events
validate-IsEventList es =
    let k = keep_events-IsKept [] es (record { names = tt; once = tt }) in
    or_default-IsEventList (keep_events [] es) k.names k.once

keep_event_grows :
    (a : String) (valid : List String) (e : String)
    → contains a valid ≡ true
    → contains a (keep_event valid e) ≡ true
unfolding keep_event
keep_event_grows a valid e h = ground (arith, contains-append a valid (pmu_event_aliases e ∷ []))

keep_events_grows :
    (a : String) (valid es : List String)
    → contains a valid ≡ true
    → contains a (keep_events valid es) ≡ true
unfolding keep_events
keep_events_grows a valid [] h = h
keep_events_grows a valid (e ∷ es) h =
    keep_events_grows a (keep_event valid e) es (keep_event_grows a valid e h)

keep_event-contains :
    (valid : List String) (e : String)
    → is_supported e ≡ true
    → contains (pmu_event_aliases e) (keep_event valid e) ≡ true
unfolding keep_event contains
keep_event-contains valid e s =
    let name = pmu_event_aliases e in
    ground (arith, contains-append name valid (name ∷ []), eq_iff name name)

keep_events-contains :
    (a : String) (valid es : List String)
    → is_supported a ≡ true
    → contains a es ≡ true
    → contains (pmu_event_aliases a) (keep_events valid es) ≡ true
unfolding keep_events contains
keep_events-contains a valid [] s h = cc
keep_events-contains a valid (e ∷ es) s h = elim (Bool-cases (a == e)) [
  | inl same ↦
      let eq : a ≡ e = (eq_iff a e).0 same in
      keep_events_grows _ _ es (rw eq (keep_event-contains valid e (rw (← eq) s)))
  | inr other ↦ keep_events-contains a (keep_event valid e) es s (ground arith)
]

contains-or_default :
    (a : String) (es : List String) → contains a es ≡ true → contains a (or_default es) ≡ true
unfolding contains
contains-or_default a [] h = cc
contains-or_default a (e ∷ es) h = h

-- No supported event is lost: it is in the result under its canonical name.
pub validate-contains :
    (a : String) (es : List String)
    → is_supported a ≡ true
    → contains a es ≡ true
    → contains (pmu_event_aliases a) (validate_and_normalize_events es) ≡ true
unfolding validate_and_normalize_events
validate-contains a es s h =
    contains-or_default _ (keep_events [] es) (keep_events-contains a [] es s h)

keep_event_new :
    (valid : List String) (e : String)
    → IsCanonical e
    → contains e valid ≡ false
    → keep_event valid e ≡ valid ++ (e ∷ [])
unfolding keep_event
keep_event_new valid e c new = simp (c.0, c.1, new)

keep_events-append :
    (valid es : List String)
    → All IsCanonical es
    → IsDistinct (valid ++ es)
    → keep_events valid es ≡ valid ++ es
unfolding keep_events
keep_events-append valid [] h d = rw append-nil
keep_events-append valid (e ∷ es) h d =
    let new = keep_event_new valid e h.0 (IsDistinct-middle valid e es d) in
    rw (new, keep_events-append (valid ++ (e ∷ [])) es h.1 (rw append_assoc d), append_assoc)

or_default_some : (es : List String) → is_empty es ≡ false → or_default es ≡ es
or_default_some [] h = cc
or_default_some (e ∷ es) h = refl

-- Validating twice changes nothing.
validate_idem :
    (es : List String)
    → validate_and_normalize_events (validate_and_normalize_events es)
      ≡ validate_and_normalize_events es
unfolding validate_and_normalize_events
validate_idem es = let v = validate-IsEventList es in fixed (validate_and_normalize_events es) v
  where
    fixed : (vs : List String) → IsEventList vs → validate_and_normalize_events vs ≡ vs
    fixed vs v =
        rw (keep_events-append [] vs v.canonical v.distinct) (or_default_some vs v.some_event)
