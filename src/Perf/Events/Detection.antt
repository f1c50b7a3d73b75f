-- ===== src/Perf/Events/Detection.antt =====
-- The events that the detection of gprofiler/profilers/perf_events.py reports for the host.
use gprofiler.Prelude.{String, ◌≡◌, refl, true, false, ◌||◌, List, [], ◌∷◌, ◌==◌, arith, eq_iff}
use gprofiler.Prelude.Lists.{contains, All, IsDistinct}
use gprofiler.Prelude.Python.{StrMethods, add-IsDistinct, add-All, insert_sorted, sorted}
use gprofiler.Perf.Events.{
  is_supported, pmu_event_aliases, filter_supported_events, normalize_event_names, PerfList, exited,
  raised, query_perf_hardware_events, detect_supported_pmu_events,
}
use gprofiler.Perf.Events.Validation.{
  IsCanonical, IsEventList, alias-IsCanonical, or_default-IsEventList,
}

filter-supported :
    (es : List String) → All (λ e. is_supported e ≡ true) (filter_supported_events es)
unfolding filter_supported_events
filter-supported [] = tt
filter-supported (e ∷ es) = ground (arith, filter-supported es)

normalize-IsDistinct : (es : List String) → IsDistinct (normalize_event_names es)
unfolding normalize_event_names
normalize-IsDistinct [] = tt
normalize-IsDistinct (e ∷ es) =
    add-IsDistinct (pmu_event_aliases e) (normalize_event_names es) (normalize-IsDistinct es)

normalize-IsCanonical :
    (es : List String)
    → All (λ e. is_supported e ≡ true) es
    → All IsCanonical (normalize_event_names es)
unfolding normalize_event_names
normalize-IsCanonical [] h = tt
normalize-IsCanonical (e ∷ es) h =
    add-All IsCanonical (pmu_event_aliases e) (normalize_event_names es) (alias-IsCanonical e h.0)
      (normalize-IsCanonical es h.1)

-- Sorting keeps every property of the members, and keeps them distinct.
module _ (P : String → Type 0) where
  insert_sorted-All : (x : String) (ys : List String) → P x → All P ys → All P (insert_sorted x ys)
  insert_sorted-All x [] p h = (p, tt)
  insert_sorted-All x (y ∷ ys) p h = ground (arith, insert_sorted-All x ys p h.1)

  sorted-All : (xs : List String) → All P xs → All P (sorted xs)
  unfolding sorted
  sorted-All [] h = tt
  sorted-All (x ∷ xs) h = insert_sorted-All x (sorted xs) h.0 (sorted-All xs h.1)

contains-insert_sorted :
    (a x : String) (ys : List String) → contains a (insert_sorted x ys) ≡ (a == x || contains a ys)
unfolding contains
contains-insert_sorted a x [] = refl
contains-insert_sorted a x (y ∷ ys) = ground (arith, contains-insert_sorted a x ys)

contains-sorted : (a : String) (xs : List String) → contains a (sorted xs) ≡ contains a xs
unfolding sorted contains
contains-sorted a [] = refl
contains-sorted a (x ∷ xs) = rw (contains-insert_sorted, contains-sorted a xs)

insert_sorted-IsDistinct :
    (x : String) (ys : List String)
    → contains x ys ≡ false
    → IsDistinct ys
    → IsDistinct (insert_sorted x ys)
unfolding contains
insert_sorted-IsDistinct x [] h d = (refl, tt)
insert_sorted-IsDistinct x (y ∷ ys) h d = ground (
  arith,
  eq_iff x y,
  eq_iff y x,
  contains-insert_sorted y x ys,
  insert_sorted-IsDistinct x ys (ground arith) d.1,
)

sorted-IsDistinct : (xs : List String) → IsDistinct xs → IsDistinct (sorted xs)
unfolding sorted
sorted-IsDistinct [] d = tt
sorted-IsDistinct (x ∷ xs) d =
    insert_sorted-IsDistinct x (sorted xs) (rw contains-sorted d.0) (sorted-IsDistinct xs d.1)

-- Whatever `perf list pmu` prints and however it ends, the host's events are at least one, each of
-- them supported and under its canonical name, and none twice.
pub detect-IsEventList :
    (py : StrMethods) (outcome : PerfList) → IsEventList (detect_supported_pmu_events py outcome)
unfolding detect_supported_pmu_events
detect-IsEventList py (exited status stdout) =
    let found = filter_supported_events (query_perf_hardware_events py status stdout) in
    let names = normalize_event_names found in
    let canonical = normalize-IsCanonical found (filter-supported _) in
    or_default-IsEventList (sorted names) (sorted-All IsCanonical names canonical)
      (sorted-IsDistinct names (normalize-IsDistinct found))
detect-IsEventList py (raised e) = or_default-IsEventList [] tt tt
