-- ===== src/Utils/Dicts/Merged.antt =====
-- What `merge_dicts` of gprofiler/utils/__init__.py leaves at each key.
use mathlib.Core.Path.{subst}
use gprofiler.Prelude.{
  String, ◌≡◌, refl, sym, ap, ◌∙◌, inl, inr, true, false, Option, none, some, arith, ◌==◌, eq_iff,
}
use gprofiler.Prelude.Tests.{if◌then◌else◌, Bool-cases}
use gprofiler.Prelude.Result.{Exn, Result, ok, err, ok-injective}
use gprofiler.Utils.Dicts.{
  Value, Entries, leaf, node, done, entry, read_key, write_key, then_merge, put_node, merge_node,
  merge_value, merge_dicts,
}

pub read_key-write_key :
    (key asked : String) (value : Value) (d : Entries)
    → read_key asked (write_key key value d)
      ≡ (if key == asked then some value else read_key asked d)
unfolding read_key write_key
read_key-write_key key asked value done = refl
read_key-write_key key asked value (entry first old more) =
    let rest = read_key-write_key key asked value more in
    ground (arith, rest, eq_iff key asked, eq_iff first asked, eq_iff first key)

-- No key twice, as in a dict.
abbrev pub IsDict : Entries → Type 0
IsDict done = Unit
IsDict (entry key value more) = (read_key key more ≡ none) × IsDict more

-- The value of a key alone, from the two dicts' values of it.
abbrev pub as_value : Result Entries → Result (Option Value)
as_value (ok inner) = ok (some (node inner))
as_value (err raised) = err raised

abbrev leaf_stays : Entries → String → Result (Option Value)
leaf_stays done text = ok (some (leaf text))
leaf_stays (entry key value more) text = err Exn.other_error

abbrev pub merged_entry : Option Value → Option Value → Result (Option Value)
merged_entry none old = ok old
merged_entry (some (leaf text)) old = ok (some (leaf text))
merged_entry (some (node inner)) none = as_value (merge_dicts inner done)
merged_entry (some (node inner)) (some (node found)) = as_value (merge_dicts inner found)
merged_entry (some (node inner)) (some (leaf text)) = leaf_stays inner text

then_merge-eq-ok :
    (step : Result Entries) (next : Entries → Result Entries) (out : Entries)
    → then_merge step next ≡ ok out
    → (first : Entries) × (step ≡ ok first) × (next first ≡ ok out)
then_merge-eq-ok (ok first) next out h = (first, refl, h)
then_merge-eq-ok (err raised) next out h = cc

-- What a write does to all keys.
Written : String → Option Value → Entries → Entries → Type 0
Written key value dest out =
    (value ≡ read_key key out)
    × ((asked : String) → (key == asked) ≡ false → read_key asked out ≡ read_key asked dest)

write_key-Written :
    (key : String) (value : Value) (dest out : Entries)
    → write_key key value dest ≡ out
    → Written key (some value) dest out
unfolding Written
write_key-Written key value dest out h =
    let same : (key == key) ≡ true = ground (arith, eq_iff key key) in
    let here : read_key key (write_key key value dest) ≡ some value =
      read_key-write_key key key value dest ∙ simp same refl in
    (
      sym (ap (read_key key) (sym h) ∙ here),
      λ asked other.
          ap (read_key asked) (sym h) ∙ read_key-write_key key asked value dest ∙ simp other refl,
    )

put_node-Written :
    (key : String) (dest out : Entries) (merged : Result Entries)
    → put_node key dest merged ≡ ok out
    → (inner : Entries) × (merged ≡ ok inner) × Written key (some (node inner)) dest out
put_node-Written key dest out (ok inner) h =
    (inner, refl, write_key-Written key (node inner) dest out (ok-injective h))
put_node-Written key dest out (err raised) h = cc

unchanged-Written :
    (key : String) (dest out : Entries) → dest ≡ out → Written key (read_key key dest) dest out
unfolding Written
unchanged-Written key dest out h = (ap (read_key key) h, λ asked other. ap (read_key asked) (sym h))

-- One value: at its key, and at the others.
merge_node-Written :
    (key : String) (inner dest out : Entries) (old : Option Value)
    → read_key key dest ≡ old
    → merge_node key inner (λ found. merge_dicts inner found) old dest ≡ ok out
    → (new : Option Value) × (merged_entry (some (node inner)) old ≡ ok new)
      × Written key new dest out
merge_node-Written key inner dest out none e h =
    let (merged, f, w) = put_node-Written key dest out (merge_dicts inner done) h in
    (some (node merged), ap as_value f, w)
merge_node-Written key inner dest out (some (node found)) e h =
    let (merged, f, w) = put_node-Written key dest out (merge_dicts inner found) h in
    (some (node merged), ap as_value f, w)
merge_node-Written key done dest out (some (leaf text)) e h = (
  some (leaf text),
  refl,
  subst (λ o. Written key o dest out) e (unchanged-Written key dest out (ok-injective h)),
)
merge_node-Written key (entry k v more) dest out (some (leaf text)) e h = cc

merge_value-Written :
    (key : String) (value : Value) (dest out : Entries)
    → merge_value key value dest ≡ ok out
    → (new : Option Value) × (merged_entry (some value) (read_key key dest) ≡ ok new)
      × Written key new dest out
unfolding merge_value
merge_value-Written key (leaf text) dest out h =
    (some (leaf text), refl, write_key-Written key (leaf text) dest out (ok-injective h))
merge_value-Written key (node inner) dest out h =
    merge_node-Written key inner dest out (read_key key dest) refl h

written_parts :
    (key : String) (value : Value) (dest out : Entries)
    → merge_value key value dest ≡ ok out
    → (new : Option Value) × (merged_entry (some value) (read_key key dest) ≡ ok new)
      × (new ≡ read_key key out)
      × ((asked : String) → (key == asked) ≡ false → read_key asked out ≡ read_key asked dest)
unfolding Written
written_parts key value dest out h =
    let (new, g, w) = merge_value-Written key value dest out h in (new, g, w.0, w.1)

-- If the merge of two dicts returns, whatever they hold, every key has what the two dicts have for it: the
-- second dict's value where the first has none, the first's value where that is no dict, and where it is
-- one the merge, by the same rule, of it into the second's dict, a new one if the key is not there; what
-- is no dict there is kept if there is nothing to merge.
pub merge_dicts-merged_entry :
    (source dest out : Entries) (asked : String)
    → IsDict source
    → merge_dicts source dest ≡ ok out
    → merged_entry (read_key asked source) (read_key asked dest) ≡ ok (read_key asked out)
unfolding merge_dicts read_key Written
merge_dicts-merged_entry done dest out asked d h = ap (λ e. ok (read_key asked e)) (ok-injective h)
merge_dicts-merged_entry (entry key value more) dest out asked d h =
    let (between, e, f) =
      then_merge-eq-ok (merge_value key value dest) (λ dest'. merge_dicts more dest') out h in
    let (new, g, here, others) = written_parts key value dest between e in
    let rest = merge_dicts-merged_entry more between out asked d.1 f in
    elim (Bool-cases (key == asked)) [
      | inl same ↦
          let again = merge_dicts-merged_entry more between out key d.1 f in
          let last : ok (read_key key between) ≡ ok (read_key key out) = simp (d.0) at again in
          let self : (key == key) ≡ true = ground (arith, eq_iff key key) in
          let at_key : merged_entry (read_key key (entry key value more)) (read_key key dest)
              ≡ ok (read_key key out) =
            simp self (g ∙ ap (λ v. ok v) here ∙ last) in
          subst
            (λ q.
              merged_entry (read_key q (entry key value more)) (read_key q dest)
              ≡ ok (read_key q out))
            ((eq_iff key asked).0 same) at_key
      | inr other ↦
          let o = others asked other in
          let r : merged_entry (read_key asked more) (read_key asked dest)
              ≡ ok (read_key asked out) =
            simp o at rest in
          simp other r
    ]
