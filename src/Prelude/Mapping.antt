-- ===== src/Prelude/Mapping.antt =====
-- A `dict` whose keys are compared by a given test, in the order of insertion.
use mathlib.Core.Path.{◌≡◌, refl}
use mathlib.Core.Logic.{◌↔◌}
use mathlib.Core.Bool.{Bool, true}
use mathlib.Core.Option.{Option, none, some}
use mathlib.Core.List.{List, [], ◌∷◌}
use native.Mathlib.Omega.{arith}
use gprofiler.Prelude.Tests.{if◌then◌else◌}

module _ {ℓ κ} {K : Type ℓ} {V : Type κ} (same : K → K → Bool) where
  -- d.get(key)
  unfoldable pub fetch : K → List (K × V) → Option V
  fetch key [] = none
  fetch key ((first, value) ∷ more) =
      let rest = fetch key more in if same first key then some value else rest

  -- d[key] = value
  unfoldable pub store : K → V → List (K × V) → List (K × V)
  store key value [] = (key, value) ∷ []
  store key value ((first, old) ∷ more) =
      let rest = store key value more in
      if same first key then (first, value) ∷ more else (first, old) ∷ rest

  pub fetch-store :
      ((a b : K) → (same a b ≡ true) ↔ (a ≡ b))
      → (key asked : K) (value : V) (d : List (K × V))
      → fetch asked (store key value d) ≡ (if same key asked then some value else fetch asked d)
  unfolding fetch store
  fetch-store law key asked value [] = refl
  fetch-store law key asked value ((first, old) ∷ more) =
      let rest = fetch-store law key asked value more in
      ground (arith, rest, law key asked, law first asked, law first key)
