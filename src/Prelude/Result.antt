-- ===== src/Prelude/Result.antt =====
-- Python exceptions as values: the classes that the modelled code raises or that its calls may raise.
use mathlib.Core.Path.{◌≡◌, refl}

pub data Exn : Type 0 where
  attribute_error value_error type_error key_error timeout_expired other_error : Exn
  called_process_error file_not_found assertion_error timeout_error stop_event_set : Exn
  perf_no_supported_event argument_type_error process_stopped program_missing : Exn

pub data Result {ℓ} (A : Type ℓ) : Type ℓ where
  ok : A → Result A
  err : Exn → Result A

infixl 5 ◌>>=◌
abbrev pub ◌>>=◌ {ℓ κ} : {A : Type ℓ} {C : Type κ} → Result A → (A → Result C) → Result C
ok x >>= next = next x
err raised >>= next = err raised

-- What a result that is a value says of both steps.
pub >>=-eq-ok {ℓ κ} :
    {A : Type ℓ} {C : Type κ} (step : Result A) (then : A → Result C) {c : C}
    → (step >>= then) ≡ ok c
    → (first : A) × (step ≡ ok first) × (then first ≡ ok c)
>>=-eq-ok (ok x) then returned = (x, refl, returned)
>>=-eq-ok (err raised) then returned = cc

pub ok-injective {ℓ} : {A : Type ℓ} {a b : A} → ok a ≡ ok b → a ≡ b
ok-injective h = cc
