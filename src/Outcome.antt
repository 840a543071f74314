-- ===== src/Outcome.antt =====
-- How a compile-time computation ends: include/eval/value.hpp (the error classes), include/util/
-- assert.hpp (`InternalError`) and `todo()` of include/prelude.hpp. Messages and locations of errors
-- are dropped. `undefined_behaviour` stands for a step that the C++ standard leaves undefined.
use enlightenedc.Prelude.{Bool, true, false, ◌≡◌, refl}

pub data Fault : Type 0 where
  eval_semantic_error invalid_compile_time_eval invalid_value_range : Fault
  internal_error todo undefined_behaviour : Fault

pub data Outcome {ℓ} (A : Type ℓ) : Type ℓ where
  fail : Fault → Outcome A
  ok : A → Outcome A

-- A `throw` under a test.
abbrev pub throw_if : Bool → Fault → Outcome (Unit {0})
throw_if false why = ok tt
throw_if true why = fail why

infixl 5 ◌>>=◌
abbrev pub ◌>>=◌ {ℓ κ} : {A : Type ℓ} {B : Type κ} → Outcome A → (A → Outcome B) → Outcome B
fail why >>= next = fail why
ok value >>= next = next value

infixl 5 ◌>>◌
abbrev pub ◌>>◌ {ℓ} : {B : Type ℓ} → Outcome (Unit {0}) → Outcome B → Outcome B
fail why >> rest = fail why
ok done >> rest = rest

-- What a chain that ends well went through.
pub >>=-eq-ok {ℓ κ} :
    {A : Type ℓ} {B : Type κ} (m : Outcome A) (next : A → Outcome B) {result : B}
    → (m >>= next) ≡ ok result
    → (value : A) × (m ≡ ok value) × (next value ≡ ok result)
>>=-eq-ok (fail why) next e = cc
>>=-eq-ok (ok value) next e = (value, refl, e)

pub ok_eq {ℓ} : {A : Type ℓ} {a b : A} → ok a ≡ ok b → a ≡ b
ok_eq e = cc
