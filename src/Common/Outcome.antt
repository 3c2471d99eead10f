-- ===== src/Common/Outcome.antt =====
-- A computation that may raise: its value, or the Python exception.
use mathlib.Core.Path.{◌≡◌, refl}
use mathlib.Core.Logic.{◌⊎◌, inl, inr}
use aioros.Common.Text.{Str}

-- the Python exceptions that the modelled code raises or lets through
pub data Exc : Type 0 where
  key_error : Str → Exc
  value_error type_error index_error stop_iteration runtime_error invalid_transition : Exc
  struct_error end_of_stream protocol_error assertion_error unbound_local_error connect_timeout :
      Exc
  xmlrpc_error service_client_error : Str → Exc

pub data Result {ℓ} (A : Type ℓ) : Type ℓ where
  ok : A → Result A
  err : Exc → Result A

infixl 10 ◌>>=◌ ◌>>◌
-- what comes after a step that did not raise
abbrev pub ◌>>=◌ {ℓ κ} : {A : Type ℓ} {B : Type κ} → Result A → (A → Result B) → Result B
err raised >>= next = err raised
ok value >>= next = next value

abbrev pub ◌>>◌ {ℓ} : {B : Type ℓ} → Result (Unit {0}) → Result B → Result B
first >> second = first >>= λ ignored. second

-- If two steps in sequence do not raise, neither does.
pub >>=-eq-ok {ℓ κ} :
    {A : Type ℓ} {B : Type κ} (first : Result A) (next : A → Result B) {y : B}
    → (first >>= next) ≡ ok y
    → (x : A) × (first ≡ ok x) × (next x ≡ ok y)
>>=-eq-ok (err raised) next h = cc
>>=-eq-ok (ok value) next h = (value, refl, h)

pub ok_path {ℓ} : {A : Type ℓ} {a b : A} → ok a ≡ ok b → a ≡ b
ok_path {a} {b} h = cc

pub Result-cases {ℓ} :
    {A : Type ℓ} (x : Result A) → ((e : Exc) × (x ≡ err e)) ⊎ ((a : A) × (x ≡ ok a))
Result-cases (err e) = inl (e, refl)
Result-cases (ok a) = inr (a, refl)
