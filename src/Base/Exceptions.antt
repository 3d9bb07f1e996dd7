-- ===== src/Base/Exceptions.antt =====
-- C++ exceptions as values. An exception carries its text, what().
use mathlib.Core.Path.{◌≡◌, refl}
use mathlib.Core.Logic.{◌⊎◌, inl, inr}
use epics_logfile.Base.Text.{Bytes}

pub data Exception : Type 0 where
  invalid_argument : Bytes → Exception
  runtime_error : Bytes → Exception
  out_of_range : Bytes → Exception

pub data Result {ℓ} (A : Type ℓ) : Type ℓ where
  ok : A → Result A
  throw : Exception → Result A

-- A call, and what follows it unless the call throws.
infixl 5 ◌>>=◌
abbrev pub ◌>>=◌ {ℓ κ} : {X : Type ℓ} {Y : Type κ} → Result X → (X → Result Y) → Result Y
throw x >>= next = throw x
ok v >>= next = next v

-- The call of a sequence that does not throw has not thrown.
pub >>=-eq-ok {ℓ κ} :
    {X : Type ℓ} {Y : Type κ} (call : Result X) (next : X → Result Y) {y : Y}
    → (call >>= next) ≡ ok y
    → (v : X) × (call ≡ ok v) × (next v ≡ ok y)
>>=-eq-ok (throw x) next h = cc
>>=-eq-ok (ok v) next h = (v, refl, h)

pub Result-cases {ℓ} :
    {A : Type ℓ} (r : Result A) → ((a : A) × (r ≡ ok a)) ⊎ ((e : Exception) × (r ≡ throw e))
Result-cases (ok a) = inl (a, refl)
Result-cases (throw e) = inr (e, refl)
