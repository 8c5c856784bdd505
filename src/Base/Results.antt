-- ===== src/Base/Results.antt =====
-- A Go call that returns `(value, error)`.
use Prim.Native.String.{String}
use mathlib.Core.Path.{◌≡◌, refl}
use mathlib.Core.Logic.{◌⊎◌, inl, inr}
use mathlib.Core.Option.{Option, none, some}

-- An error is known by its message's fixed part.
pub data Result {ℓ} (X : Type ℓ) : Type ℓ where
  err : String → Result X
  ok : X → Result X

-- `v, _ := f()`: the zero value where the call failed.
abbrev pub result_or {ℓ} : {X : Type ℓ} → Result X → X → X
result_or (err _) zero_value = zero_value
result_or (ok v) _ = v

infixl 5 ◌>>◌ ◌>>=◌
-- `if err != nil { return err }`, then the call that follows.
abbrev pub ◌>>◌ {κ} : {Y : Type κ} → Result (Unit {0}) → Result Y → Result Y
err message >> next = err message
ok _ >> next = next

-- The same, where that call takes the value.
abbrev pub ◌>>=◌ {ℓ κ} : {X : Type ℓ} {Y : Type κ} → Result X → (X → Result Y) → Result Y
err message >>= next = err message
ok v >>= next = next v

pub Result-cases {ℓ} :
    {A : Type ℓ} (r : Result A) → ((a : A) × (r ≡ ok a)) ⊎ ((e : String) × (r ≡ err e))
Result-cases (ok a) = inl (a, refl)
Result-cases (err e) = inr (e, refl)

pub Option-cases {ℓ} : {A : Type ℓ} (o : Option A) → (o ≡ none) ⊎ ((a : A) × (o ≡ some a))
Option-cases none = inl refl
Option-cases (some a) = inr (a, refl)
