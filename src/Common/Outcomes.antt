-- ===== src/Common/Outcomes.antt =====
-- How a call of the Go code can end.
use mathlib.Core.Path.{◌≡◌, refl}
use mathlib.Core.Bool.{Bool, true, false}
use mathlib.Core.Logic.{◌⊎◌, inl, inr}
use go_hashgrid.Common.Tests.{if◌then◌else◌}

-- `panic` is a run-time panic (nil dereference, index or slice out of range); `blocked` is a wait
-- for a mutex that nobody will ever release; `out_of_fuel` belongs to the model alone.
pub data Outcome {ℓ} (A : Type ℓ) : Type ℓ where
  done : A → Outcome A
  panic : Outcome A
  blocked : Outcome A
  out_of_fuel : Outcome A

infixl 5 ◌>>=◌ ◌>>◌
abbrev pub ◌>>=◌ {ℓ κ} : {A : Type ℓ} {B : Type κ} → Outcome A → (A → Outcome B) → Outcome B
done a >>= f = f a
panic >>= f = panic
blocked >>= f = blocked
out_of_fuel >>= f = out_of_fuel

abbrev pub ◌>>◌ {ℓ κ} : {A : Type ℓ} {B : Type κ} → Outcome A → Outcome B → Outcome B
m >> k = m >>= λ _. k

pub >>=-eq-done {ℓ κ} :
    {A : Type ℓ} {B : Type κ} (m : Outcome A) (f : A → Outcome B) {b : B}
    → (m >>= f) ≡ done b
    → (a : A) × (m ≡ done a) × (f a ≡ done b)
>>=-eq-done (done a) f h = (a, refl, h)
>>=-eq-done panic f h = cc
>>=-eq-done blocked f h = cc
>>=-eq-done out_of_fuel f h = cc

pub done-injective {ℓ} : {A : Type ℓ} (a b : A) → done a ≡ done b → a ≡ b
done-injective a b h = cc

-- The call returns or panics.
abbrev pub Runs {ℓ} : {A : Type ℓ} → Outcome A → Type 0
Runs (done a) = Unit
Runs panic = Unit
Runs blocked = ⊥
Runs out_of_fuel = ⊥

pub Runs->>= {ℓ κ} :
    {A : Type ℓ} {B : Type κ} (m : Outcome A) (f : A → Outcome B)
    → Runs m
    → ((a : A) → Runs (f a))
    → Runs (m >>= f)
Runs->>= (done a) f h k = k a
Runs->>= panic f h k = tt
Runs->>= blocked f h k = h
Runs->>= out_of_fuel f h k = h

pub Runs-if {ℓ} :
    {A : Type ℓ} (b : Bool) (x y : Outcome A) → Runs x → Runs y → Runs (if b then x else y)
Runs-if true x y h k = h
Runs-if false x y h k = k

pub Sum-cases {ℓ κ} :
    {A : Type ℓ} {B : Type κ} (s : A ⊎ B) → ((a : A) × (s ≡ inl a)) ⊎ ((b : B) × (s ≡ inr b))
Sum-cases (inl a) = inl (a, refl)
Sum-cases (inr b) = inr (b, refl)
