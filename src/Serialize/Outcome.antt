-- ===== src/Serialize/Outcome.antt =====
-- The outcome of a call that reads and writes memory through pointers.
use mathlib.Core.Path.{◌≡◌, refl}
use mathlib.Core.Logic.{◌≢◌}

-- `undefined` is undefined behaviour: an argument of the wrong kind, or an access outside an object.
-- `out_of_fuel` is no outcome of the code: a loop of the model was cut short.
pub data Outcome {ℓ} (A : Type ℓ) : Type ℓ where
  ret : A → Outcome A
  undefined : Outcome A
  out_of_fuel : Outcome A

infixl 5 ◌>>=◌
abbrev pub ◌>>=◌ {ℓ κ} : {A : Type ℓ} {B : Type κ} → Outcome A → (A → Outcome B) → Outcome B
ret a >>= f = f a
undefined >>= f = undefined
out_of_fuel >>= f = out_of_fuel

-- A chain ends if its first part ends and every continuation from there does.
pub >>=_ends {ℓ κ} :
    {A : Type ℓ} {B : Type κ} (o : Outcome A) (f : A → Outcome B)
    → o ≢ out_of_fuel
    → ((a : A) → o ≡ ret a → f a ≢ out_of_fuel)
    → (o >>= f) ≢ out_of_fuel
>>=_ends (ret a) f ne h = h a refl
>>=_ends undefined f ne h = λ e. cc
>>=_ends out_of_fuel f ne h = absurd (ne refl)

-- A call that is defined and ends, with a result of which `P` holds.
abbrev pub Ensures {ℓ} : {A : Type ℓ} → (A → Type 0) → Outcome A → Type 0
Ensures P (ret a) = P a
Ensures P undefined = ⊥
Ensures P out_of_fuel = ⊥

pub >>=-Ensures {ℓ κ} :
    {A : Type ℓ} {B : Type κ} (Q : A → Type 0) (P : B → Type 0) (o : Outcome A) (f : A → Outcome B)
    → Ensures Q o
    → ((a : A) → Q a → Ensures P (f a))
    → Ensures P (o >>= f)
>>=-Ensures Q P (ret a) f q h = h a q
>>=-Ensures Q P undefined f q h = absurd q
>>=-Ensures Q P out_of_fuel f q h = absurd q

-- What is ensured of every result is so of the result returned.
pub Ensures-ret {ℓ} :
    {A : Type ℓ} (P : A → Type 0) (o : Outcome A) → Ensures P o → (a : A) × (o ≡ ret a) × P a
Ensures-ret P (ret a) p = (a, refl, p)
Ensures-ret P undefined p = absurd p
Ensures-ret P out_of_fuel p = absurd p

pub Ensures-weaken {ℓ} :
    {A : Type ℓ} (P Q : A → Type 0) (o : Outcome A)
    → ((a : A) → P a → Q a)
    → Ensures P o
    → Ensures Q o
Ensures-weaken P Q (ret a) h p = h a p
Ensures-weaken P Q undefined h p = absurd p
Ensures-weaken P Q out_of_fuel h p = absurd p

pub Ensures-both {ℓ} :
    {A : Type ℓ} (P Q : A → Type 0) (o : Outcome A)
    → Ensures P o
    → Ensures Q o
    → Ensures (λ a. P a × Q a) o
Ensures-both P Q (ret a) p q = (p, q)
Ensures-both P Q undefined p q = absurd p
Ensures-both P Q out_of_fuel p q = absurd p
