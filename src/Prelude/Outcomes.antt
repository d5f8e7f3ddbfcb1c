-- ===== src/Prelude/Outcomes.antt =====
-- What a call of the trusted side ends in: a result, or `panic`, which stops the TEE.
use mathlib.Core.Path.{◌≡◌, refl}
use mathlib.Core.Logic.{◌⊎◌, inl, inr}

-- Why the code panics. `out_of_bounds` is a copy outside an array, and `null_pointer` an access
-- through NULL, which C leaves undefined.
pub data Fault : Type 0 where
  nw_behaviour invalid_state napi_misuse out_of_memory bad_ring bad_width bad_argument negotiation
        out_of_bounds null_pointer :
      Fault

pub data Outcome {ℓ} (A : Type ℓ) : Type ℓ where
  ok : A → Outcome A
  panic : Fault → Outcome A

infixl 5 ◌>>=◌
abbrev pub ◌>>=◌ {ℓ κ} : {A : Type ℓ} {B : Type κ} → Outcome A → (A → Outcome B) → Outcome B
ok a >>= f = f a
panic e >>= f = panic e

-- The calls that return satisfy `P`.
abbrev pub Ensures {ℓ} : {A : Type ℓ} → (A → Type 0) → Outcome A → Type 0
Ensures P (ok a) = P a
Ensures P (panic e) = Unit {0}

-- The call returns, and its result satisfies `P`.
abbrev pub Returns {ℓ} : {A : Type ℓ} → (A → Type 0) → Outcome A → Type 0
Returns P (ok a) = P a
Returns P (panic e) = ⊥

pub Outcome-cases {ℓ} :
    {A : Type ℓ} (o : Outcome A) → ((a : A) × (o ≡ ok a)) ⊎ ((e : Fault) × (o ≡ panic e))
Outcome-cases (ok a) = inl (a, refl)
Outcome-cases (panic e) = inr (e, refl)

pub Returns-map {ℓ} :
    {A : Type ℓ} {P Q : A → Type 0} (o : Outcome A)
    → ((a : A) → P a → Q a)
    → Returns P o
    → Returns Q o
Returns-map (ok a) f h = f a h
Returns-map (panic e) f h = h

pub Returns-bind {ℓ κ} :
    {A : Type ℓ} {B : Type κ} {P : A → Type 0} (Q : B → Type 0) (o : Outcome A) (k : A → Outcome B)
    → Returns P o
    → ((a : A) → P a → Returns Q (k a))
    → Returns Q (o >>= k)
Returns-bind Q (ok a) k h f = f a h
Returns-bind Q (panic e) k h f = h

-- A panic passes through.
pub Ensures-bind {ℓ κ} :
    {A : Type ℓ} {B : Type κ} (Q : B → Type 0) (o : Outcome A) (k : A → Outcome B)
    → ((a : A) → Ensures Q (k a))
    → Ensures Q (o >>= k)
Ensures-bind Q (ok a) k f = f a
Ensures-bind Q (panic e) k f = tt

pub Ensures-map {ℓ κ} :
    {A : Type ℓ} {B : Type κ} {P : A → Type 0} (Q : B → Type 0) (o : Outcome A) (f : A → B)
    → Ensures P o
    → ((a : A) → P a → Q (f a))
    → Ensures Q (o >>= λ a. ok (f a))
Ensures-map Q (ok a) f h k = k a h
Ensures-map Q (panic e) f h k = tt

pub Ensures-weaken {ℓ} :
    {A : Type ℓ} {P Q : A → Type 0} (o : Outcome A)
    → Ensures P o
    → ((a : A) → P a → Q a)
    → Ensures Q o
Ensures-weaken (ok a) h k = k a h
Ensures-weaken (panic e) h k = tt

pub Ensures-bind_with {ℓ κ} :
    {A : Type ℓ} {B : Type κ} {P : A → Type 0} (Q : B → Type 0) (o : Outcome A) (k : A → Outcome B)
    → Ensures P o
    → ((a : A) → P a → Ensures Q (k a))
    → Ensures Q (o >>= k)
Ensures-bind_with Q (ok a) k h f = f a h
Ensures-bind_with Q (panic e) k h f = tt
