-- ===== src/Shared/Results.antt =====
-- Go's pair of a value and an error, as one value. Code that can only panic has the error `Panic`.
use mathlib.Core.Path.{◌≡◌, refl, ap}
use mathlib.Core.Logic.{◌⊎◌, inl, inr}
use mathlib.Core.Bool.{Bool, true, false}

pub data Result {ℓ} (E : Type 0) (A : Type ℓ) : Type ℓ where
  ok : A → Result E A
  err : E → Result E A

pub data Panic : Type 0 where
  panic : Panic

infixl 5 ◌>>=◌ ◌>>◌
abbrev pub ◌>>=◌ {ℓ κ} :
    {E : Type 0} {A : Type ℓ} {B : Type κ} → Result E A → (A → Result E B) → Result E B
ok a >>= f = f a
err e >>= f = err e

abbrev pub ◌>>◌ {ℓ} : {E : Type 0} {B : Type ℓ} → Result E (Unit {0}) → Result E B → Result E B
m >> k = m >>= λ _. k

-- `if cond { return err }`, with the condition that has to hold to go on.
abbrev pub guard : {E : Type 0} → Bool → E → Result E (Unit {0})
guard true e = ok tt
guard false e = err e

pub ok-injective {ℓ} :
    {E : Type 0} {A : Type ℓ} {a b : A} → ◌≡◌ {A = Result E A} (ok a) (ok b) → a ≡ b
ok-injective e = cc

pub Result-cases {ℓ} :
    {E : Type 0} {A : Type ℓ} (r : Result E A) → ((a : A) × (r ≡ ok a)) ⊎ ((e : E) × (r ≡ err e))
Result-cases (ok a) = inl (a, refl)
Result-cases (err e) = inr (e, refl)

-- `P` holds of the value, if there is one. By clauses, so that it computes on a known result.
abbrev pub Ensures {ℓ κ} : {E : Type 0} {A : Type ℓ} → (A → Type κ) → Result E A → Type κ
Ensures P (ok a) = P a
Ensures P (err e) = Unit

pub Ensures-ok {ℓ κ} :
    {E : Type 0} {A : Type ℓ} (P : A → Type κ) (r : Result E A) (a : A)
    → Ensures P r
    → r ≡ ok a
    → P a
Ensures-ok P r a h e = rw e at h

pub Ensures-bind {ℓ ℓ' κ κ'} :
    {E : Type 0} {A : Type ℓ} {B : Type ℓ'} (Q : A → Type κ) (P : B → Type κ') (m : Result E A)
    (f : A → Result E B)
    → Ensures Q m
    → ((a : A) → Q a → Ensures P (f a))
    → Ensures P (m >>= f)
Ensures-bind Q P (ok a) f q k = k a q
Ensures-bind Q P (err e) f q k = tt

pub Ensures-guard {ℓ κ} :
    {E : Type 0} {B : Type ℓ} (P : B → Type κ) (b : Bool) (e : E) (k : Result E B)
    → (b ≡ true → Ensures P k)
    → Ensures P (guard b e >> k)
Ensures-guard P true e k h = h refl
Ensures-guard P false e k h = tt

pub Ensures-true {ℓ} : {E : Type 0} {A : Type ℓ} (r : Result E A) → Ensures (λ _. Unit {0}) r
Ensures-true (ok a) = tt
Ensures-true (err e) = tt

-- Steps of a `do` block whose outcome is known.
pub guard_step {ℓ} :
    {E : Type 0} {A : Type ℓ} (b : Bool) (e : E) (k : Result E A) → b ≡ true → (guard b e >> k) ≡ k
guard_step b e k h = ap (λ c. guard c e >> k) h

pub bind_step {ℓ κ} :
    {E : Type 0} {A : Type ℓ} {B : Type κ} (m : Result E A) (a : A) (k : A → Result E B)
    → m ≡ ok a
    → (m >>= k) ≡ k a
bind_step m a k h = ap (λ r. r >>= k) h
