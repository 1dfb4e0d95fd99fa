-- ===== src/Base/Ends.antt =====
-- How a kernel function ends: it returns; the kernel panics (a failed ASSERT, or PANIC); or it is
-- stuck, which stands for undefined behaviour and for a loop whose fuel ran out.
use mathlib.Core.Path.{◌≡◌, refl, ap}
use mathlib.Core.Logic.{◌⊎◌, inl, inr}
use mathlib.Core.Bool.{Bool, true, false, false≢true}

pub data Outcome {ℓ} (A : Type ℓ) : Type ℓ where
  returns : A → Outcome A
  panic : Outcome A
  stuck : Outcome A

infixl 5 ◌>>=◌ ◌>>◌
abbrev pub ◌>>=◌ {ℓ κ} : {A : Type ℓ} {B : Type κ} → Outcome A → (A → Outcome B) → Outcome B
returns a >>= f = f a
panic >>= f = panic
stuck >>= f = stuck

abbrev pub ◌>>◌ {ℓ} : {B : Type ℓ} → Outcome (Unit {0}) → Outcome B → Outcome B
m >> k = m >>= λ _. k

-- ASSERT (b)
abbrev pub assert : Bool → Outcome (Unit {0})
assert true = returns tt
assert false = panic

-- The function returns, with a result that satisfies `P`.
abbrev pub Returns {ℓ} : {A : Type ℓ} → (A → Type 0) → Outcome A → Type 0
Returns P (returns a) = P a
Returns P panic = ⊥
Returns P stuck = ⊥

pub Returns->>= {ℓ κ} :
    {A : Type ℓ} {B : Type κ} (P : A → Type 0) (Q : B → Type 0) (m : Outcome A) (f : A → Outcome B)
    → Returns P m
    → ((a : A) → P a → Returns Q (f a))
    → Returns Q (m >>= f)
Returns->>= P Q (returns a) f h k = k a h
Returns->>= P Q panic f h k = absurd h
Returns->>= P Q stuck f h k = absurd h

pub Returns-assert {ℓ} :
    {A : Type ℓ} (P : A → Type 0) (b : Bool) (m : Outcome A)
    → b ≡ true
    → Returns P m
    → Returns P (assert b >> m)
Returns-assert P true m e h = h
Returns-assert P false m e h = absurd (false≢true e)

pub Returns-map {ℓ} :
    {A : Type ℓ} (P Q : A → Type 0) (m : Outcome A)
    → ((a : A) → P a → Q a)
    → Returns P m
    → Returns Q m
Returns-map P Q (returns a) f h = f a h
Returns-map P Q panic f h = h
Returns-map P Q stuck f h = h

pub assert-true {ℓ} : {A : Type ℓ} (b : Bool) (m : Outcome A) → b ≡ true → (assert b >> m) ≡ m
assert-true true m e = refl
assert-true false m e = absurd (false≢true e)

pub Returns-both {ℓ} :
    {A : Type ℓ} (P Q : A → Type 0) (m : Outcome A)
    → Returns P m
    → Returns Q m
    → Returns (λ a. P a × Q a) m
Returns-both P Q (returns a) p q = (p, q)
Returns-both P Q panic p q = p
Returns-both P Q stuck p q = p

-- A call that does not return ends its caller in the same way.
abbrev pub SameFailure {ℓ κ} : {A : Type ℓ} {B : Type κ} → Outcome A → Outcome B → Type (ℓ ⊔ κ)
SameFailure m o = ((m ≡ panic) × (o ≡ panic)) ⊎ ((m ≡ stuck) × (o ≡ stuck))

pub SameFailure->>= {ℓ κ μ} :
    {A : Type ℓ} {B : Type κ} {C : Type μ} (m : Outcome A) (o : Outcome B) (f : B → Outcome C)
    → SameFailure m o
    → SameFailure m (o >>= f)
SameFailure->>= m o f (inl (e, d)) = inl (e, ap (λ x. x >>= f) d)
SameFailure->>= m o f (inr (e, d)) = inr (e, ap (λ x. x >>= f) d)
