-- ===== src/Prelude/Effect.antt =====
-- Stateful calls that may hit undefined behaviour. A call ends with a result and a state, or faults.
use mathlib.Core.Path.{◌≡◌, refl}

pub data Fault : Type 0 where
  -- an object or a list was used after it was destroyed or had grown
  dangling : Fault
  -- a null pointer was dereferenced
  null_pointer : Fault
  -- an `assert` failed
  assertion : Fault
  -- an exception was thrown
  logic_error : Fault
  -- a buffer was read or written past its end
  out_of_bounds : Fault
  -- a loop had not ended after the rounds that it was given
  out_of_fuel : Fault

pub data Run {ℓ κ} (S : Type ℓ) (A : Type κ) : Type (ℓ ⊔ κ) where
  ok : A → S → Run S A
  fault : Fault → Run S A

abbrev pub Cmd {ℓ κ} : Type ℓ → Type κ → Type (ℓ ⊔ κ)
Cmd S A = S → Run S A

abbrev pub pure {ℓ κ} : {S : Type ℓ} {A : Type κ} → A → Cmd S A
pure a s = ok a s

abbrev pub and_then {ℓ κ ι} :
    {S : Type ℓ} {A : Type κ} {B : Type ι} → Run S A → (A → Cmd S B) → Run S B
and_then (ok a s) f = f a s
and_then (fault e) f = fault e

infixl 5 ◌>>=◌ ◌>>◌
abbrev pub ◌>>=◌ {ℓ κ ι} :
    {S : Type ℓ} {A : Type κ} {B : Type ι} → Cmd S A → (A → Cmd S B) → Cmd S B
m >>= f = λ s. and_then (m s) f

abbrev pub ◌>>◌ {ℓ κ} : {S : Type ℓ} {B : Type κ} → Cmd S (Unit {0}) → Cmd S B → Cmd S B
m >> n = m >>= λ _. n

-- Total correctness: the call returns, and what it returns satisfies `P`.
pub data Returns {ℓ κ ι} {S : Type ℓ} {A : Type κ} (P : A → S → Type ι)
    : Run S A → Type (ℓ ⊔ κ ⊔ ι) where
  returns : {a : A} {s : S} → P a s → Returns P (ok a s)

module _ {ℓ κ ι} {S : Type ℓ} {A : Type κ} {P : A → S → Type ι} where
  pub Returns-bind {μ ν} :
      {B : Type μ} {Q : B → S → Type ν} {r : Run S A} {f : A → Cmd S B}
      → Returns P r
      → ((a : A) (s : S) → P a s → Returns Q (f a s))
      → Returns Q (and_then r f)
  Returns-bind (returns p) next = next _ _ p

  pub Returns-mono {ν} :
      {Q : A → S → Type ν} {r : Run S A}
      → Returns P r
      → ((a : A) (s : S) → P a s → Q a s)
      → Returns Q r
  Returns-mono (returns p) weaken = returns (weaken _ _ p)

  pub Returns-ok : {a : A} {s : S} → Returns P (ok a s) → P a s
  Returns-ok (returns p) = p

module _ {ℓ κ ι} {S : Type ℓ} {A : Type κ} {B : Type ι} where
  pub and_then-cong :
      (r : Run S A) {f g : A → Cmd S B}
      → ((a : A) (s : S) → r ≡ ok a s → f a s ≡ g a s)
      → and_then r f ≡ and_then r g
  and_then-cong (ok a s) same = same a s refl
  and_then-cong (fault e) same = refl

pub and_then-pure {ℓ} : {S : Type ℓ} (r : Run S (Unit {0})) → and_then r (λ _. ok tt) ≡ r
and_then-pure (ok u s) = refl
and_then-pure (fault e) = refl

pub and_then_assoc {ℓ κ ι μ} :
    {S : Type ℓ} {A : Type κ} {B : Type ι} {C : Type μ} (r : Run S A) (f : A → Cmd S B)
    (g : B → Cmd S C)
    → and_then (and_then r f) g ≡ and_then r (λ a s. and_then (f a s) g)
and_then_assoc (ok a s) f g = refl
and_then_assoc (fault e) f g = refl

-- A call that returns also returns what it returns.
pub Returns-eq {ℓ κ ι} :
    {S : Type ℓ} {A : Type κ} {P : A → S → Type ι} {r : Run S A}
    → Returns P r
    → Returns (λ a s. P a s × (r ≡ ok a s)) r
Returns-eq (returns p) = returns (p, refl)

-- Partial correctness: if the call returns, the state that it returns in satisfies `P`.
abbrev pub IfReturns {ℓ κ ι} : {S : Type ℓ} {A : Type κ} → (S → Type ι) → Run S A → Type ι
IfReturns P (ok a s) = P s
IfReturns P (fault x) = Unit

pub IfReturns-bind {ℓ κ ι μ ν} :
    {S : Type ℓ} {A : Type κ} {B : Type ι} (P : S → Type μ) (Q : S → Type ν) (r : Run S A)
    (f : A → Cmd S B)
    → IfReturns P r
    → ((a : A) (s : S) → P s → IfReturns Q (f a s))
    → IfReturns Q (and_then r f)
IfReturns-bind P Q (ok a s) f p next = next a s p
IfReturns-bind P Q (fault x) f p next = tt

-- What follows a call that returns may fault.
pub and_then-fault {ℓ κ ι μ} :
    {S : Type ℓ} {A : Type κ} {B : Type ι} {P : A → S → Type μ} {r : Run S A} {f : A → Cmd S B}
    (x : Fault)
    → Returns P r
    → ((a : A) (s : S) → P a s → f a s ≡ fault x)
    → and_then r f ≡ fault x
and_then-fault x (returns p) faults = faults _ _ p
