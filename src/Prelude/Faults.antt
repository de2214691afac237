-- ===== src/Prelude/Faults.antt =====
-- What a call gives: a value, or the way in which the C++ code leaves its defined behaviour or
-- throws. A fault ends the call, with what it did before abandoned.
use mathlib.Core.Bool.{Bool, true, false}
use mathlib.Core.Path.{◌≡◌, refl}
use spatter.Prelude.Tests.{if◌then◌else◌}

pub data Fault : Type 0 where
  -- `assert` fails
  assertion : Fault
  -- an array is indexed outside its bounds
  out_of_bounds : Fault
  -- a method is called on a null pointer
  null_pointer : Fault
  -- a list iterator is used after `erase`, or moved past the end
  bad_iterator : Fault
  -- an exception that the code does not catch
  thrown : Fault
  -- the rounds that the model gives a loop are used up
  endless : Fault

pub data Outcome {ℓ} (A : Type ℓ) : Type ℓ where
  ok : A → Outcome A
  fault : Fault → Outcome A

infixl 5 ◌>>=◌
abbrev pub ◌>>=◌ {ℓ κ} : {A : Type ℓ} {B : Type κ} → Outcome A → (A → Outcome B) → Outcome B
ok a >>= f = f a
fault e >>= f = fault e

-- A chain that ends well has had a first value.
pub >>=-eq-ok {ℓ κ} :
    {A : Type ℓ} {B : Type κ} (o : Outcome A) (next : A → Outcome B) {y : B}
    → (o >>= next) ≡ ok y
    → (x : A) × (o ≡ ok x) × (next x ≡ ok y)
>>=-eq-ok (ok x) next e = (x, refl, e)
>>=-eq-ok (fault r) next e = cc

-- What is claimed of a result, where there is one.
abbrev pub OnOk : {A : Type 0} → (A → Type 0) → Outcome A → Type 0
OnOk Q (ok a) = Q a
OnOk Q (fault e) = Unit {0}

pub OnOk-bind :
    {A B : Type 0} (Q : A → Type 0) (R : B → Type 0) (f : A → B) (m : Outcome A)
    → ((a : A) → Q a → R (f a))
    → OnOk Q m
    → OnOk R (m >>= λ a. ok (f a))
OnOk-bind Q R f (ok a) g h = g a h
OnOk-bind Q R f (fault e) g h = tt

pub OnOk-rule :
    {A : Type 0} (Q : A → Type 0) (m : Outcome A) → ((a : A) → m ≡ ok a → Q a) → OnOk Q m
OnOk-rule Q (ok a) f = f a refl
OnOk-rule Q (fault e) f = tt

pub OnOk-known :
    {A B : Type 0} (Q : B → Type 0) (m : Outcome A) (f : A → Outcome B)
    → ((a : A) → m ≡ ok a → OnOk Q (f a))
    → OnOk Q (m >>= f)
OnOk-known Q (ok a) f g = g a refl
OnOk-known Q (fault e) f g = tt

pub OnOk-ok : {A : Type 0} (Q : A → Type 0) (m : Outcome A) (a : A) → m ≡ ok a → OnOk Q m → Q a
OnOk-ok Q m a e h = rw e at h

pub OnOk-chain :
    {A B : Type 0} (Q : A → Type 0) (R : B → Type 0) (m : Outcome A) (f : A → Outcome B)
    → OnOk Q m
    → ((a : A) → Q a → OnOk R (f a))
    → OnOk R (m >>= f)
OnOk-chain Q R (ok a) f h g = g a h
OnOk-chain Q R (fault e) f h g = tt

pub OnOk-if :
    {A : Type 0} (Q : A → Type 0) (b : Bool) (m n : Outcome A)
    → OnOk Q m
    → OnOk Q n
    → OnOk Q (if b then m else n)
OnOk-if Q true m n v u = v
OnOk-if Q false m n v u = u
