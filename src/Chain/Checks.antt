-- ===== src/Chain/Checks.antt =====
-- Calls that change no state: a result, with `do` blocks that stop at the first error.
use bignftd.Base.{◌≡◌, refl, Bool, true, false, Option, none, some}
use bignftd.Chain.Outcome.{Result, ok, err, panic}

infixl 5 ◌>>=◌ ◌>>◌
abbrev pub ◌>>=◌ : {E A B : Type 0} → Result E A → (A → Result E B) → Result E B
ok a >>= f = f a
err e >>= f = err e
panic p >>= f = panic p

abbrev pub ◌>>◌ : {E B : Type 0} → Result E Unit → Result E B → Result E B
m >> k = m >>= λ _. k

module _ {E : Type 0} where
  -- `if !b { return e }`
  abbrev pub require : Bool → E → Result E Unit
  require true e = ok tt
  require false e = err e

  -- `if b { check }`
  abbrev pub when : Bool → Result E Unit → Result E Unit
  when true m = m
  when false m = ok tt

  abbrev pub or_raise : {A : Type 0} → Option A → E → Result E A
  or_raise none e = err e
  or_raise (some a) e = ok a

-- `errorsmod.Wrap(err, e)`: an error of the call is returned as `e`.
abbrev pub wrap : {E A : Type 0} → E → Result E A → Result E A
wrap e (ok a) = ok a
wrap e (err _) = err e
wrap e (panic p) = panic p

-- A chain of checks that succeeds: its first call has succeeded, and so has the rest.
pub >>=-eq-ok :
    {E A B : Type 0} (check : Result E A) (next : A → Result E B) {value : B}
    → check >>= next ≡ ok value
    → (passed : A) × (check ≡ ok passed) × (next passed ≡ ok value)
>>=-eq-ok (err failure) next h = cc
>>=-eq-ok (panic p) next h = cc
>>=-eq-ok (ok passed) next h = (passed, refl, h)

-- If the call returns a value, it is one of `P`.
abbrev pub Ensures : {E A : Type 0} → (A → Type 0) → Result E A → Type 0
Ensures P (ok a) = P a
Ensures P (err e) = Unit
Ensures P (panic p) = Unit

module _ {E A B : Type 0} where
  pub Ensures-bind :
      (Q : A → Type 0) (P : B → Type 0) (m : Result E A) (f : A → Result E B)
      → Ensures Q m
      → ((a : A) → Q a → Ensures P (f a))
      → Ensures P (m >>= f)
  Ensures-bind Q P (ok a) f h k = k a h
  Ensures-bind Q P (err e) f h k = tt
  Ensures-bind Q P (panic p) f h k = tt

module _ {E B : Type 0} where
  pub Ensures-require :
      (P : B → Type 0) (b : Bool) (e : E) (k : Result E B)
      → (b ≡ true → Ensures P k)
      → Ensures P (require b e >> k)
  Ensures-require P true e k h = h refl
  Ensures-require P false e k h = tt

-- A call that returns a value returns that one.
pub Ensures-self : {E A : Type 0} → (r : Result E A) → Ensures (λ a. r ≡ ok a) r
Ensures-self (ok a) = refl
Ensures-self (err e) = tt
Ensures-self (panic p) = tt

pub Ensures-ok :
    {E A : Type 0} → (P : A → Type 0) (r : Result E A) (a : A) → r ≡ ok a → Ensures P r → P a
Ensures-ok P r a e h = rw e at h
