-- ===== src/Chain/Outcome.antt =====
-- How a Go call ends: with a value, with a non-nil error, or in a panic; and calls that change a
-- state. What was written before an error or a panic stays written, so the state comes back too.
use bignftd.Base.{Bool, true, false, Option, none, some}

-- The values that `recover` tells apart: an out-of-gas error, and any other.
pub data Panic : Type 0 where
  out_of_gas : Panic
  fatal : Panic

pub data Result (E A : Type 0) : Type 0 where
  ok : A → Result E A
  err : E → Result E A
  panic : Panic → Result E A

abbrev pub Exec : Type 0 → Type 0 → Type 0 → Type 0
Exec E S A = S → Result E A × S

abbrev pub continue : {E S A B : Type 0} → Result E A × S → (A → Exec E S B) → Result E B × S
continue (ok a, s) f = f a s
continue (err e, s) f = (err e, s)
continue (panic p, s) f = (panic p, s)

infixl 5 ◌>>=◌ ◌>>◌
abbrev pub ◌>>=◌ : {E S A B : Type 0} → Exec E S A → (A → Exec E S B) → Exec E S B
◌>>=◌ m f s = continue (m s) f

abbrev pub ◌>>◌ : {E S B : Type 0} → Exec E S Unit → Exec E S B → Exec E S B
m >> k = m >>= λ _. k

module _ {E S A : Type 0} where
  abbrev pub pure : A → Exec E S A
  pure a s = (ok a, s)

  abbrev pub raise : E → Exec E S A
  raise e s = (err e, s)

  abbrev pub lift : Result E A → Exec E S A
  lift r s = (r, s)

  abbrev pub gets : (S → A) → Exec E S A
  gets f s = (ok (f s), s)

  -- `if err != nil { return e }` after a call that returns a value and an error.
  abbrev pub or_raise : Option A → E → Exec E S A
  or_raise none e = raise e
  or_raise (some a) e = pure a

module _ {E S : Type 0} where
  abbrev pub modify : (S → S) → Exec E S Unit
  modify f s = (ok tt, f s)

  -- `if !b { return e }`
  abbrev pub require : Bool → E → Exec E S Unit
  require true e = pure tt
  require false e = raise e

  -- `if b { do m }`
  abbrev pub when : Bool → Exec E S Unit → Exec E S Unit
  when true m = m
  when false m = pure tt
