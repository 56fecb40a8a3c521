-- ===== src/Chain/Keeps.antt =====
-- Invariants of calls that change a state: one rule for each way to build a call.
use bignftd.Base.{Bool, true, false, Option, none, some}
use bignftd.Chain.Outcome.{
  Result, ok, err, panic, Exec, continue, ◌>>=◌, ◌>>◌, pure, raise, lift, gets, or_raise, require,
  when,
}

-- The call leaves `P` true of the state, however it ends.
pub record Keeps {E S A : Type 0} (P : S → Type 0) (m : Exec E S A) : Type 0 where
  pub at : (s : S) → P s → P (m s).1

module _ {E S A : Type 0} {P : S → Type 0} where
  pub Keeps-pure : (a : A) → Keeps P (pure {E = E} a)
  Keeps-pure a = record { at = λ s h. h }

  pub Keeps-raise : (e : E) → Keeps P (raise {A = A} e)
  Keeps-raise e = record { at = λ s h. h }

  pub Keeps-lift : (r : Result E A) → Keeps P (lift r)
  Keeps-lift r = record { at = λ s h. h }

  pub Keeps-gets : (f : S → A) → Keeps P (gets {E = E} f)
  Keeps-gets f = record { at = λ s h. h }

  pub Keeps-or_raise : (o : Option A) (e : E) → Keeps P (or_raise o e)
  Keeps-or_raise none e = record { at = λ s h. h }
  Keeps-or_raise (some a) e = record { at = λ s h. h }

module _ {E S : Type 0} {P : S → Type 0} where
  pub Keeps-require : (b : Bool) (e : E) → Keeps P (require {S = S} b e)
  Keeps-require true e = record { at = λ s h. h }
  Keeps-require false e = record { at = λ s h. h }

  pub Keeps-when : (b : Bool) (m : Exec E S Unit) → Keeps P m → Keeps P (when b m)
  Keeps-when true m k = k
  Keeps-when false m k = record { at = λ s h. h }

module _ {E S A B : Type 0} {P : S → Type 0} where
  continue-keeps :
      (r : Result E A) (s : S) (f : A → Exec E S B)
      → ((a : A) → Keeps P (f a))
      → P s
      → P (continue (r, s) f).1
  continue-keeps (ok a) s f k h = (k a).at s h
  continue-keeps (err e) s f k h = h
  continue-keeps (panic p) s f k h = h

  pub Keeps-bind :
      (m : Exec E S A) (f : A → Exec E S B)
      → Keeps P m
      → ((a : A) → Keeps P (f a))
      → Keeps P (m >>= f)
  Keeps-bind m f km kf = record { at = λ s h. continue-keeps (m s).0 (m s).1 f kf (km.at s h) }

module _ {E S B : Type 0} {P : S → Type 0} where
  pub Keeps-then : (m : Exec E S Unit) (n : Exec E S B) → Keeps P m → Keeps P n → Keeps P (m >> n)
  Keeps-then m n km kn = Keeps-bind m (λ _. n) km (λ _. kn)

pub ruleset keeps_rules = (
  Keeps-pure, Keeps-raise, Keeps-lift, Keeps-gets, Keeps-or_raise, Keeps-require, Keeps-when,
  Keeps-bind, Keeps-then,
)
