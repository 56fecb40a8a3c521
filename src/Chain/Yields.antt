-- ===== src/Chain/Yields.antt =====
-- What calls that succeed return and do, from what was true before: one rule for each way to build a
-- call.
use bignftd.Chain.Outcome.{Result, ok, err, panic, Exec, continue, ◌>>=◌}
use bignftd.Chain.Keeps.{Keeps}

-- If the call succeeds, `Q` is true of its value and the state after it.
abbrev pub YieldsAt : {E S A : Type 0} → (A → S → Type 0) → Result E A × S → Type 0
YieldsAt Q (ok a, s) = Q a s
YieldsAt Q (err e, s) = Unit
YieldsAt Q (panic p, s) = Unit

pub record Yields {E S A : Type 0} (P : S → Type 0) (Q : A → S → Type 0) (m : Exec E S A)
    : Type 0 where
  pub at : (s : S) → P s → YieldsAt Q (m s)

kept : {E S A : Type 0} → (P : S → Type 0) (out : Result E A × S) → P out.1 → YieldsAt (λ a. P) out
kept P (ok a, s) h = h
kept P (err e, s) h = tt
kept P (panic p, s) h = tt

pub Keeps-Yields :
    {E S A : Type 0} → (P : S → Type 0) (m : Exec E S A) → Keeps P m → Yields P (λ a. P) m
Keeps-Yields P m k = record { at = λ s h. kept P (m s) (k.at s h) }

module _ {E S A B : Type 0} where
  continued :
      (R : A → S → Type 0) (Q : B → S → Type 0) (out : Result E A × S) (f : A → Exec E S B)
      → YieldsAt R out
      → ((a : A) → Yields (R a) Q (f a))
      → YieldsAt Q (continue out f)
  continued R Q (ok a, s) f h k = (k a).at s h
  continued R Q (err e, s) f h k = tt
  continued R Q (panic p, s) f h k = tt

  pub Yields-bind :
      (P : S → Type 0) (R : A → S → Type 0) (Q : B → S → Type 0) (m : Exec E S A)
      (f : A → Exec E S B)
      → Yields P R m
      → ((a : A) → Yields (R a) Q (f a))
      → Yields P Q (m >>= f)
  Yields-bind P R Q m f h k = record { at = λ s p. continued R Q (m s) f (h.at s p) k }
