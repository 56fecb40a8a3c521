-- ===== src/Chain/Lands.antt =====
-- Where calls that succeed end up: one rule for each way to build a call.
use bignftd.Base.{◌≡◌}
use bignftd.Chain.Keeps.{Keeps}
use bignftd.Chain.Outcome.{Result, ok, err, panic, Exec, continue, ◌>>=◌, raise}

-- If the call succeeds, `Q` is true of the state after it.
abbrev pub LandsAt : {E S A : Type 0} → (S → Type 0) → Result E A × S → Type 0
LandsAt Q (ok a, s) = Q s
LandsAt Q (err e, s) = Unit
LandsAt Q (panic p, s) = Unit

pub record Lands {E S A : Type 0} (Q : S → Type 0) (m : Exec E S A) : Type 0 where
  pub at : (s : S) → LandsAt Q (m s)

module _ {E S A : Type 0} {Q : S → Type 0} where
  pub Lands-raise : (e : E) → Lands Q (raise {A = A} e)
  Lands-raise e = record { at = λ s. tt }

module _ {E S A B : Type 0} {Q : S → Type 0} where
  continue-lands :
      (r : Result E A) (s : S) (f : A → Exec E S B)
      → ((a : A) → Lands Q (f a))
      → LandsAt Q (continue (r, s) f)
  continue-lands (ok a) s f h = (h a).at s
  continue-lands (err e) s f h = tt
  continue-lands (panic p) s f h = tt

  -- Only the end of a chain has to be looked at.
  pub Lands-bind :
      (m : Exec E S A) (f : A → Exec E S B) → ((a : A) → Lands Q (f a)) → Lands Q (m >>= f)
  Lands-bind m f h = record { at = λ s. continue-lands (m s).0 (m s).1 f h }

LandsAt-any : {E S A : Type 0} (Q : S → Type 0) (out : Result E A × S) → Q out.1 → LandsAt Q out
LandsAt-any Q (ok a, s) h = h
LandsAt-any Q (err e, s) h = tt
LandsAt-any Q (panic p, s) h = tt

module _ {E S A B : Type 0} {Q : S → Type 0} where
  continue-stays :
      (r : Result E A) (s : S) (f : A → Exec E S B)
      → LandsAt Q (r, s)
      → ((a : A) → Keeps Q (f a))
      → LandsAt Q (continue (r, s) f)
  continue-stays (ok a) s f h k = LandsAt-any Q (f a s) ((k a).at s h)
  continue-stays (err e) s f h k = tt
  continue-stays (panic p) s f h k = tt

  -- The end of a chain may leave `Q` true where the start has made it so.
  pub Lands-stays :
      (m : Exec E S A) (f : A → Exec E S B)
      → Lands Q m
      → ((a : A) → Keeps Q (f a))
      → Lands Q (m >>= f)
  Lands-stays m f h k = record { at = λ s. continue-stays (m s).0 (m s).1 f (h.at s) k }

-- What is true of the state after a call that is known to succeed.
pub LandsAt-ok :
    {E S A : Type 0}
    → (Q : S → Type 0) (out : Result E A × S) (a : A) (s : S) → out ≡ (ok a, s)
    → LandsAt Q out
    → Q s
LandsAt-ok Q out a s e h = rw e at h
