-- ===== src/Chain/Returns.antt =====
-- What calls that succeed return: one rule for each way to build a call.
use bignftd.Base.{◌≡◌, refl}
use bignftd.Chain.Outcome.{Result, ok, err, panic, Exec, continue, ◌>>=◌, lift}
use bignftd.Chain.Checks.{Ensures}

-- If the call succeeds, `Q` is true of its value.
abbrev pub ReturnsAt : {E S A : Type 0} → (A → Type 0) → Result E A × S → Type 0
ReturnsAt Q (ok a, s) = Q a
ReturnsAt Q (err e, s) = Unit
ReturnsAt Q (panic p, s) = Unit

pub record Returns {E S A : Type 0} (Q : A → Type 0) (m : Exec E S A) : Type 0 where
  pub at : (s : S) → ReturnsAt Q (m s)

module _ {E S A : Type 0} where
  lifted : (Q : A → Type 0) (r : Result E A) (s : S) → Ensures Q r → ReturnsAt Q (r, s)
  lifted Q (ok a) s h = h
  lifted Q (err e) s h = tt
  lifted Q (panic p) s h = tt

  pub Returns-lift : (Q : A → Type 0) (r : Result E A) → Ensures Q r → Returns {S = S} Q (lift r)
  Returns-lift Q r h = record { at = λ s. lifted Q r s h }

  mapped :
      (P Q : A → Type 0) (out : Result E A × S)
      → ((a : A) → P a → Q a)
      → ReturnsAt P out
      → ReturnsAt Q out
  mapped P Q (ok a, s) f h = f a h
  mapped P Q (err e, s) f h = tt
  mapped P Q (panic p, s) f h = tt

  pub Returns-map :
      (P Q : A → Type 0) (m : Exec E S A) → ((a : A) → P a → Q a) → Returns P m → Returns Q m
  Returns-map P Q m f h = record { at = λ s. mapped P Q (m s) f (h.at s) }

  -- Every value is one that the call may return.
  pub Returns-value : (m : Exec E S A) → Returns (λ a. (s : S) × (s' : S) × (m s ≡ (ok a, s'))) m
  Returns-value m = record { at = λ s. reached m s (m s) refl }
    where
      reached :
          (m : Exec E S A) (s : S) (out : Result E A × S)
          → m s ≡ out
          → ReturnsAt (λ a. (s : S) × (s' : S) × (m s ≡ (ok a, s'))) out
      reached m s (ok a, s') e = (s, s', e)
      reached m s (err x, s') e = tt
      reached m s (panic p, s') e = tt

  pub ReturnsAt-ok :
      (Q : A → Type 0) (m : Exec E S A) (a : A) (s s' : S) → Returns Q m → m s ≡ (ok a, s') → Q a
  ReturnsAt-ok Q m a s s' h e = let r = h.at s in rw e at r

module _ {E S A B : Type 0} where
  continued :
      (R : A → Type 0) (Q : B → Type 0) (out : Result E A × S) (f : A → Exec E S B)
      → ReturnsAt R out
      → ((a : A) → R a → Returns Q (f a))
      → ReturnsAt Q (continue out f)
  continued R Q (ok a, s) f h k = (k a h).at s
  continued R Q (err e, s) f h k = tt
  continued R Q (panic p, s) f h k = tt

  pub Returns-bind :
      (R : A → Type 0) (Q : B → Type 0) (m : Exec E S A) (f : A → Exec E S B)
      → Returns R m
      → ((a : A) → R a → Returns Q (f a))
      → Returns Q (m >>= f)
  Returns-bind R Q m f h k = record { at = λ s. continued R Q (m s) f (h.at s) k }

  -- Only the end of a chain has to be looked at.
  pub Returns-then :
      (Q : B → Type 0) (m : Exec E S A) (f : A → Exec E S B)
      → ((a : A) → Returns Q (f a))
      → Returns Q (m >>= f)
  Returns-then Q m f k =
      Returns-bind (λ a. (s : S) × (s' : S) × (m s ≡ (ok a, s'))) Q m f (Returns-value m)
        (λ a _. k a)
