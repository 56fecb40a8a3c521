-- ===== src/Base/Lists.antt =====
-- Lists measured by native numbers, and the list laws that the components share.
use Prim.Native.Nat.{ℕ, suc, ◌+◌}
use mathlib.Core.Path.{◌≡◌, refl}
use mathlib.Core.List.{List, [], ◌∷◌, ◌++◌}
use native.Mathlib.Omega.{arith}

module _ {ℓ} {A : Type ℓ} where
  abbrev pub length : List A → ℕ
  length [] = 0
  length (x ∷ xs) = suc (length xs)

  pub length-append : (xs ys : List A) → length (xs ++ ys) ≡ length xs + length ys
  length-append [] ys = omega arith
  length-append (x ∷ xs) ys = omega (arith, length-append xs ys)

  -- Every element satisfies the predicate.
  abbrev pub All {κ} : (A → Type κ) → List A → Type κ
  All P [] = Unit
  All P (x ∷ xs) = P x × All P xs

  -- Two lists with rests behind them, of which the first parts have one length.
  pub append-injective :
      (s t x y : List A) → length s ≡ length t → s ++ x ≡ t ++ y → (s ≡ t) × (x ≡ y)
  append-injective [] [] x y h e = (refl, e)
  append-injective [] (d ∷ t) x y h e = absurd (omega arith)
  append-injective (c ∷ s) [] x y h e = absurd (omega arith)
  append-injective (c ∷ s) (d ∷ t) x y h e =
      let (same, rest) = append-injective s t x y (omega arith) (cc e) in (cc (e, same), rest)
