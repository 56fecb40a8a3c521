-- ===== src/Wasm/Grants/Accept/ValidLimits.antt =====
-- What an accepted call leaves of a valid limit is a valid limit.
use bignftd.Base.{
  ℕ, zero, suc, ◌≡◌, refl, true, false, inl, inr, Bool-cases, Option, none, some, ◌==◌, arith,
}
use bignftd.Chain.Outcome.{ok}
use bignftd.Chain.Checks.{Ensures, Ensures-bind}
use bignftd.Chain.Sdk.{Coins}
use bignftd.Wasm.Messages.{Formats}
use bignftd.Wasm.Keeper.Platform.{Platform}
use bignftd.Wasm.Grants.{
  GrantFormats, Limit, undefined_limit, max_calls, max_funds, combined, accept_limit, accept_call,
  accept_combined, validate_limit,
}
use bignftd.Wasm.Grants.Accept.Spending.{Ensures-priced}

-- The laws of valid coins: what is left of them is valid, and `NewCoins` makes valid ones, of nothing
-- only from nothing.
pub record ValidCoinLaws (formats : Formats) (grant_formats : GrantFormats) : Type 0 where
  pub valid-sub :
      (whole part left : Coins)
      → formats.is_valid_coins whole ≡ true
      → grant_formats.sub_coins whole part ≡ ok left
      → formats.is_valid_coins left ≡ true
  pub valid-new :
      (coins sorted : Coins)
      → grant_formats.new_coins coins ≡ ok sorted
      → formats.is_valid_coins sorted ≡ true
  pub zero-new :
      (coins sorted : Coins)
      → grant_formats.new_coins coins ≡ ok sorted
      → grant_formats.is_zero_coins sorted ≡ grant_formats.is_zero_coins coins

suc-nonzero : (n : ℕ) → (suc n == 0) ≡ false
suc-nonzero n = ground arith

module _ (platform : Platform) (formats : Formats) (grant_formats : GrantFormats)
    (laws : ValidCoinLaws formats grant_formats) where
  abbrev pub IsValid : Limit → Type 0
  IsValid l = validate_limit platform.texts formats grant_formats l ≡ ok tt

  abbrev pub IsValidNext : Option Limit → Type 0
  IsValidNext none = Unit
  IsValidNext (some l) = IsValid l

  combined-IsValidNext :
      (n : ℕ) (amounts funds : Coins)
      → Ensures
          (λ r. IsValidNext r.update_limit)
          (accept_combined platform.texts formats grant_formats n amounts funds)
  unfolding validate_limit
  combined-IsValidNext zero amounts funds = tt
  combined-IsValidNext (suc zero) amounts funds = tt
  combined-IsValidNext (suc (suc n)) amounts funds =
      Ensures-bind (λ left. Unit) _ _ _
        (Ensures-priced (λ left. Unit) (grant_formats.sub_coins amounts funds) (λ _ _. tt))
        (λ left _. elim (Bool-cases (grant_formats.is_zero_coins left)) [
          | inl none_ ↦ rw none_ tt
          | inr some_ ↦ rw some_ (
              Ensures-bind (λ sorted. grant_formats.new_coins left ≡ ok sorted) _ _ _
                (Ensures-priced _ (grant_formats.new_coins left) (λ sorted e. e))
                (λ sorted e.
                  rw
                    (
                      suc-nonzero n,
                      laws.zero-new left sorted e,
                      some_,
                      laws.valid-new left sorted e,
                    )
                    refl))
        ])

  -- The check of a limit on funds
  funds-valid :
      (amounts : Coins) → IsValid (max_funds amounts) → formats.is_valid_coins amounts ≡ true
  unfolding validate_limit
  funds-valid amounts valid = elim (Bool-cases (formats.is_valid_coins amounts)) [
    | inl yes_ ↦ yes_
    | inr no_ ↦ let h = (rw no_ at valid) in cc
  ]

  pub accept_limit-IsValidNext :
      (l : Limit) (funds : Coins)
      → IsValid l
      → Ensures
          (λ r. IsValidNext r.update_limit)
          (accept_limit platform.texts formats grant_formats l funds)
  unfolding accept_limit validate_limit
  accept_limit-IsValidNext undefined_limit funds valid = tt
  accept_limit-IsValidNext (max_calls n) funds valid =
      elim (Bool-cases (grant_formats.is_empty funds)) [
        | inr some_ ↦ rw some_ tt
        | inl none_ ↦ rw none_ (left n)
      ]
    where
      left :
          (n : ℕ)
          → Ensures
              (λ r. IsValidNext r.update_limit)
              (accept_call platform.texts formats grant_formats n)
      left zero = tt
      left (suc zero) = tt
      left (suc (suc n)) = rw (suc-nonzero n) refl
  accept_limit-IsValidNext (max_funds amounts) funds valid =
      elim (Bool-cases (grant_formats.is_empty funds)) [
        | inl none_ ↦ rw none_ tt
        | inr some_ ↦ elim (Bool-cases (grant_formats.is_all_lte funds amounts)) [
          | inr more ↦ rw (some_, more) tt
          | inl within ↦
              rw (some_, within)
                (Ensures-bind (λ left. formats.is_valid_coins left ≡ true) _ _ _
                  (Ensures-priced _ (grant_formats.sub_coins amounts funds)
                    (λ left. laws.valid-sub amounts funds left (funds-valid amounts valid)))
                  (λ left still. elim (Bool-cases (grant_formats.is_zero_coins left)) [
                    | inl zero_ ↦ rw zero_ tt
                    | inr rest ↦ rw rest (rw (still, rest) refl)
                  ]))
        ]
      ]
  accept_limit-IsValidNext (combined n amounts) funds valid =
      elim (Bool-cases (grant_formats.is_all_lte funds amounts)) [
        | inr more ↦ rw more tt
        | inl within ↦ rw within (combined-IsValidNext n amounts funds)
      ]
