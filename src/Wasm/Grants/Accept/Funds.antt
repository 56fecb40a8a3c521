-- ===== src/Wasm/Grants/Accept/Funds.antt =====
-- How much a contract is sent by an authorization.
use bignftd.Base.{
  ℕ, zero, suc, ◌+◌, ◌≤◌, Text, ◌≡◌, true, inl, inr, Bool-cases, List, [], ◌∷◌, arith,
}
use bignftd.Chain.Outcome.{ok}
use bignftd.Chain.Checks.{Ensures, Ensures-bind, Ensures-ok}
use bignftd.Chain.Sdk.{Coins}
use bignftd.Wasm.Messages.{Formats}
use bignftd.Wasm.Keeper.Platform.{Platform}
use bignftd.Wasm.Grants.{
  GrantFormats, Limit, undefined_limit, max_calls, max_funds, combined, ContractGrant, accept_limit,
  accept_call, accept_combined,
}
use bignftd.Wasm.Grants.Accept.{AuthzMsg, Operation}
use bignftd.Wasm.Grants.Accept.Budget.{Uses, Measure, budget, total_cost, AreMeasured, Uses-budget}
use bignftd.Wasm.Grants.Accept.Spending.{Spends, Ensures-priced}

-- The laws of coins: amounts by denom. No coins amount to nothing, a part is no more than the whole,
-- and what is left is the difference; sorting coins changes no amount.
pub record CoinLaws (grant_formats : GrantFormats) : Type 0 where
  pub amount_of : Text → Coins → ℕ
  pub amount-empty :
      (d : Text) (coins : Coins) → grant_formats.is_empty coins ≡ true → amount_of d coins ≡ 0
  pub amount-lte :
      (d : Text) (part whole : Coins)
      → grant_formats.is_all_lte part whole ≡ true
      → amount_of d part ≤ amount_of d whole
  pub amount-sub :
      (d : Text) (whole part left : Coins)
      → grant_formats.sub_coins whole part ≡ ok left
      → amount_of d left + amount_of d part ≡ amount_of d whole
  pub amount-new :
      (d : Text) (coins sorted : Coins)
      → grant_formats.new_coins coins ≡ ok sorted
      → amount_of d sorted ≡ amount_of d coins

module _ (platform : Platform) (formats : Formats) (grant_formats : GrantFormats) where
  module _ (laws : CoinLaws grant_formats) (d : Text) where
    -- What a limit lets be spent of a denom
    abbrev pub funds_of : Limit → ℕ
    funds_of (max_funds amounts) = laws.amount_of d amounts
    funds_of (combined n amounts) = laws.amount_of d amounts
    funds_of _ = 0

    combined-funds :
        (n : ℕ) (amounts funds : Coins)
        → grant_formats.is_all_lte funds amounts ≡ true
        → Ensures
            (Spends funds_of (λ l. Unit) (laws.amount_of d funds) (combined n amounts))
            (accept_combined platform.texts formats grant_formats n amounts funds)
    combined-funds zero amounts funds lte = tt
    combined-funds (suc zero) amounts funds lte =
        λ _. (tt, omega (arith, laws.amount-lte d funds amounts lte))
    combined-funds (suc (suc n)) amounts funds lte =
        Ensures-bind
          (λ left. laws.amount_of d left + laws.amount_of d funds ≡ laws.amount_of d amounts) _ _ _
          (Ensures-priced _ (grant_formats.sub_coins amounts funds)
            (λ left. laws.amount-sub d amounts funds left))
          (λ left less. elim (Bool-cases (grant_formats.is_zero_coins left)) [
            | inl none_ ↦ rw none_ (λ _. (tt, omega (arith, less)))
            | inr some_ ↦ rw some_ (
                Ensures-bind (λ sorted. laws.amount_of d sorted ≡ laws.amount_of d left) _ _ _
                  (Ensures-priced _ (grant_formats.new_coins left)
                    (λ sorted. laws.amount-new d left sorted))
                  (λ sorted same _. (tt, omega (arith, less, same))))
          ])

    pub accept_limit-funds :
        (l : Limit) (funds : Coins)
        → Ensures
            (Spends funds_of (λ l. Unit) (laws.amount_of d funds) l)
            (accept_limit platform.texts formats grant_formats l funds)
    unfolding accept_limit
    accept_limit-funds undefined_limit funds = tt
    accept_limit-funds (max_calls n) funds = elim (Bool-cases (grant_formats.is_empty funds)) [
      | inr some_ ↦ rw some_ (λ h. cc)
      | inl none_ ↦ rw none_ (calls_cost n (laws.amount-empty d funds none_))
    ]
      where
        calls_cost :
            (n : ℕ)
            → laws.amount_of d funds ≡ 0
            → Ensures
                (Spends funds_of (λ l. Unit) (laws.amount_of d funds) (max_calls n))
                (accept_call platform.texts formats grant_formats n)
        calls_cost zero nothing = tt
        calls_cost (suc zero) nothing = λ _. (tt, omega (arith, nothing))
        calls_cost (suc (suc n)) nothing = λ _. (tt, omega (arith, nothing))
    accept_limit-funds (max_funds amounts) funds =
        elim (Bool-cases (grant_formats.is_empty funds)) [
          | inl none_ ↦ rw none_ (λ _. (tt, omega (arith, laws.amount-empty d funds none_)))
          | inr some_ ↦ elim (Bool-cases (grant_formats.is_all_lte funds amounts)) [
            | inr more ↦ rw (some_, more) (λ h. cc)
            | inl within ↦
                rw (some_, within)
                  (Ensures-bind
                    (λ left.
                      laws.amount_of d left + laws.amount_of d funds ≡ laws.amount_of d amounts)
                    _ _ _
                    (Ensures-priced _ (grant_formats.sub_coins amounts funds)
                      (λ left. laws.amount-sub d amounts funds left))
                    (λ left less. elim (Bool-cases (grant_formats.is_zero_coins left)) [
                      | inl zero_ ↦ rw zero_ (λ _. (tt, omega (arith, less)))
                      | inr rest ↦ rw rest (λ _. (tt, omega (arith, less)))
                    ]))
          ]
        ]
    accept_limit-funds (combined n amounts) funds =
        elim (Bool-cases (grant_formats.is_all_lte funds amounts)) [
          | inr more ↦ rw more (λ h. cc)
          | inl within ↦ rw within (combined-funds n amounts funds within)
        ]

    abbrev pub funds : Measure platform formats grant_formats
    funds = record {
      weigh = funds_of;
      cost = laws.amount_of d;
      IsMeasured = λ l. Unit;
      spends = λ l coins result _ within accepted.
          Ensures-ok (Spends funds_of (λ l. Unit) (laws.amount_of d coins) l) _ result within
            (accept_limit-funds l coins) accepted;
    }

    unmeasured :
        (contract : Text) (grants : List ContractGrant)
        → AreMeasured platform formats grant_formats funds contract grants
    unmeasured contract [] = tt
    unmeasured contract (g ∷ grants) = (λ _. tt, unmeasured contract grants)

    -- A run of messages that an authorization accepts one after the other, each as the one before has
    -- left it, sends a contract no more of a denom than the limits of its grants for that contract allow
    -- at the start, less what they allow at the end, whatever limits these are.
    pub Uses-funds :
        (contract : Text) (op : Operation) (grants : List ContractGrant) (msgs : List AuthzMsg)
        (last : List ContractGrant)
        → Uses platform formats grant_formats op grants msgs last
        → total_cost platform formats grant_formats funds contract op msgs
            + budget platform formats grant_formats funds contract last
          ≤ budget platform formats grant_formats funds contract grants
    Uses-funds contract op grants msgs last uses =
        Uses-budget platform formats grant_formats funds contract op grants msgs last uses
          (unmeasured contract grants)
