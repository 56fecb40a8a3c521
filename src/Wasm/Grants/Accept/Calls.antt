-- ===== src/Wasm/Grants/Accept/Calls.antt =====
-- How often a contract is called by an authorization.
use bignftd.Base.{ℕ, zero, suc, ◌+◌, ◌≤◌, Text, inl, inr, Bool-cases, List, arith}
use bignftd.Chain.Checks.{Ensures, Ensures-bind, Ensures-ok}
use bignftd.Chain.Sdk.{Coins}
use bignftd.Wasm.Messages.{Formats}
use bignftd.Wasm.Keeper.Platform.{Platform}
use bignftd.Wasm.Grants.{
  GrantFormats, Limit, undefined_limit, max_calls, max_funds, combined, ContractGrant, accept_limit,
  accept_call, accept_combined,
}
use bignftd.Wasm.Grants.Accept.{AuthzMsg, Operation}
use bignftd.Wasm.Grants.Accept.Budget.{Uses, Measure, budget, total_cost, AreMeasured, Uses-budget}
use bignftd.Wasm.Grants.Accept.Spending.{Spends, Ensures-priced}

-- The calls that a limit has left; a budget of coins does not count calls.
abbrev pub calls_of : Limit → ℕ
calls_of (max_calls n) = n
calls_of (combined n coins) = n
calls_of _ = 0

-- The limit is on the number of calls.
abbrev pub CountsCalls : Limit → Type 0
CountsCalls (max_funds coins) = ⊥
CountsCalls _ = Unit

module _ (platform : Platform) (formats : Formats) (grant_formats : GrantFormats) where
  combined-calls :
      (n : ℕ) (amounts funds : Coins)
      → Ensures
          (Spends calls_of CountsCalls 1 (combined n amounts))
          (accept_combined platform.texts formats grant_formats n amounts funds)
  combined-calls zero amounts funds = tt
  combined-calls (suc zero) amounts funds = λ _. (tt, omega arith)
  combined-calls (suc (suc n)) amounts funds =
      Ensures-bind (λ left. Unit) _ _ _
        (Ensures-priced (λ left. Unit) (grant_formats.sub_coins amounts funds) (λ _ _. tt))
        (λ left _. elim (Bool-cases (grant_formats.is_zero_coins left)) [
          | inl none_ ↦ rw none_ (λ _. (tt, omega arith))
          | inr some_ ↦ rw some_ (
              Ensures-bind (λ sorted. Unit) _ _ _
                (Ensures-priced (λ sorted. Unit) (grant_formats.new_coins left) (λ _ _. tt))
                (λ sorted _ _. (tt, omega arith)))
        ])

  pub accept_limit-calls :
      (l : Limit) (funds : Coins)
      → CountsCalls l
      → Ensures
          (Spends calls_of CountsCalls 1 l)
          (accept_limit platform.texts formats grant_formats l funds)
  unfolding accept_limit
  accept_limit-calls undefined_limit funds counts = tt
  accept_limit-calls (max_calls n) funds counts = elim (Bool-cases (grant_formats.is_empty funds)) [
    | inr some_ ↦ rw some_ (λ h. cc)
    | inl none_ ↦ rw none_ (calls n)
  ]
    where
      calls :
          (n : ℕ)
          → Ensures
              (Spends calls_of CountsCalls 1 (max_calls n))
              (accept_call platform.texts formats grant_formats n)
      calls zero = tt
      calls (suc zero) = λ _. (tt, omega arith)
      calls (suc (suc n)) = λ _. (tt, omega arith)
  accept_limit-calls (max_funds amounts) funds counts = absurd counts
  accept_limit-calls (combined n amounts) funds counts =
      elim (Bool-cases (grant_formats.is_all_lte funds amounts)) [
        | inr more ↦ rw more (λ h. cc)
        | inl within ↦ rw within (combined-calls n amounts funds)
      ]

  abbrev pub calls : Measure platform formats grant_formats
  calls = record {
    weigh = calls_of;
    cost = λ funds. 1;
    IsMeasured = CountsCalls;
    spends = λ l funds result counts within accepted.
        Ensures-ok (Spends calls_of CountsCalls 1 l) _ result within
          (accept_limit-calls l funds counts) accepted;
  }

  -- A run of messages that an authorization accepts one after the other, each as the one before has
  -- left it, has no more messages for a contract than the calls that its grants for that contract have
  -- left at the start less those that they have left at the end, if each of these grants counts calls.
  pub Uses-calls :
      (contract : Text) (op : Operation) (grants : List ContractGrant) (msgs : List AuthzMsg)
      (last : List ContractGrant)
      → Uses platform formats grant_formats op grants msgs last
      → AreMeasured platform formats grant_formats calls contract grants
      → total_cost platform formats grant_formats calls contract op msgs
          + budget platform formats grant_formats calls contract last
        ≤ budget platform formats grant_formats calls contract grants
  Uses-calls contract op grants msgs last uses measured =
      Uses-budget platform formats grant_formats calls contract op grants msgs last uses measured
