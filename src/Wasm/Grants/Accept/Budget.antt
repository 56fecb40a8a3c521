-- ===== src/Wasm/Grants/Accept/Budget.antt =====
-- What the grants for a contract allow in all, over a run of messages that are accepted one after
-- another, each by the authorization that the one before has left.
use bignftd.Base.{
  ℕ, ◌+◌, ◌≤◌, Text, Bool, ◌≡◌, refl, sym, true, false, inl, inr, Bool-cases, Option, none, some,
  List, [], ◌∷◌, ◌++◌, All, text_eq, text_eq_iff, if◌then◌else◌, arith,
}
use bignftd.Chain.Outcome.{ok}
use bignftd.Chain.Sdk.{Coins}
use bignftd.Wasm.Messages.{Formats}
use bignftd.Wasm.Keeper.Platform.{Platform}
use bignftd.Wasm.Grants.{GrantFormats, Limit, ContractGrant, LimitResult, get_limit, accept_limit}
use bignftd.Wasm.Grants.Accept.{
  AuthzMsg, WasmCall, Operation, AcceptResponse, unwrap, accept_granted_message,
}
use bignftd.Wasm.Grants.Accept.Settle.{kept_limit, kept_of, next_grants}
use bignftd.Wasm.Grants.Accept.Match.{HasUse, Applies, accept_granted_message-HasUse}

abbrev pub limit_or : Limit → Option Limit → Limit
limit_or l none = l
limit_or l (some next) = next

module _ (platform : Platform) (formats : Formats) (grant_formats : GrantFormats) where
  -- The authorization that has the grants accepts the messages in order, and ends with the last ones.
  pub data Uses (op : Operation)
      : List ContractGrant → List AuthzMsg → List ContractGrant → Type 0 where
    done : (grants : List ContractGrant) → Uses op grants [] grants
    step :
        (grants : List ContractGrant) (msg : AuthzMsg) (response : AcceptResponse)
        (meter meter' : platform.Meter) (msgs : List AuthzMsg) (last : List ContractGrant)
        → accept_granted_message platform formats grant_formats
            (record { operation = op; grants = grants })
            msg
            meter
          ≡ (ok response, meter')
        → response.accept ≡ true
        → Uses op (next_grants grants response) msgs last
        → Uses op grants (msg ∷ msgs) last

  -- What a limit has left, what a call costs, and the limits of which an accepted call takes that much.
  pub record Measure : Type 1 where
    pub weigh : Limit → ℕ
    pub cost : Coins → ℕ
    pub IsMeasured : Limit → Type 0
    pub spends :
        (l : Limit) (funds : Coins) (result : LimitResult)
        → IsMeasured l
        → accept_limit platform.texts formats grant_formats l funds ≡ ok result
        → result.accepted ≡ true
        → IsMeasured (limit_or l result.update_limit)
          × (cost funds
                + (if result.delete_limit then 0 else weigh (limit_or l result.update_limit))
              ≤ weigh l)

  module _ (m : Measure) (contract : Text) where
    abbrev pub weigh_grant : ContractGrant → ℕ
    weigh_grant g = if text_eq g.contract contract then m.weigh (get_limit g) else 0

    -- What all grants for the contract have left together
    abbrev pub budget : List ContractGrant → ℕ
    budget [] = 0
    budget (g ∷ grants) = weigh_grant g + budget grants

    abbrev pub AreMeasured : List ContractGrant → Type 0
    AreMeasured = All (λ g. g.contract ≡ contract → m.IsMeasured (get_limit g))

    abbrev pub cost_of : Option WasmCall → ℕ
    cost_of none = 0
    cost_of (some call) = if text_eq call.contract contract then m.cost call.funds else 0

    -- What a run of messages costs the grants for the contract
    abbrev pub total_cost : Operation → List AuthzMsg → ℕ
    total_cost op [] = 0
    total_cost op (msg ∷ msgs) =
        cost_of (unwrap platform formats grant_formats op msg) + total_cost op msgs

    budget-append : (xs ys : List ContractGrant) → budget (xs ++ ys) ≡ budget xs + budget ys
    budget-append [] ys = omega arith
    budget-append (g ∷ xs) ys = omega (arith, budget-append xs ys)

    AreMeasured-append :
        (xs ys : List ContractGrant) → AreMeasured xs → AreMeasured ys → AreMeasured (xs ++ ys)
    AreMeasured-append [] ys h k = k
    AreMeasured-append (g ∷ xs) ys (here, h) k = (here, AreMeasured-append xs ys h k)

    AreMeasured-split :
        (xs ys : List ContractGrant) → AreMeasured (xs ++ ys) → AreMeasured xs × AreMeasured ys
    AreMeasured-split [] ys h = (tt, h)
    AreMeasured-split (g ∷ xs) ys (here, h) =
        let (left, right) = AreMeasured-split xs ys h in ((here, left), right)

    kept-AreMeasured :
        (g : ContractGrant) (gone : Bool) (next : Option Limit)
        → (g.contract ≡ contract → m.IsMeasured (limit_or (get_limit g) next))
        → AreMeasured (if gone then [] else kept_limit g next)
    unfolding get_limit
    kept-AreMeasured g true next h = tt
    kept-AreMeasured g false none h = (h, tt)
    kept-AreMeasured g false (some l) h = (h, tt)

    kept-budget :
        (g : ContractGrant) (gone : Bool) (next : Option Limit)
        → text_eq g.contract contract ≡ true
        → budget (if gone then [] else kept_limit g next)
          ≡ (if gone then 0 else m.weigh (limit_or (get_limit g) next))
    unfolding get_limit
    kept-budget g true next same = refl
    kept-budget g false none same = rw same (omega arith)
    kept-budget g false (some l) same = rw same (omega arith)

    kept-budget_other :
        (g : ContractGrant) (gone : Bool) (next : Option Limit)
        → text_eq g.contract contract ≡ false
        → budget (if gone then [] else kept_limit g next) ≡ 0
    kept-budget_other g true next other = refl
    kept-budget_other g false none other = rw other refl
    kept-budget_other g false (some l) other = rw other refl

    -- One grant that lets a call pass
    kept-spends :
        (g : ContractGrant) (call : WasmCall) (result : LimitResult)
        → Applies platform formats grant_formats g call result
        → (g.contract ≡ contract → m.IsMeasured (get_limit g))
        → AreMeasured (kept_of g result)
          × (cost_of (some call) + budget (kept_of g result) ≤ weigh_grant g)
    kept-spends g call result applies measured = elim (Bool-cases (text_eq g.contract contract)) [
      | inl same ↦
          let e : g.contract ≡ contract = (text_eq_iff _ _).0 same in
          let (still, spent) =
            m.spends (get_limit g) call.funds result (measured e) applies.within_limit
              applies.is_accepted in
          let same' : text_eq call.contract contract ≡ true = rw (sym applies.same_contract) same in
          (
            kept-AreMeasured g result.delete_limit result.update_limit (λ _. still),
            rw (same', same, kept-budget g result.delete_limit result.update_limit same) spent,
          )
      | inr other ↦
          let other' : text_eq call.contract contract ≡ false =
            rw (sym applies.same_contract) other in
          (
            kept-AreMeasured g result.delete_limit result.update_limit
                (λ e. absurd (cc ((text_eq_iff g.contract contract).1 e, other))),
            rw (other', other, kept-budget_other g result.delete_limit result.update_limit other)
                (omega arith),
          )
    ]

    -- One message that is accepted
    use-spends :
        (op : Operation) (grants : List ContractGrant) (call : WasmCall) (response : AcceptResponse)
        → HasUse platform formats grant_formats op grants call response
        → AreMeasured grants
        → AreMeasured (next_grants grants response)
          × (cost_of (some call) + budget (next_grants grants response) ≤ budget grants)
    use-spends op grants call response u measured =
        let all = rw u.all at measured in
        let (first, (here, last)) = AreMeasured-split u.before (u.grant ∷ u.after) all in
        let (kept, spent) = kept-spends u.grant call u.result u.applies here in
        let kept_grants = kept_of u.grant u.result in
        rw (u.next, u.all)
          (
            AreMeasured-append u.before _ first (AreMeasured-append _ u.after kept last),
            omega (
              arith,
              spent,
              budget-append u.before (kept_grants ++ u.after),
              budget-append kept_grants u.after,
              budget-append u.before (u.grant ∷ u.after),
            ),
          )

    -- A run never costs the grants for the contract more than they have left at its start.
    pub Uses-budget :
        (op : Operation) (grants : List ContractGrant) (msgs : List AuthzMsg)
        (last : List ContractGrant)
        → Uses op grants msgs last
        → AreMeasured grants
        → total_cost op msgs + budget last ≤ budget grants
    Uses-budget op _ _ _ (done grants) measured = omega arith
    Uses-budget op _ _ _ (step grants msg response meter meter' msgs last done_ accepted rest)
          measured =
        let (call, is_call, passed, u) =
          accept_granted_message-HasUse platform formats grant_formats
            (record { operation = op; grants = grants }) msg response meter meter' done_ accepted in
        let (measured', spent) = use-spends op grants call response u measured in
        rw is_call (
          omega
            (arith, spent, Uses-budget op (next_grants grants response) msgs last rest measured'))
