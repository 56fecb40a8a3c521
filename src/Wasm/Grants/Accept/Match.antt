-- ===== src/Wasm/Grants/Accept/Match.antt =====
-- A message that is accepted has a grant that lets it pass, and only that grant changes.
use bignftd.Base.{
  Bool, ◌≡◌, refl, sym, true, false, not, inl, inr, Bool-cases, Option, none, some, List, [], ◌∷◌,
  ◌++◌, append_assoc, text_eq, text_eq_iff, if◌then◌else◌,
}
use bignftd.Chain.Outcome.{Result, ok, err, panic, ◌>>=◌, pure}
use bignftd.Chain.Checks.{Ensures-self}
use bignftd.Chain.Returns.{
  Returns, ReturnsAt-ok, Returns-map, Returns-bind, Returns-then, Returns-lift, Returns-value,
}
use bignftd.Wasm.Access.Validation.{AccessError}
use bignftd.Wasm.Messages.{Formats}
use bignftd.Wasm.Keeper.Platform.{Platform}
use bignftd.Wasm.Grants.{
  GrantFormats, ContractGrant, LimitResult, get_limit, get_filter, accept_limit,
}
use bignftd.Wasm.Grants.Accept.{
  AuthzMsg, WasmCall, Operation, ContractAuthorization, AcceptResponse, unwrap, accept_filter,
  filtered, check_filter, try_grant, settle_grant, settle_or, accept_grants, accept_call, or_failed,
  accept_granted_message,
}
use bignftd.Wasm.Grants.Accept.Settle.{
  kept_of, next_grants, IsValidUpdate, Leaves, settle_grant-Leaves,
}

module _ (platform : Platform) (formats : Formats) (grant_formats : GrantFormats) where
  -- The grant is for the contract of the call; its limit, then its filter let the call pass.
  pub record Applies (g : ContractGrant) (call : WasmCall) (result : LimitResult) : Type 0 where
    pub same_contract : g.contract ≡ call.contract
    pub within_limit :
        accept_limit platform.texts formats grant_formats (get_limit g) call.funds ≡ ok result
    pub is_accepted : result.accepted ≡ true
    pub passes_filter :
        (meter meter' : platform.Meter) × (accept_filter platform formats grant_formats
            (get_filter g)
            call.payload
            meter
          ≡ (ok true, meter'))

  -- One of the grants applies, it alone has changed, to what its limit says, and an update is valid.
  pub record HasUse (op : Operation) (grants : List ContractGrant) (call : WasmCall)
      (response : AcceptResponse) : Type 0 where
    pub before : List ContractGrant
    pub grant : ContractGrant
    pub after : List ContractGrant
    pub all : grants ≡ before ++ grant ∷ after
    pub result : LimitResult
    pub applies : Applies grant call result
    pub next : next_grants grants response ≡ before ++ (kept_of grant result ++ after)
    pub valid : IsValidUpdate platform formats grant_formats op response.updated

  -- What a test of one grant returns
  abbrev IsTested : ContractGrant → WasmCall → Option LimitResult → Type 0
  IsTested g call none = Unit
  IsTested g call (some result) = Applies g call result

  filtered-IsTested :
      (g : ContractGrant) (call : WasmCall) (result : LimitResult)
      → g.contract ≡ call.contract
      → accept_limit platform.texts formats grant_formats (get_limit g) call.funds ≡ ok result
      → result.accepted ≡ true
      → (b : Bool)
      → ((meter : platform.Meter) × (meter' : platform.Meter) × (accept_filter platform formats
              grant_formats
              (get_filter g)
              call.payload
              meter
            ≡ (ok b, meter')))
      → Returns (IsTested g call) (filtered platform formats grant_formats result b)
  filtered-IsTested g call result same within accepted false passed = record { at = λ s. tt }
  filtered-IsTested g call result same within accepted true (meter, meter', passed) = record {
    at = λ s. record {
      same_contract = same;
      within_limit = within;
      is_accepted = accepted;
      passes_filter = (meter, meter', passed);
    };
  }

  check_filter-IsTested :
      (g : ContractGrant) (call : WasmCall) (result : LimitResult)
      → g.contract ≡ call.contract
      → accept_limit platform.texts formats grant_formats (get_limit g) call.funds ≡ ok result
      → Returns (IsTested g call) (check_filter platform formats grant_formats g call result)
  check_filter-IsTested g call result same within = checked result.accepted refl
    where
      checked :
          (b : Bool)
          → result.accepted ≡ b
          → Returns (IsTested g call) (
              if not b
              then pure none
              else accept_filter platform formats grant_formats (get_filter g) call.payload
                >>= filtered platform formats grant_formats result)
      checked false e = record { at = λ s. tt }
      checked true e =
          Returns-bind _ (IsTested g call) _ _
            (Returns-value
              (accept_filter platform formats grant_formats (get_filter g) call.payload))
            (filtered-IsTested g call result same within e)

  try_grant-IsTested :
      (g : ContractGrant) (call : WasmCall)
      → Returns (IsTested g call) (try_grant platform formats grant_formats g call)
  unfolding try_grant
  try_grant-IsTested g call = elim (Bool-cases (text_eq g.contract call.contract)) [
    | inr other ↦ rw other (record { at = λ s. tt })
    | inl same ↦ rw same (
        Returns-bind
          (λ result.
            accept_limit platform.texts formats grant_formats (get_limit g) call.funds ≡ ok result)
          (IsTested g call) _ _
          (Returns-lift _
            (accept_limit platform.texts formats grant_formats (get_limit g) call.funds)
            (Ensures-self _))
          (λ result. check_filter-IsTested g call result ((text_eq_iff _ _).0 same)))
  ]

  -- What the loop returns
  abbrev IsUsed : Operation → List ContractGrant → WasmCall → AcceptResponse → Type 0
  IsUsed op grants call response = response.accept ≡ true → HasUse op grants call response

  settled :
      (op : Operation) (before : List ContractGrant) (g : ContractGrant)
      (after : List ContractGrant) (call : WasmCall)
      → Returns
          (IsUsed op (before ++ g ∷ after) call)
          (accept_grants platform formats grant_formats op (before ++ g ∷ []) after call)
      → (tested : Option LimitResult) → IsTested g call tested
      → Returns (IsUsed op (before ++ g ∷ after) call) (
          settle_or platform formats grant_formats
            (accept_grants platform formats grant_formats op (before ++ g ∷ []) after call)
            (settle_grant platform formats grant_formats op before g after)
            tested)
  settled op before g after call later none t = later
  settled op before g after call later (some result) t =
      Returns-map
        (Leaves platform formats grant_formats op (before ++ g ∷ after)
          (before ++ (kept_of g result ++ after)))
        (IsUsed op (before ++ g ∷ after) call) _
        (λ response (next, valid) accepted. record {
          before = before;
          grant = g;
          after = after;
          all = refl;
          result = result;
          applies = t;
          next = next;
          valid = valid;
        })
        (settle_grant-Leaves platform formats grant_formats op before g after result)

  accept_grants-IsUsed :
      (op : Operation) (before after : List ContractGrant) (call : WasmCall)
      → Returns
          (IsUsed op (before ++ after) call)
          (accept_grants platform formats grant_formats op before after call)
  unfolding accept_grants
  accept_grants-IsUsed op before [] call = record { at = λ s no_. cc }
  accept_grants-IsUsed op before (g ∷ after) call =
      Returns-bind (IsTested g call) (IsUsed op (before ++ g ∷ after) call) _ _
        (try_grant-IsTested g call)
        (settled op before g after call (
          rw (sym (append_assoc before (g ∷ []) after))
            (accept_grants-IsUsed op (before ++ g ∷ []) after call)))

  -- The message is one for the authorization, and has passed its check.
  abbrev IsAccepted : ContractAuthorization → AuthzMsg → AcceptResponse → Type 0
  IsAccepted a msg response =
      response.accept ≡ true
      → (call : WasmCall) × (unwrap platform formats grant_formats a.operation msg ≡ some call)
        × (call.check ≡ ok tt)
        × HasUse a.operation a.grants call response

  or_failed-passes :
      (check : Result AccessError Unit)
      → Returns (λ u. check ≡ ok tt) (or_failed platform formats grant_formats check)
  or_failed-passes (ok u) = record { at = λ s. refl }
  or_failed-passes (err e) = record { at = λ s. tt }
  or_failed-passes (panic p) = record { at = λ s. tt }

  accept_call-IsAccepted :
      (a : ContractAuthorization) (msg : AuthzMsg) (found : Option WasmCall)
      → unwrap platform formats grant_formats a.operation msg ≡ found
      → Returns
          (IsAccepted a msg)
          (accept_call platform formats grant_formats a.operation a.grants found)
  accept_call-IsAccepted a msg none e = record { at = λ s. tt }
  accept_call-IsAccepted a msg (some call) e = Returns-then (IsAccepted a msg) _ _ (λ u.
      Returns-bind (λ v. call.check ≡ ok tt) (IsAccepted a msg) _ _ (or_failed-passes call.check)
        (λ v passed.
          Returns-map (IsUsed a.operation a.grants call) (IsAccepted a msg) _
            (λ response used accepted. (call, e, passed, used accepted))
            (accept_grants-IsUsed a.operation [] a.grants call)))

  -- A message that a grant lets pass is one of the kind of the authorization, with a payload that
  -- passes its check; one of the grants is for its contract, its limit accepts the funds and its filter
  -- the payload; all other grants stay as they are and in their order, that one has the limit that its
  -- old one asks for or is gone, and an updated authorization passes its own check.
  pub accept_granted_message-HasUse :
      (a : ContractAuthorization) (msg : AuthzMsg) (response : AcceptResponse)
      (meter meter' : platform.Meter)
      → accept_granted_message platform formats grant_formats a msg meter ≡ (ok response, meter')
      → response.accept ≡ true
      → (call : WasmCall) × (unwrap platform formats grant_formats a.operation msg ≡ some call)
        × (call.check ≡ ok tt)
        × HasUse a.operation a.grants call response
  unfolding accept_granted_message
  accept_granted_message-HasUse a msg response meter meter' done =
      ReturnsAt-ok (IsAccepted a msg) _ response meter meter'
        (accept_call-IsAccepted a msg (unwrap platform formats grant_formats a.operation msg) refl)
        done
