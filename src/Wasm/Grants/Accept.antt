-- ===== src/Wasm/Grants/Accept.antt =====
-- x/wasm/types/authz.go: whether a grant lets a message pass, and what is left of it then.
pub mod Settle
pub mod Match
pub mod ValidLimits
pub mod Progress
pub mod Budget
pub mod Spending
pub mod Calls
pub mod Funds
pub mod Passing
use bignftd.Base.{
  ℕ, ◌*◌, ◌%◌, Text, Bool, true, false, not, ◌==◌, Option, none, some, List, [], ◌∷◌, ◌++◌, length,
  text_eq, if◌then◌else◌,
}
use bignftd.Chain.Outcome.{
  Panic, Result, ok, err, panic, Exec, ◌>>=◌, ◌>>◌, pure, raise, lift, require,
}
use bignftd.Chain.Sdk.{Coins}
use bignftd.Wasm.Gas.{mul64, u64_mod}
use bignftd.Wasm.Access.{lists}
use bignftd.Wasm.Access.Validation.{AccessError}
use bignftd.Wasm.Messages.{
  Formats, MsgExecuteContract, MsgMigrateContract, MsgStoreCode, validate_execute, validate_migrate,
}
use bignftd.Wasm.Keeper.Platform.{Platform}
use bignftd.Wasm.Grants.{
  GrantError, not_found, invalid_type, unauthorized, invalid, failed_check, GrantFormats, Limit,
  Filter, undefined_filter, allow_all, accepted_keys, accepted_messages, ContractGrant, LimitResult,
  get_limit, get_filter, with_new_limits, accept_limit, validate_grants,
  is_json_object_with_top_level_key,
}

-- The messages that the grants are about, and any other.
pub data AuthzMsg : Type 0 where
  execute_msg : MsgExecuteContract → AuthzMsg
  migrate_msg : MsgMigrateContract → AuthzMsg
  store_msg : MsgStoreCode → AuthzMsg
  other_msg : AuthzMsg

-- `AuthzableWasmMsg`: what its methods return.
pub record WasmCall : Type 0 where
  pub contract : Text
  pub payload : Text
  pub funds : Coins
  pub check : Result AccessError Unit

-- `ContractExecutionAuthorization` and `ContractMigrationAuthorization`
pub data Operation : Type 0 where
  execution migration : Operation

pub record ContractAuthorization : Type 0 where
  pub operation : Operation
  pub grants : List ContractGrant

-- `authztypes.AcceptResponse`
pub record AcceptResponse : Type 0 where
  pub accept : Bool
  pub delete : Bool
  pub updated : Option ContractAuthorization

-- `gasDeserializationCostPerByte`
abbrev pub gas_deserialization_cost_per_byte : ℕ
gas_deserialization_cost_per_byte = 1

abbrev pub refused : AcceptResponse
refused = record { accept = false; delete = false; updated = none }

abbrev pub accepted_as_is : AcceptResponse
accepted_as_is = record { accept = true; delete = false; updated = none }

abbrev pub accepted_and_deleted : AcceptResponse
accepted_and_deleted = record { accept = true; delete = true; updated = none }

abbrev pub accepted_and_updated : ContractAuthorization → AcceptResponse
accepted_and_updated a = record { accept = true; delete = false; updated = some a }

module _ (platform : Platform) (formats : Formats) (grant_formats : GrantFormats) where
  abbrev pub Metered : Type 0 → Type 0
  Metered A = Exec GrantError platform.Meter A

  -- `ctx.GasMeter().ConsumeGas`
  abbrev pub consumed : Option Panic × platform.Meter → Result GrantError Unit × platform.Meter
  consumed (none, meter) = (ok tt, meter)
  consumed (some p, meter) = (panic p, meter)

  abbrev pub consume_gas : ℕ → Metered Unit
  consume_gas amount meter = consumed (platform.consume amount meter)

  -- `ErrUnauthorized.Wrapf` around an error
  abbrev pub or_unauthorized : {A : Type 0} → Result GrantError A → Metered A
  or_unauthorized (ok a) = pure a
  or_unauthorized (err e) = raise unauthorized
  or_unauthorized (panic p) = lift (panic p)

  -- The loop of `AcceptedMessagesFilter.Accept`, and `Accept` of each filter
  unfoldable pub accept_filter : Filter → Text → Metered Bool
  accept_filter undefined_filter msg = raise not_found
  accept_filter allow_all msg = do require (platform.texts.is_json msg) invalid; pure true
  accept_filter (accepted_keys keys) msg = do
    consume_gas (mul64 gas_deserialization_cost_per_byte (length msg % u64_mod))
    or_unauthorized
        (is_json_object_with_top_level_key platform.texts formats grant_formats msg keys)
  accept_filter (accepted_messages msgs) msg = pure (lists msgs msg)

  -- `msg.(T)`; a migration carries no funds: `sdk.NewCoins()` is the empty list.
  unfoldable pub unwrap : Operation → AuthzMsg → Option WasmCall
  unwrap execution (execute_msg m) = some (record {
    contract = m.contract;
    payload = m.msg;
    funds = m.funds;
    check = validate_execute platform.texts formats m;
  })
  unwrap migration (migrate_msg m) = some (record {
    contract = m.contract;
    payload = m.msg;
    funds = [];
    check = validate_migrate platform.texts formats m;
  })
  unwrap _ _ = none

  -- The tests of one grant in the loop of `AcceptGrantedMessage`: its contract, its limit, then its
  -- filter. Nothing comes of a grant that does not apply.
  abbrev pub filtered : LimitResult → Bool → Metered (Option LimitResult)
  filtered result true = pure (some result)
  filtered result false = pure none

  abbrev pub check_filter : ContractGrant → WasmCall → LimitResult → Metered (Option LimitResult)
  check_filter g call result =
      if not result.accepted
      then pure none
      else accept_filter (get_filter g) call.payload >>= filtered result

  unfoldable pub try_grant : ContractGrant → WasmCall → Metered (Option LimitResult)
  try_grant g call =
      if not (text_eq g.contract call.contract)
      then pure none
      else lift (accept_limit platform.texts formats grant_formats (get_limit g) call.funds)
        >>= check_filter g call

  -- The authorization with other grants, if they pass their check
  abbrev pub renewed :
      Operation → List ContractGrant → Result GrantError Unit → Metered AcceptResponse
  renewed op grants (ok u) =
      pure (accepted_and_updated (record { operation = op; grants = grants }))
  renewed op grants (err e) = raise invalid
  renewed op grants (panic p) = lift (panic p)

  abbrev pub renew : Operation → List ContractGrant → Metered AcceptResponse
  renew op grants = renewed op grants (validate_grants platform.texts formats grant_formats grants)

  abbrev pub delete_or_renew : Operation → List ContractGrant → Metered AcceptResponse
  delete_or_renew op grants =
      if length grants == 0 then pure accepted_and_deleted else renew op grants

  abbrev pub update_grant :
      Operation
      → List ContractGrant
      → ContractGrant
      → List ContractGrant
      → Option Limit
      → Metered AcceptResponse
  update_grant op before g after none = pure accepted_as_is
  update_grant op before g after (some l) = do
    updated ← lift (with_new_limits g l)
    renew op (before ++ updated ∷ after)

  -- The update of the limit of the grant that applies, which stands between `before` and `after`
  unfoldable pub settle_grant :
      Operation
      → List ContractGrant
      → ContractGrant
      → List ContractGrant
      → LimitResult
      → Metered AcceptResponse
  settle_grant op before g after result =
      if result.delete_limit
      then delete_or_renew op (before ++ after)
      else update_grant op before g after result.update_limit

  abbrev pub settle_or :
      Metered AcceptResponse
      → (LimitResult → Metered AcceptResponse)
      → Option LimitResult
      → Metered AcceptResponse
  settle_or next settle none = next
  settle_or next settle (some result) = settle result

  -- The loop of `AcceptGrantedMessage`
  unfoldable pub accept_grants :
      Operation → List ContractGrant → List ContractGrant → WasmCall → Metered AcceptResponse
  accept_grants op before [] call = pure refused
  accept_grants op before (g ∷ after) call =
      try_grant g call
      >>= settle_or (accept_grants op (before ++ g ∷ []) after call)
          (settle_grant op before g after)

  abbrev pub or_failed : Result AccessError Unit → Metered Unit
  or_failed (ok u) = pure tt
  or_failed (err e) = raise (failed_check e)
  or_failed (panic p) = lift (panic p)

  abbrev pub accept_call : Operation → List ContractGrant → Option WasmCall → Metered AcceptResponse
  accept_call op grants none = raise invalid_type
  accept_call op grants (some call) = do
    require (not (length call.payload == 0)) invalid_type
    or_failed call.check
    accept_grants op [] grants call

  -- `AcceptGrantedMessage`; a nil payload is the empty one.
  unfoldable pub accept_granted_message : ContractAuthorization → AuthzMsg → Metered AcceptResponse
  accept_granted_message a msg = accept_call a.operation a.grants (unwrap a.operation msg)
