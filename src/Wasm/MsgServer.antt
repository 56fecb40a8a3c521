-- ===== src/Wasm/MsgServer.antt =====
-- x/wasm/keeper/msg_server.go: the handler of each message.
pub mod Message
pub mod Refusal
pub mod Uploads
pub mod Keeping
pub mod Ownership
use bignftd.Base.{
  ℕ, Text, Bool, true, false, Option, none, some, List, [], ◌∷◌, ◌++◌, text_eq, if◌then◌else◌,
}
use bignftd.Chain.Outcome.{
  Result, ok, err, panic, fatal, ◌>>=◌, ◌>>◌, pure, raise, lift, gets, modify, require,
}
use bignftd.Chain.Sdk.{Addr}
use bignftd.Wasm.Gas.{GasConfig}
use bignftd.Wasm.Access.{AccessConfig, lists, is_any_of}
use bignftd.Wasm.Access.Validation.{AccessError}
use bignftd.Wasm.Policy.{Policy, PolicyAction, default_policy, gov_policy}
use bignftd.Wasm.Messages.{
  Formats, MsgStoreCode, MsgInstantiateContract, MsgInstantiateContract2, MsgExecuteContract,
  MsgMigrateContract, MsgUpdateAdmin, MsgClearAdmin, MsgUpdateInstantiateConfig, MsgUpdateParams,
  MsgPinCodes, MsgSudoContract, MsgStoreAndInstantiateContract, MsgCodeUploadParamsAddresses,
  MsgStoreAndMigrateContract, MsgUpdateContractLabel, MsgSetGaslessContracts, validate_store_code,
  validate_instantiate, validate_instantiate2, validate_execute, validate_migrate,
  validate_update_admin, validate_clear_admin, validate_update_instantiate_config,
  validate_update_params, validate_pin_codes, validate_sudo, validate_store_and_instantiate,
  validate_upload_addresses, validate_store_and_migrate, validate_update_label,
  validate_set_gasless,
}
use bignftd.Wasm.Keeper.Platform.{
  Platform, Context, Action, WasmParams, invalid_address, invalid, invalid_signer, invalid_message,
}
use bignftd.Wasm.Keeper.Code.{create, pin_code, unpin_code, set_access_config}
use bignftd.Wasm.Keeper.Contracts.{set_contract_admin, set_contract_label, set_gasless}
use bignftd.Wasm.Keeper.Calls.{execute, sudo}
use bignftd.Wasm.Keeper.Addresses.{classic_address_generator, predictable_address_generator}
use bignftd.Wasm.Keeper.Instantiate.{instantiate}
use bignftd.Wasm.Keeper.Migrate.{migrate}

-- What the server reads of the keeper: the module's authority and the actions that governance hands
-- on to submessages.
pub record Governance : Type 0 where
  pub authority : Text
  pub propagated : List PolicyAction

-- The loop of `AddCodeUploadParamsAddresses`
unfoldable pub add_addresses : List Text → List Text → List Text
add_addresses addresses [] = addresses
add_addresses addresses (t ∷ rest) =
    if lists addresses t
    then add_addresses addresses rest
    else add_addresses (addresses ++ t ∷ []) rest

-- The loop of `RemoveCodeUploadParamsAddresses`
unfoldable pub remove_addresses : List Text → List Text → List Text
remove_addresses removed [] = []
remove_addresses removed (t ∷ addresses) =
    if lists removed t
    then remove_addresses removed addresses
    else t ∷ remove_addresses removed addresses

abbrev pub address_or_empty : Option Addr → Addr
address_or_empty none = []
address_or_empty (some a) = a

module _ (platform : Platform) (formats : Formats) (gov : Governance) where
  -- `if err := msg.ValidateBasic(); err != nil`
  abbrev pub checked : Result AccessError Unit → Action platform Unit
  checked (ok u) = pure tt
  checked (err e) = raise (invalid_message e)
  checked (panic p) = lift (panic p)

  abbrev pub parsed : Option Addr → Action platform Addr
  parsed none = raise invalid_address
  parsed (some a) = pure a

  -- `sdk.AccAddressFromBech32`
  unfoldable pub address : Text → Action platform Addr
  address t = parsed (platform.texts.from_bech32 t)

  abbrev pub some_address : Text → Action platform (Option Addr)
  some_address t = do a ← address t; pure (some a)

  -- The admin of a new contract; none for the empty text
  unfoldable pub admin_address : Text → Action platform (Option Addr)
  admin_address t = if text_eq t [] then pure none else some_address t

  abbrev pub policy_or_default : Option Policy → Policy
  policy_or_default none = default_policy
  policy_or_default (some p) = p

  -- `selectAuthorizationPolicy`
  unfoldable pub select_authorization_policy : Text → Context platform → Policy
  select_authorization_policy actor c =
      if text_eq actor gov.authority then gov_policy gov.propagated else policy_or_default c.policy

  -- `if authority != req.Authority`
  abbrev pub require_authority : Text → Action platform Unit
  require_authority t = require (text_eq gov.authority t) invalid

  -- `setContractAdmin`, after the sender and the contract were parsed
  unfoldable pub handle_update_admin : MsgUpdateAdmin → Action platform Unit
  handle_update_admin m = do
    checked (validate_update_admin platform.texts formats m)
    sender ← address m.sender
    contract ← address m.contract
    new_admin ← address m.new_admin
    policy ← gets (select_authorization_policy m.sender)
    set_contract_admin platform contract sender new_admin policy

  -- The new admin is the nil address.
  unfoldable pub handle_clear_admin : MsgClearAdmin → Action platform Unit
  handle_clear_admin m = do
    checked (validate_clear_admin platform.texts formats m)
    sender ← address m.sender
    contract ← address m.contract
    policy ← gets (select_authorization_policy m.sender)
    set_contract_admin platform contract sender [] policy

  unfoldable pub handle_update_label : MsgUpdateContractLabel → Action platform Unit
  handle_update_label m = do
    checked (validate_update_label platform.texts formats m)
    sender ← address m.sender
    contract ← address m.contract
    policy ← gets (select_authorization_policy m.sender)
    set_contract_label platform contract sender m.new_label policy

  -- A config that is missing does not pass the check.
  abbrev pub set_config : Option AccessConfig → ℕ → Addr → Policy → Action platform Unit
  set_config none code_id sender policy = lift (panic fatal)
  set_config (some config) code_id sender policy =
      set_access_config platform code_id sender config policy

  unfoldable pub handle_update_instantiate_config :
      MsgUpdateInstantiateConfig → Action platform Unit
  handle_update_instantiate_config m = do
    checked (validate_update_instantiate_config platform.texts formats m)
    sender ← address m.sender
    policy ← gets (select_authorization_policy m.sender)
    set_config m.new_instantiate_permission m.code_id sender policy

  -- `SetParams`
  abbrev pub set_params : WasmParams → Action platform Unit
  set_params p = modify (λ c. record c { params = p })

  unfoldable pub handle_update_params : MsgUpdateParams → Action platform Unit
  handle_update_params m = do
    checked (validate_update_params platform.texts formats m)
    require_authority m.authority
    set_params m.params

  -- The loops over the codes
  unfoldable pub pin_all : List ℕ → Action platform Unit
  pin_all [] = pure tt
  pin_all (code_id ∷ rest) = do pin_code platform code_id; pin_all rest

  unfoldable pub unpin_all : List ℕ → Action platform Unit
  unpin_all [] = pure tt
  unpin_all (code_id ∷ rest) = do unpin_code platform code_id; unpin_all rest

  unfoldable pub handle_pin_codes : MsgPinCodes → Action platform Unit
  handle_pin_codes m = do
    checked (validate_pin_codes platform.texts formats m)
    require_authority m.authority
    pin_all m.code_ids

  unfoldable pub handle_unpin_codes : MsgPinCodes → Action platform Unit
  handle_unpin_codes m = do
    checked (validate_pin_codes platform.texts formats m)
    require_authority m.authority
    unpin_all m.code_ids

  -- The parameters with other addresses that may upload
  abbrev pub with_upload_addresses : WasmParams → List Text → WasmParams
  with_upload_addresses p addresses = record p {
    code_upload_access = record p.code_upload_access { addresses = addresses };
  }

  unfoldable pub handle_add_upload_addresses : MsgCodeUploadParamsAddresses → Action platform Unit
  handle_add_upload_addresses m = do
    checked (validate_upload_addresses platform.texts formats m)
    require_authority m.authority
    params ← gets (λ c. c.params)
    require (is_any_of params.code_upload_access.permission) invalid
    set_params (
        with_upload_addresses params
          (add_addresses params.code_upload_access.addresses m.addresses))

  unfoldable pub handle_remove_upload_addresses :
      MsgCodeUploadParamsAddresses → Action platform Unit
  handle_remove_upload_addresses m = do
    checked (validate_upload_addresses platform.texts formats m)
    require_authority m.authority
    params ← gets (λ c. c.params)
    require (is_any_of params.code_upload_access.permission) invalid
    set_params (
        with_upload_addresses params
          (remove_addresses m.addresses params.code_upload_access.addresses))

  -- The loop of `SetGaslessContracts`, which drops the error of an address that does not parse
  unfoldable pub set_all_gasless : List Text → Action platform Unit
  set_all_gasless [] = pure tt
  set_all_gasless (t ∷ rest) = do
    set_gasless platform (address_or_empty (platform.texts.from_bech32 t))
    set_all_gasless rest

  unfoldable pub handle_set_gasless : MsgSetGaslessContracts → Action platform Unit
  handle_set_gasless m = do
    require (text_eq gov.authority m.authority) invalid_signer
    checked (validate_set_gasless platform.texts formats m)
    set_all_gasless m.contracts

  module _ (register : GasConfig) where
    -- The number of the code and its checksum
    unfoldable pub handle_store_code : MsgStoreCode → Action platform (ℕ × Text)
    handle_store_code m = do
      checked (validate_store_code platform.texts formats m)
      sender ← address m.sender
      policy ← gets (select_authorization_policy m.sender)
      create platform register (some sender) m.wasm_byte_code m.instantiate_permission policy

    module _
        (handle : Addr
          → Text
          → List platform.Msg
          → Option Text
          → Action platform (Option Text)) where
      -- The address of the contract and its data
      unfoldable pub handle_instantiate :
          MsgInstantiateContract → Action platform (Text × Option Text)
      handle_instantiate m = do
        checked (validate_instantiate platform.texts formats m)
        sender ← address m.sender
        admin ← admin_address m.admin
        policy ← gets (select_authorization_policy m.sender)
        made ←
            instantiate platform register handle m.code_id (some sender) admin m.msg m.label m.funds
              (classic_address_generator platform) policy
        pure (platform.texts.to_bech32 made.0, made.1)

      unfoldable pub handle_instantiate2 :
          MsgInstantiateContract2 → Action platform (Text × Option Text)
      handle_instantiate2 m = do
        checked (validate_instantiate2 platform.texts formats m)
        sender ← address m.sender
        admin ← admin_address m.admin
        policy ← gets (select_authorization_policy m.sender)
        made ←
            instantiate platform register handle m.code_id (some sender) admin m.msg m.label m.funds
              (predictable_address_generator platform sender m.salt m.msg m.fix_msg) policy
        pure (platform.texts.to_bech32 made.0, made.1)

      unfoldable pub handle_execute : MsgExecuteContract → Action platform (Option Text)
      handle_execute m = do
        checked (validate_execute platform.texts formats m)
        sender ← address m.sender
        contract ← address m.contract
        execute platform register handle contract sender m.msg m.funds

      unfoldable pub handle_migrate : MsgMigrateContract → Action platform (Option Text)
      handle_migrate m = do
        checked (validate_migrate platform.texts formats m)
        sender ← address m.sender
        contract ← address m.contract
        policy ← gets (select_authorization_policy m.sender)
        migrate platform register handle contract sender m.code_id m.msg policy

      unfoldable pub handle_sudo : MsgSudoContract → Action platform (Option Text)
      handle_sudo m = do
        checked (validate_sudo platform.texts formats m)
        require_authority m.authority
        contract ← address m.contract
        sudo platform register handle contract m.msg

      unfoldable pub handle_store_and_instantiate :
          MsgStoreAndInstantiateContract → Action platform (Text × Option Text)
      handle_store_and_instantiate m = do
        checked (validate_store_and_instantiate platform.texts formats m)
        sender ← address m.authority
        admin ← admin_address m.admin
        policy ← gets (select_authorization_policy m.authority)
        stored ←
            create platform register (some sender) m.wasm_byte_code m.instantiate_permission policy
        made ←
            instantiate platform register handle stored.0 (some sender) admin m.msg m.label m.funds
              (classic_address_generator platform) policy
        pure (platform.texts.to_bech32 made.0, made.1)

      -- The number of the new code, its checksum and the contract's data
      unfoldable pub handle_store_and_migrate :
          MsgStoreAndMigrateContract → Action platform (ℕ × Text × Option Text)
      handle_store_and_migrate m = do
        sender ← address m.authority
        checked (validate_store_and_migrate platform.texts formats m)
        policy ← gets (select_authorization_policy m.authority)
        stored ←
            create platform register (some sender) m.wasm_byte_code m.instantiate_permission policy
        contract ← address m.contract
        answer ← migrate platform register handle contract sender stored.0 m.msg policy
        pure (stored.0, stored.1, answer)
