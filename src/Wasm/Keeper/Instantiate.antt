-- ===== src/Wasm/Keeper/Instantiate.antt =====
-- `instantiate` (x/wasm/keeper/keeper.go): a new contract of a stored code.
use bignftd.Base.{
  ℕ, Text, codes, Bool, true, false, not, ◌||◌, Option, none, some, List, [], ◌∷◌, ◌==◌,
}
use bignftd.Chain.Outcome.{◌>>=◌, ◌>>◌, pure, raise, gets, modify, require, or_raise}
use bignftd.Chain.Sdk.{Addr, Coins}
use bignftd.Wasm.Gas.{GasConfig}
use bignftd.Wasm.Policy.{Policy, PolicyAction, can_instantiate_contract, submessage_policy}
use bignftd.Wasm.Contract.{ContractInfo, CodeInfo, initial_history, new_contract_info}
use bignftd.Wasm.Keeper.Platform.{
  Platform, Action, Account, instantiate_call, with_panic, call_world, emit_event, with_policy,
  unauthorized, vm_error, no_such_code, empty, duplicate, account_exists, instantiate_failed,
  prune_failed,
}
use bignftd.Wasm.Keeper.Gas.{current_position}
use bignftd.Wasm.Keeper.Code.{get_code_info, code_attribute}
use bignftd.Wasm.Keeper.History.{
  append_to_contract_history, add_to_contract_code_secondary_index,
  add_to_contract_creator_secondary_index,
}
use bignftd.Wasm.Keeper.Contracts.{has_contract_info, must_store_contract_info}
use bignftd.Wasm.Keeper.Addresses.{AddressGenerator}
use bignftd.Wasm.Keeper.Response.{call_vm, response_of, handle_contract_response}
use bignftd.Wasm.Keeper.Calls.{pay_call, transfer_coins}

module _ (platform : Platform) where
  abbrev pub create_account : Addr → Action platform Unit
  create_account addr = modify (λ c. record c { world = platform.set_new_account addr c.world })

  -- `CleanupExistingAccount`: an error, or whether the account was handled.
  abbrev pub cleaned : Option Bool → Action platform Unit
  cleaned none = raise prune_failed
  cleaned (some false) = raise account_exists
  cleaned (some true) = pure tt

  abbrev pub prune_account : Addr → Action platform Unit
  prune_account addr c =
      let (handled, w) = platform.cleanup_account addr c.world in
      cleaned handled (record c { world = w })

  -- The account at the address of the new contract: none of an external user, kept if its type is
  -- accepted, and else replaced.
  abbrev pub claim_existing : Addr → Bool → Action platform Unit
  claim_existing addr true = pure tt
  claim_existing addr false = create_account addr >> prune_account addr

  unfoldable pub claim_account : Addr → Option Account → Action platform Unit
  claim_account addr none = create_account addr
  claim_account addr (some account) = do
    require (not (not (account.sequence == 0) || account.has_pub_key)) account_exists
    claim_existing addr account.is_accepted_type

  -- `ensureIbcPort`, for a code that wants one
  abbrev pub port_for : Addr → Bool → Action platform Text
  port_for addr false = pure []
  port_for addr true = call_world platform (platform.ensure_ibc_port addr)

  abbrev pub require_creator : Option Addr → Action platform Addr
  require_creator none = raise empty
  require_creator (some creator) = pure creator

  -- The records of a new contract: both indexes, the history and the contract itself.
  unfoldable pub persist_instance : Addr → Addr → ContractInfo → Text → Action platform Unit
  persist_instance addr creator info init_msg = do
    add_to_contract_code_secondary_index platform addr (initial_history info init_msg)
    add_to_contract_creator_secondary_index platform creator info.created addr
    append_to_contract_history platform addr (initial_history info init_msg ∷ [])
    must_store_contract_info platform addr info

  module _ (register : GasConfig)
      (handle : Addr → Text → List platform.Msg → Option Text → Action platform (Option Text)) where
    -- `instantiate` from the call of the machine on, at the address of the new contract
    unfoldable pub run_instantiate :
        ℕ
        → CodeInfo
        → Addr
        → Option Addr
        → Text
        → Text
        → Coins
        → Policy
        → Addr
        → Action platform (Addr × Option Text)
    run_instantiate code_id code creator admin init_msg label deposit policy addr = do
      result ←
          call_vm platform register
            (instantiate_call (platform.texts.to_bech32 creator) deposit init_msg) code.code_hash
            addr
      r ← response_of platform register instantiate_failed result
      created ← current_position platform register
      analysed ← gets (λ c. platform.analyze_code code.code_hash c.world)
      report ← or_raise analysed vm_error
      port ← port_for addr report.has_ibc_entry_points
      let info = record (new_contract_info platform.texts code_id creator admin label created) {
        ibc_port_id = port;
      }
      persist_instance addr creator info init_msg
      emit_event platform (record {
        kind = codes "instantiate";
        attributes =
            (codes "_contract_address", platform.texts.to_bech32 addr)
            ∷ code_attribute platform code_id
            ∷ [];
      })
      reply_data ←
          with_policy platform (submessage_policy policy PolicyAction.instantiate)
            (handle_contract_response platform register handle addr port r)
      pure (addr, reply_data)

    -- `instantiate`
    unfoldable pub instantiate :
        ℕ
        → Option Addr
        → Option Addr
        → Text
        → Text
        → Coins
        → AddressGenerator platform
        → Policy
        → Action platform (Addr × Option Text)
    instantiate code_id sender admin init_msg label deposit address_generator policy = do
      creator ← require_creator sender
      found ← get_code_info platform code_id
      code ← or_raise found no_such_code
      pay_call platform register code_id code.code_hash init_msg
      allowed ← with_panic platform (
          can_instantiate_contract policy code.instantiate_config
            (platform.texts.to_bech32 creator))
      require allowed unauthorized
      addr ← address_generator code_id code.code_hash
      known ← has_contract_info platform addr
      require (not known) duplicate
      account ← gets (λ c. platform.get_account addr c.world)
      claim_account addr account
      transfer_coins platform register creator addr deposit
      run_instantiate code_id code creator admin init_msg label deposit policy addr
