-- ===== src/Wasm/Keeper/Migrate.antt =====
-- `migrate` (x/wasm/keeper/keeper.go): a contract changes its code.
pub mod Authority
use bignftd.Base.{
  ℕ, Text, codes, text_eq, Bool, true, false, not, ◌&&◌, Option, none, some, List, [], ◌∷◌, ◌==◌,
}
use bignftd.Chain.Outcome.{
  Result, ok, err, panic, ◌>>=◌, ◌>>◌, pure, raise, gets, require, or_raise,
}
use bignftd.Chain.Sdk.{Addr}
use bignftd.Wasm.Gas.{GasConfig}
use bignftd.Wasm.Policy.{Policy, PolicyAction, can_instantiate_contract, submessage_policy}
use bignftd.Wasm.Contract.{ContractInfo, CodeInfo, add_migration}
use bignftd.Wasm.Keeper.Platform.{
  Platform, Context, Action, Response, Report, migrate_call, with_panic, must, call_world,
  emit_event, with_policy, unauthorized, vm_error, invalid_request, migration_failed,
}
use bignftd.Wasm.Keeper.Gas.{current_position}
use bignftd.Wasm.Keeper.Code.{get_code_info, code_attribute}
use bignftd.Wasm.Keeper.History.{
  append_to_contract_history, add_to_contract_code_secondary_index,
  remove_from_contract_code_secondary_index, must_get_last_contract_history_entry,
}
use bignftd.Wasm.Keeper.Contracts.{
  get_contract_info, must_store_contract_info, require_contract, require_modifier,
}
use bignftd.Wasm.Keeper.Response.{call_vm, response_of, handle_contract_response}
use bignftd.Wasm.Keeper.Calls.{pay_call}

-- The entry point is not called where both codes name one version.
unfoldable pub needs_migration : Option ℕ → Option ℕ → Bool
needs_migration none old = true
needs_migration (some new) none = true
needs_migration (some new) (some old) = not (new == old)

module _ (platform : Platform) where
  -- The port of the contract with the new code.
  abbrev pub port_with : Addr → Bool → Bool → Text → Action platform Text
  port_with addr false false port = raise migration_failed
  port_with addr false true port = pure port
  port_with addr true false port = pure port
  port_with addr true true port = call_world platform (platform.ensure_ibc_port addr)

  -- The records of a migrated contract; the position is that of the context.
  unfoldable pub persist_migration :
      GasConfig → Addr → ContractInfo → ℕ → Text → Action platform Unit
  persist_migration register addr info code_id msg = do
    last ← must_get_last_contract_history_entry platform addr
    remove_from_contract_code_secondary_index platform addr last
    position ← current_position platform register
    append_to_contract_history platform addr ((add_migration info code_id position msg).0 ∷ [])
    add_to_contract_code_secondary_index platform addr (add_migration info code_id position msg).0
    must_store_contract_info platform addr (add_migration info code_id position msg).1

  module _ (register : GasConfig)
      (handle : Addr → Text → List platform.Msg → Option Text → Action platform (Option Text)) where
    -- `callMigrateEntrypoint`
    unfoldable pub call_migrate_entrypoint :
        Addr → Text → Text → ℕ → Action platform (Response platform.Msg)
    call_migrate_entrypoint addr checksum msg code_id = do
      pay_call platform register code_id checksum msg
      result ← call_vm platform register (migrate_call msg) checksum addr
      response_of platform register migration_failed result

    abbrev pub call_if :
        Bool → Addr → Text → Text → ℕ → Action platform (Option (Response platform.Msg))
    call_if false addr checksum msg code_id = pure none
    call_if true addr checksum msg code_id = do
      r ← call_migrate_entrypoint addr checksum msg code_id
      pure (some r)

    abbrev pub respond :
        Policy → Addr → Text → Option (Response platform.Msg) → Action platform (Option Text)
    respond policy addr port none = pure none
    respond policy addr port (some r) =
        with_policy platform (submessage_policy policy PolicyAction.migrate)
          (handle_contract_response platform register handle addr port r)

    -- What `migrate` does once the caller is allowed; a missing old code is a panic.
    unfoldable pub migrate_allowed :
        ContractInfo → CodeInfo → Addr → ℕ → Text → Policy → Action platform (Option Text)
    migrate_allowed info code addr new_code_id msg policy = do
      analysed ← gets (λ c. platform.analyze_code code.code_hash c.world)
      report ← or_raise analysed vm_error
      port ←
          port_with addr report.has_ibc_entry_points (text_eq info.ibc_port_id []) info.ibc_port_id
      stored ← get_code_info platform info.code_id
      old_code ← must platform stored
      old_analysed ← gets (λ c. platform.analyze_code old_code.code_hash c.world)
      old_report ← or_raise old_analysed vm_error
      response ←
          call_if (needs_migration report.migrate_version old_report.migrate_version) addr
            code.code_hash msg new_code_id
      persist_migration register addr (record info { ibc_port_id = port }) new_code_id msg
      emit_event platform (record {
        kind = codes "migrate";
        attributes =
            code_attribute platform new_code_id
            ∷ (codes "_contract_address", platform.texts.to_bech32 addr)
            ∷ [];
      })
      respond policy addr port response

    -- `migrate`
    unfoldable pub migrate : Addr → Addr → ℕ → Text → Policy → Action platform (Option Text)
    migrate addr caller new_code_id msg policy = do
      found ← get_contract_info platform addr
      info ← require_contract platform found
      require_modifier platform info caller policy
      new_code ← get_code_info platform new_code_id
      code ← or_raise new_code invalid_request
      allowed ← with_panic platform (
          can_instantiate_contract policy code.instantiate_config (platform.texts.to_bech32 caller))
      require allowed unauthorized
      migrate_allowed info code addr new_code_id msg policy
