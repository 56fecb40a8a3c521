-- ===== src/Wasm/MsgServer/Message.antt =====
-- All messages of the wasm module in one type, and the handler of each
-- (x/wasm/keeper/msg_server.go).
use bignftd.Base.{◌≡◌, Text, List, Option}
use bignftd.Chain.Outcome.{Result, ok, err, panic, ◌>>=◌, pure}
use bignftd.Chain.Sdk.{Addr}
use bignftd.Wasm.Gas.{GasConfig}
use bignftd.Wasm.Messages.{
  Formats, MsgStoreCode, MsgInstantiateContract, MsgInstantiateContract2, MsgExecuteContract,
  MsgMigrateContract, MsgUpdateAdmin, MsgClearAdmin, MsgUpdateInstantiateConfig, MsgUpdateParams,
  MsgPinCodes, MsgSudoContract, MsgStoreAndInstantiateContract, MsgCodeUploadParamsAddresses,
  MsgStoreAndMigrateContract, MsgUpdateContractLabel, MsgSetGaslessContracts,
}
use bignftd.Wasm.Keeper.Platform.{Platform, Context, Action, KeeperError}
use bignftd.Wasm.MsgServer.{
  Governance, handle_store_code, handle_instantiate, handle_instantiate2, handle_execute,
  handle_migrate, handle_update_admin, handle_clear_admin, handle_update_instantiate_config,
  handle_update_params, handle_pin_codes, handle_unpin_codes, handle_sudo,
  handle_store_and_instantiate, handle_add_upload_addresses, handle_remove_upload_addresses,
  handle_store_and_migrate, handle_update_label, handle_set_gasless,
}

pub data WasmMsg : Type 0 where
  store_code : MsgStoreCode → WasmMsg
  instantiate : MsgInstantiateContract → WasmMsg
  instantiate2 : MsgInstantiateContract2 → WasmMsg
  execute : MsgExecuteContract → WasmMsg
  migrate : MsgMigrateContract → WasmMsg
  update_admin : MsgUpdateAdmin → WasmMsg
  clear_admin : MsgClearAdmin → WasmMsg
  update_instantiate_config : MsgUpdateInstantiateConfig → WasmMsg
  update_params : MsgUpdateParams → WasmMsg
  pin_codes unpin_codes : MsgPinCodes → WasmMsg
  sudo : MsgSudoContract → WasmMsg
  store_and_instantiate : MsgStoreAndInstantiateContract → WasmMsg
  add_upload_addresses remove_upload_addresses : MsgCodeUploadParamsAddresses → WasmMsg
  store_and_migrate : MsgStoreAndMigrateContract → WasmMsg
  update_label : MsgUpdateContractLabel → WasmMsg
  set_gasless : MsgSetGaslessContracts → WasmMsg

-- The call returned no value, and has changed nothing.
abbrev pub IsRefused :
    {platform : Platform} {A : Type 0}
    → Context platform
    → Result KeeperError A × Context platform
    → Type 0
IsRefused c (ok a, c') = ⊥
IsRefused c (err e, c') = c' ≡ c
IsRefused c (panic p, c') = c' ≡ c

module _ (platform : Platform) (formats : Formats) (gov : Governance) (register : GasConfig)
    (handle : Addr → Text → List platform.Msg → Option Text → Action platform (Option Text)) where
  abbrev pub dropped : {A : Type 0} → Action platform A → Action platform Unit
  dropped m = do _ ← m; pure tt

  -- The handler that the message is routed to, its response dropped.
  unfoldable pub handle_message : WasmMsg → Action platform Unit
  handle_message (store_code m) = dropped (handle_store_code platform formats gov register m)
  handle_message (instantiate m) =
      dropped (handle_instantiate platform formats gov register handle m)
  handle_message (instantiate2 m) =
      dropped (handle_instantiate2 platform formats gov register handle m)
  handle_message (execute m) = dropped (handle_execute platform formats gov register handle m)
  handle_message (migrate m) = dropped (handle_migrate platform formats gov register handle m)
  handle_message (update_admin m) = handle_update_admin platform formats gov m
  handle_message (clear_admin m) = handle_clear_admin platform formats gov m
  handle_message (update_instantiate_config m) =
      handle_update_instantiate_config platform formats gov m
  handle_message (update_params m) = handle_update_params platform formats gov m
  handle_message (pin_codes m) = handle_pin_codes platform formats gov m
  handle_message (unpin_codes m) = handle_unpin_codes platform formats gov m
  handle_message (sudo m) = dropped (handle_sudo platform formats gov register handle m)
  handle_message (store_and_instantiate m) =
      dropped (handle_store_and_instantiate platform formats gov register handle m)
  handle_message (add_upload_addresses m) = handle_add_upload_addresses platform formats gov m
  handle_message (remove_upload_addresses m) = handle_remove_upload_addresses platform formats gov m
  handle_message (store_and_migrate m) =
      dropped (handle_store_and_migrate platform formats gov register handle m)
  handle_message (update_label m) = handle_update_label platform formats gov m
  handle_message (set_gasless m) = handle_set_gasless platform formats gov m
