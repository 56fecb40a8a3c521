-- ===== src/Wasm/Keeper/Response.antt =====
-- The call of the machine, and the response of a contract (x/wasm/keeper/keeper.go).
pub mod Isolation
use bignftd.Base.{
  ℕ, zero, suc, Text, Bool, not, Option, none, some, List, [], ◌∷◌, ◌++◌, length, ◌==◌,
}
use bignftd.Chain.Outcome.{Result, ok, err, panic, ◌>>=◌, ◌>>◌, pure, raise, gets, when}
use bignftd.Chain.Store.{Store, set}
use bignftd.Chain.Sorted.{delete}
use bignftd.Chain.Sdk.{Addr}
use bignftd.Wasm.Gas.{GasConfig, event_costs}
use bignftd.Wasm.Keys.{get_contract_store_prefix}
use bignftd.Wasm.Events.{EventError, new_wasm_module_event, new_custom_events}
use bignftd.Wasm.Keeper.Platform.{
  Platform, Context, Action, Response, VmResult, failed, missing, contract_error, responded, VmCall,
  VmOutcome, KeeperError, vm_error, invalid_event, with_panic, emit_events,
}
use bignftd.Wasm.Keeper.Gas.{consume_gas, runtime_gas_for_contract, consume_runtime_gas, new_env}

-- One write of the machine to the store that it was given, which is that below a prefix.
unfoldable pub apply_write : Text → Text × Option Text → Store → Store
apply_write prefix (key, none) m = delete (prefix ++ key) m
apply_write prefix (key, some v) m = set (prefix ++ key) v m

unfoldable pub apply_writes : Text → List (Text × Option Text) → Store → Store
apply_writes prefix [] m = m
apply_writes prefix (w ∷ writes) m = apply_writes prefix writes (apply_write prefix w m)

module _ (platform : Platform) (register : GasConfig) where
  -- What a call of the machine leaves: its writes, and the meter after its queries.
  abbrev pub after_machine : {A : Type 0} → Addr → VmOutcome platform.Meter A → Action platform Unit
  after_machine addr out c = (
    ok tt,
    record c {
      kv = apply_writes (get_contract_store_prefix addr) out.writes c.kv;
      meter = out.meter;
    },
  )

  -- The call of the machine as all handlers make it: the environment, the gas that is left, the call
  -- and the payment of the gas that it used.
  unfoldable pub call_vm : VmCall → Text → Addr → Action platform (VmResult (Response platform.Msg))
  call_vm call checksum addr = do
    env ← new_env platform register addr
    gas_left ← runtime_gas_for_contract platform register
    out ←
        gets
          (λ c. platform.vm call checksum addr env gas_left c.kv c.world c.meter c.query_stack_size)
    after_machine addr out
    consume_runtime_gas platform register out.gas_used
    pure out.result

  -- The errors that follow a call of the machine; an error of the contract is wrapped by the handler.
  unfoldable pub response_of : {A : Type 0} → KeeperError → VmResult A → Action platform A
  response_of e failed = raise vm_error
  response_of e missing = raise vm_error
  response_of e (contract_error t) = raise e
  response_of e (responded r) = pure r

  abbrev pub with_event_error : {A : Type 0} → Result EventError A → Action platform A
  with_event_error (ok a) c = (ok a, c)
  with_event_error (err e) c = (err invalid_event, c)
  with_event_error (panic p) c = (panic p, c)

  -- `wasmVMResponseHandler.Handle` for the contract: its port, its messages and its data
  module _
      (handle : Addr → Text → List platform.Msg → Option Text → Action platform (Option Text)) where
    -- `handleContractResponse`
    unfoldable pub handle_contract_response :
        Addr → Text → Response platform.Msg → Action platform (Option Text)
    handle_contract_response addr ibc_port r = do
      cost ← with_panic platform (event_costs register r.attributes r.events)
      consume_gas platform register cost
      when (not (length r.attributes == 0)) (
          with_event_error (
            new_wasm_module_event platform.texts.trim_space r.attributes
              (platform.texts.to_bech32 addr))
          >>= emit_events platform)
      when (not (length r.events == 0)) (
          with_event_error
            (new_custom_events platform.texts.trim_space r.events (platform.texts.to_bech32 addr))
          >>= emit_events platform)
      handle addr ibc_port r.messages r.response_data

-- The data that the messages returned, or else those of the contract.
abbrev pub result_data : Option Text → Option Text → Option Text
result_data none original = original
result_data (some rsp) original = some rsp

-- `DefaultWasmVMContractResponseHandler.Handle`, over `DispatchSubmessages`
module _ (platform : Platform)
    (dispatch_submessages : Addr → Text → List platform.Msg → Action platform (Option Text)) where
  unfoldable pub handle_default :
      Addr → Text → List platform.Msg → Option Text → Action platform (Option Text)
  handle_default addr ibc_port messages original = do
    rsp ← dispatch_submessages addr ibc_port messages
    pure (result_data rsp original)
