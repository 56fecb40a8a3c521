-- ===== src/Wasm/Keeper/Calls.antt =====
-- The entry points of a contract that exists: execute, sudo, reply and query
-- (x/wasm/keeper/keeper.go).
use bignftd.Base.{map, none, some, [], ℕ, Text, codes, Bool, true, false, not, Option, List, ◌∷◌}
use bignftd.Chain.Outcome.{ok, err, panic, fatal, ◌>>=◌, ◌>>◌, gets, when}
use bignftd.Chain.Sdk.{Addr, Coins}
use bignftd.Wasm.Gas.{Attribute, WasmEvent, GasConfig, SubMsgResult, reply_costs}
use bignftd.Wasm.Dispatcher
use bignftd.Wasm.Dispatcher.{Event, Reply, success, failure}
use bignftd.Wasm.Keeper.Platform.{
  Platform, Action, VmResult, failed, missing, contract_error, responded, vm_error, execute_call,
  sudo_call, reply_call, execute_failed, query_failed, with_panic, call_world, emit_event,
  with_meter,
}
use bignftd.Wasm.Keeper.Gas.{
  consume_gas, pay_setup, new_env, runtime_gas_for_contract, consume_runtime_gas,
}
use bignftd.Wasm.Keeper.Code.{is_pinned_code}
use bignftd.Wasm.Keeper.Contracts.{contract_instance, is_gasless}
use bignftd.Wasm.Keeper.Response.{call_vm, response_of, after_machine, handle_contract_response}
use bignftd.Wasm.Keeper.Depth.{check_and_increase_query_stack_size}

-- A result as the gas register reads it.
abbrev pub priced_attribute : Text × Text → Attribute
priced_attribute (key, value) = record { key = key; value = value }

abbrev pub priced_event : Event → WasmEvent
priced_event e = record { kind = e.kind; attributes = map priced_attribute e.attributes }

abbrev pub priced_result : Dispatcher.SubMsgResult → SubMsgResult
priced_result (success events d responses) = record {
  response = some (record { events = map priced_event events; response_data = d });
  error = [];
}
priced_result (failure t) = record { response = none; error = t }

module _ (platform : Platform) (register : GasConfig) where
  -- The event of a call, which names the contract.
  abbrev pub call_event : Text → Addr → Action platform Unit
  call_event kind addr = emit_event platform (record {
    kind = kind;
    attributes = (codes "_contract_address", platform.texts.to_bech32 addr) ∷ [];
  })

  -- The price of a call of a stored contract; the discount depends on whether its code is pinned.
  abbrev pub pay_call : ℕ → Text → Text → Action platform Unit
  pay_call code_id checksum msg = do
    pinned ← is_pinned_code platform code_id
    pay_setup platform register checksum pinned msg

  -- `TransferCoins`, unless there are none
  abbrev pub transfer_coins : Addr → Addr → Coins → Action platform Unit
  transfer_coins sender receiver coins =
      when (not (platform.is_zero_coins coins))
        (call_world platform (platform.transfer_coins sender receiver coins))

  module _
      (handle : Addr → Text → List platform.Msg → Option Text → Action platform (Option Text)) where
    unfoldable pub run_execute : Addr → Addr → Text → Coins → Action platform (Option Text)
    run_execute addr caller msg coins = do
      found ← contract_instance platform addr
      pay_call found.0.code_id found.1.code_hash msg
      transfer_coins caller addr coins
      result ←
          call_vm platform register (execute_call (platform.texts.to_bech32 caller) coins msg)
            found.1.code_hash addr
      r ← response_of platform register execute_failed result
      call_event (codes "execute") addr
      handle_contract_response platform register handle addr found.0.ibc_port_id r

    -- A contract that pays no gas runs on an infinite meter.
    abbrev pub on_free_meter : {A : Type 0} → Bool → Action platform A → Action platform A
    on_free_meter true m = with_meter platform platform.infinite_meter m
    on_free_meter false m = m

    -- `execute`
    unfoldable pub execute : Addr → Addr → Text → Coins → Action platform (Option Text)
    execute addr caller msg coins = do
      gasless ← is_gasless platform addr
      on_free_meter gasless (run_execute addr caller msg coins)

    -- `Sudo`
    unfoldable pub sudo : Addr → Text → Action platform (Option Text)
    sudo addr msg = do
      found ← contract_instance platform addr
      pay_call found.0.code_id found.1.code_hash msg
      result ← call_vm platform register (sudo_call msg) found.1.code_hash addr
      r ← response_of platform register execute_failed result
      call_event (codes "sudo") addr
      handle_contract_response platform register handle addr found.0.ibc_port_id r

    -- `reply`
    unfoldable pub reply : Addr → Reply → Action platform (Option Text)
    reply addr message = do
      found ← contract_instance platform addr
      cost ← with_panic platform (reply_costs register true (priced_result message.result))
      consume_gas platform register cost
      result ← call_vm platform register (reply_call message) found.1.code_hash addr
      r ← response_of platform register execute_failed result
      call_event (codes "reply") addr
      handle_contract_response platform register handle addr found.0.ibc_port_id r

  -- The errors that follow a query; a nil result is a panic.
  unfoldable pub answer_of : VmResult Text → Action platform Text
  answer_of failed c = (err vm_error, c)
  answer_of missing c = (panic fatal, c)
  answer_of (contract_error t) c = (err query_failed, c)
  answer_of (responded answer) c = (ok answer, c)

  -- `QuerySmart`, but for the size of the stack, which is that of the query only
  unfoldable pub run_query : Addr → Text → Action platform Text
  run_query addr req = do
    found ← contract_instance platform addr
    pay_call found.0.code_id found.1.code_hash req
    env ← new_env platform register addr
    gas_left ← runtime_gas_for_contract platform register
    out ← gets (λ c.
        platform.vm_query req found.1.code_hash addr env gas_left c.kv c.world c.meter
          c.query_stack_size)
    after_machine platform register addr out
    consume_runtime_gas platform register out.gas_used
    answer_of out.result

  -- `QuerySmart`
  unfoldable pub query_smart : ℕ → Addr → Text → Action platform Text
  query_smart max_query_stack_size addr req c =
      let (r, c') =
        (check_and_increase_query_stack_size platform max_query_stack_size >> run_query addr req)
          c in
      (r, record c' { query_stack_size = c.query_stack_size })
