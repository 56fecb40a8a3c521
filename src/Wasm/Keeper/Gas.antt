-- ===== src/Wasm/Keeper/Gas.antt =====
-- The gas of a call, the discount for contracts that are loaded already, and the environment
-- (x/wasm/keeper/keeper.go, x/wasm/types/types.go).
use bignftd.Base.{
  ℕ, ◌+◌, ◌-◌, ◌%◌, ◌==◌, ltb, Text, Bool, true, false, Option, none, some, List, [], ◌∷◌, length,
  if◌then◌else◌,
}
use bignftd.Chain.Outcome.{Result, ok, panic, Panic, out_of_gas, fatal, ◌>>=◌, ◌>>◌}
use bignftd.Chain.Sdk.{ℤ, pos, negsuc}
use bignftd.Wasm.Gas.{
  Priced, GasConfig, u64_mod, to_wasm_vm_gas, from_wasm_vm_gas, setup_contract_cost,
}
use bignftd.Wasm.Access.{lists}
use bignftd.Wasm.Position.{Position, new_position}
use bignftd.Wasm.Keeper.Platform.{Platform, Context, Action, Block, Env, KeeperError, with_panic}

-- `AddContract`: no bytes are not a checksum.
abbrev pub add_contract : Text → List Text → List Text
add_contract [] contracts = contracts
add_contract (c ∷ checksum) contracts = (c ∷ checksum) ∷ contracts

module _ (platform : Platform) (register : GasConfig) where
  abbrev pub on_meter :
      Option Panic × platform.Meter → Context platform → Result KeeperError Unit × Context platform
  on_meter (none, m) c = (ok tt, record c { meter = m })
  on_meter (some p, m) c = (panic p, record c { meter = m })

  -- `GasMeter().ConsumeGas`
  unfoldable pub consume_gas : ℕ → Action platform Unit
  consume_gas n c = on_meter (platform.consume n c.meter) c

  -- `runtimeGasForContract`
  unfoldable pub runtime_gas_for_contract : Action platform ℕ
  runtime_gas_for_contract c =
      if platform.is_out_of_gas c.meter
      then (ok 0, c)
      else if platform.limit c.meter == u64_mod - 1
      then (ok (u64_mod - 1), c)
      else with_panic platform
          (to_wasm_vm_gas register
            ((platform.limit c.meter + u64_mod - platform.consumed_to_limit c.meter) % u64_mod))
          c

  abbrev pub check_gas_left : Action platform Unit
  check_gas_left c = if platform.is_out_of_gas c.meter then (panic out_of_gas, c) else (ok tt, c)

  -- `consumeRuntimeGas`
  unfoldable pub consume_runtime_gas : ℕ → Action platform Unit
  consume_runtime_gas gas = consume_gas (from_wasm_vm_gas register gas) >> check_gas_left

  abbrev pub discount_in : Option (List Text) → Text → Context platform → Bool × Context platform
  discount_in none checksum c = (false, c)
  discount_in (some contracts) checksum c =
      if lists contracts checksum
      then (true, c)
      else (false, record c { tx_contracts = some (add_contract checksum contracts) })

  -- `checkDiscountEligibility`
  unfoldable pub check_discount_eligibility : Text → Bool → Action platform Bool
  check_discount_eligibility checksum true c = (ok true, c)
  check_discount_eligibility checksum false c =
      let (discount, c') = discount_in c.tx_contracts checksum c in (ok discount, c')

  -- The price of loading a contract, which depends on the discount, is paid.
  unfoldable pub pay_setup : Text → Bool → Text → Action platform Unit
  pay_setup checksum is_pinned msg = do
    discount ← check_discount_eligibility checksum is_pinned
    cost ← with_panic platform (setup_contract_cost register discount (pos (length msg)))
    consume_gas cost

  abbrev pub env_of : ℤ → ℤ → Block → Text → Priced Env
  env_of (negsuc n) time block contract = panic fatal
  env_of (pos height) (negsuc n) block contract = panic fatal
  env_of (pos height) (pos time) block contract =
      if ltb time 1
      then panic fatal
      else ok (record {
        height = height;
        time = time;
        chain_id = block.chain_id;
        tx_index = block.tx_counter;
        contract = contract;
      })

  -- `NewEnv`: a height below 0, or a time before 1, is a panic.
  unfoldable pub new_env : Text → Action platform Env
  new_env addr c =
      with_panic platform
        (env_of c.block.height c.block.time c.block (platform.texts.to_bech32 addr)) c

  -- `NewAbsoluteTxPosition` of the context
  unfoldable pub current_position : Action platform Position
  current_position c = with_panic platform (new_position c.block.gas c.block.height) c
