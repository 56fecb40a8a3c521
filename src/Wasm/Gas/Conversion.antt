-- ===== src/Wasm/Gas/Conversion.antt =====
-- SDK gas to wasmvm gas and back (`ToWasmVMGas` and `FromWasmVMGas`).
use bignftd.Base.{ℕ, ◌+◌, ◌-◌, ◌*◌, ◌%◌, ◌≤◌, ◌<◌, ◌≡◌, arith}
use native.Mathlib.Nat.{mul-div_cancel}
use bignftd.Chain.Outcome.{ok}
use bignftd.Wasm.Gas.{GasConfig, u64_mod, to_wasm_vm_gas, from_wasm_vm_gas}

-- With a multiplier that is not 0 and a product that fits in 64 bits, gas is converted exactly and
-- comes back as it was.
pub from_wasm_vm_gas-to_wasm_vm_gas :
    (g : GasConfig) (source : ℕ)
    → 0 < g.gas_multiplier
    → source * g.gas_multiplier < u64_mod
    → (to_wasm_vm_gas g source ≡ ok (source * g.gas_multiplier))
      × (from_wasm_vm_gas g (source * g.gas_multiplier) ≡ source)
unfolding to_wasm_vm_gas from_wasm_vm_gas
from_wasm_vm_gas-to_wasm_vm_gas g source p fits =
    let grows : source ≤ source * g.gas_multiplier = grind arith in
    (ground (arith, grows), mul-div_cancel source p)

-- The test for an overflow misses every product that passes 2^64 once and wraps to no less than
-- the source: the gas that is returned is 2^64 too small.
pub to_wasm_vm_gas_misses_overflow :
    (g : GasConfig) (source : ℕ)
    → u64_mod + source ≤ source * g.gas_multiplier
    → source * g.gas_multiplier < u64_mod + u64_mod
    → to_wasm_vm_gas g source ≡ ok (source * g.gas_multiplier - u64_mod)
unfolding to_wasm_vm_gas
to_wasm_vm_gas_misses_overflow g source low high =
    let wraps : source * g.gas_multiplier % u64_mod ≡ source * g.gas_multiplier - u64_mod =
      omega arith in
    ground (arith, wraps)
