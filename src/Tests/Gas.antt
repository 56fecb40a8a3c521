-- ===== src/Tests/Gas.antt =====
-- The theorems on prices, access and policies at work.
use bignftd.Base.{ℕ, ◌-◌, ◌*◌, codes, ◌≡◌, refl, true, List, [], ◌∷◌, arith, text_eq}
use bignftd.Chain.Outcome.{ok}
use bignftd.Wasm.Gas.{
  default_gas_config, Attribute, WasmEvent, u64_mod, event_costs, to_wasm_vm_gas, from_wasm_vm_gas,
}
use bignftd.Wasm.Gas.FreeTier.{event_costs-eq}
use bignftd.Wasm.Gas.Conversion.{from_wasm_vm_gas-to_wasm_vm_gas, to_wasm_vm_gas_misses_overflow}
use bignftd.Wasm.Access.{
  AccessConfig, any_of_addresses, is_subset, is_subset_of, is_subset_list, count_matches, lists,
  allowed, allowed_by,
}
use bignftd.Wasm.Position.{Position}

from_wasm_vm_gas-to_wasm_vm_gas_example :
    (to_wasm_vm_gas default_gas_config 60_000 ≡ ok 8_400_000_000)
    × (from_wasm_vm_gas default_gas_config 8_400_000_000 ≡ 60_000)
from_wasm_vm_gas-to_wasm_vm_gas_example =
    from_wasm_vm_gas-to_wasm_vm_gas default_gas_config 60_000 (omega arith) (omega arith)

to_wasm_vm_gas_misses_overflow_example :
    to_wasm_vm_gas default_gas_config 140_000_000_000_000
    ≡ ok (140_000_000_000_000 * 140_000 - u64_mod)
to_wasm_vm_gas_misses_overflow_example =
    to_wasm_vm_gas_misses_overflow default_gas_config 140_000_000_000_000 (omega arith)
      (omega arith)

abbrev attributes : List Attribute
attributes = record { key = codes "action"; value = codes "transfer" } ∷ []

abbrev events : List WasmEvent
events = record { kind = codes "moved"; attributes = attributes } ∷ []

event_costs-eq_example : event_costs default_gas_config attributes events ≡ ok 45
event_costs-eq_example =
    event_costs-eq default_gas_config attributes events (omega arith) (omega arith)

abbrev one : AccessConfig
one = record { permission = any_of_addresses; addresses = codes "alice" ∷ [] }

abbrev two : AccessConfig
two = record { permission = any_of_addresses; addresses = codes "bob" ∷ codes "alice" ∷ [] }

one_in_two : is_subset one two ≡ true
unfolding is_subset is_subset_of is_subset_list count_matches lists text_eq
one_in_two = refl

alice_allowed : allowed one (codes "alice") ≡ ok true
unfolding allowed allowed_by lists text_eq
alice_allowed = refl

abbrev at : ℕ → ℕ → Position
at height index = record { block_height = height; tx_index = index }
