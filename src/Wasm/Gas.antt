-- ===== src/Wasm/Gas.antt =====
-- x/wasm/types/gas_register.go: the prices of the wasm module, in uint64 arithmetic.
pub mod FreeTier
pub mod Conversion
use bignftd.Base.{
  ℕ, suc, ◌+◌, ◌-◌, ◌*◌, ◌/◌, ◌%◌, ◌^◌, Text, Bool, true, false, Option, none, some, List, [], ◌∷◌,
  ◌++◌, length, ltb, leb, ◌==◌, if◌then◌else◌,
}
use bignftd.Chain.Outcome.{Result, ok, err, panic, fatal, out_of_gas}
use bignftd.Chain.Checks.{◌>>=◌}
use bignftd.Chain.Sdk.{ℤ, pos, negsuc}

abbrev pub u64_mod : ℕ
u64_mod = 2 ^ 64

-- `a + b` and `a * b` on uint64.
abbrev pub add64 : ℕ → ℕ → ℕ
add64 a b = (a + b) % u64_mod

abbrev pub mul64 : ℕ → ℕ → ℕ
mul64 a b = (a * b) % u64_mod

-- A call with no error, which may panic.
abbrev pub Priced : Type 0 → Type 0
Priced = Result ⊥

-- `wasmvmtypes.UFraction`
pub record UFraction : Type 0 where
  pub numerator : ℕ
  pub denominator : ℕ

-- `WasmGasRegisterConfig`
pub record GasConfig : Type 0 where
  pub instance_cost : ℕ
  pub instance_cost_discount : ℕ
  pub compile_cost : ℕ
  pub uncompress_cost : UFraction
  pub gas_multiplier : ℕ
  pub event_per_attribute_cost : ℕ
  pub event_attribute_data_cost : ℕ
  pub event_attribute_data_free_tier : ℕ
  pub contract_message_data_cost : ℕ
  pub custom_event_cost : ℕ

-- The default prices.
abbrev pub default_gas_multiplier : ℕ
default_gas_multiplier = 140_000

abbrev pub default_instance_cost : ℕ
default_instance_cost = 60_000

abbrev pub default_instance_cost_discount : ℕ
default_instance_cost_discount = 2_000

abbrev pub default_compile_cost : ℕ
default_compile_cost = 3

abbrev pub default_event_attribute_data_cost : ℕ
default_event_attribute_data_cost = 1

abbrev pub default_contract_message_data_cost : ℕ
default_contract_message_data_cost = 0

abbrev pub default_per_attribute_cost : ℕ
default_per_attribute_cost = 10

abbrev pub default_per_custom_event_cost : ℕ
default_per_custom_event_cost = 20

abbrev pub default_event_attribute_data_free_tier : ℕ
default_event_attribute_data_free_tier = 100

-- `DefaultGasRegisterConfig`
abbrev pub default_gas_config : GasConfig
default_gas_config = record {
  instance_cost = default_instance_cost;
  instance_cost_discount = default_instance_cost_discount;
  compile_cost = default_compile_cost;
  uncompress_cost = record { numerator = 15; denominator = 100 };
  gas_multiplier = default_gas_multiplier;
  event_per_attribute_cost = default_per_attribute_cost;
  event_attribute_data_cost = default_event_attribute_data_cost;
  event_attribute_data_free_tier = default_event_attribute_data_free_tier;
  contract_message_data_cost = default_contract_message_data_cost;
  custom_event_cost = default_per_custom_event_cost;
}

-- `wasmvmtypes.EventAttribute` and `wasmvmtypes.Event`.
pub record Attribute : Type 0 where
  pub key : Text
  pub value : Text

pub record WasmEvent : Type 0 where
  pub kind : Text
  pub attributes : List Attribute

-- `wasmvmtypes.SubMsgResponse` and `wasmvmtypes.SubMsgResult`, as far as they are priced.
pub record SubMsgResponse : Type 0 where
  pub events : List WasmEvent
  pub response_data : Text

pub record SubMsgResult : Type 0 where
  pub response : Option SubMsgResponse
  pub error : Text

-- `NewWasmGasRegister`
unfoldable pub new_gas_register : GasConfig → Priced GasConfig
new_gas_register c = if c.gas_multiplier == 0 then panic fatal else ok c

-- `UncompressCosts`; the product of a fraction, rounded down, is that of wasmvm.
unfoldable pub uncompress_costs : (UFraction → ℕ → ℕ) → GasConfig → ℤ → Priced ℕ
uncompress_costs mul_floor g (pos n) = ok (mul_floor g.uncompress_cost n)
uncompress_costs mul_floor g (negsuc n) = panic fatal

-- `SetupContractCost`
unfoldable pub setup_contract_cost : GasConfig → Bool → ℤ → Priced ℕ
setup_contract_cost g discount (negsuc n) = panic fatal
setup_contract_cost g discount (pos n) =
    let data_cost = mul64 n g.contract_message_data_cost in
    if discount
    then ok (add64 g.instance_cost_discount data_cost)
    else ok (add64 g.instance_cost data_cost)

-- `calcWithFreeTier`
unfoldable pub calc_with_free_tier : ℕ → ℕ → ℕ × ℕ
calc_with_free_tier stored_bytes free_tier =
    if leb stored_bytes free_tier
    then (0, free_tier - stored_bytes)
    else (stored_bytes - free_tier, 0)

-- The loop that sums the bytes of the attributes.
unfoldable pub sum_bytes : ℕ → List Attribute → ℕ
sum_bytes acc [] = acc
sum_bytes acc (a ∷ attrs) = sum_bytes (add64 acc (add64 (length a.key) (length a.value))) attrs

-- A sum of products that is not a uint64 is a panic.
abbrev pub checked64 : ℕ → ℕ → Priced (ℕ × ℕ)
checked64 r free_tier = if ltb r u64_mod then ok (r, free_tier) else panic out_of_gas

-- `eventAttributeCosts`
unfoldable pub event_attribute_costs : GasConfig → List Attribute → ℕ → Priced (ℕ × ℕ)
event_attribute_costs g [] free_tier = ok (0, free_tier)
event_attribute_costs g (a ∷ attrs) free_tier =
    let (stored_bytes, rest) = calc_with_free_tier (sum_bytes 0 (a ∷ attrs)) free_tier in
    checked64
      (g.event_attribute_data_cost * stored_bytes + g.event_per_attribute_cost * length (a ∷ attrs))
      rest

-- The loop over the events, with the gas so far and the free tier that is left.
unfoldable pub event_loop : GasConfig → ℕ → ℕ → List WasmEvent → Priced ℕ
event_loop g gas free_tier [] = ok gas
event_loop g gas free_tier (e ∷ events) = event_attribute_costs g e.attributes free_tier >>= λ cost.
    event_loop g
      (add64
        (add64 (add64 gas g.custom_event_cost) (mul64 (length e.kind) g.event_attribute_data_cost))
        cost.0)
      cost.1 events

-- `EventCosts`
unfoldable pub event_costs : GasConfig → List Attribute → List WasmEvent → Priced ℕ
event_costs g attrs events =
    event_attribute_costs g attrs g.event_attribute_data_free_tier >>= λ cost.
    event_loop g cost.0 cost.1 events

-- The loop over the events of a reply: the gas of their types, and all their attributes.
unfoldable pub reply_loop : GasConfig → ℕ → List Attribute → List WasmEvent → ℕ × List Attribute
reply_loop g gas attrs [] = (gas, attrs)
reply_loop g gas attrs (e ∷ events) =
    reply_loop g (add64 gas (mul64 (length e.kind) g.event_attribute_data_cost))
      (attrs ++ e.attributes) events

abbrev pub reply_event_gas : GasConfig → Option SubMsgResponse → Priced ℕ
reply_event_gas g none = ok 0
reply_event_gas g (some r) =
    let (gas, attrs) = reply_loop g 0 [] r.events in
    event_costs g attrs [] >>= λ cost. ok (add64 gas cost)

abbrev pub reply_length : SubMsgResult → ℕ
reply_length r = elim r.response [
  | none ↦ length r.error
  | some s ↦ length r.error + length s.response_data
]

-- `ReplyCosts`
unfoldable pub reply_costs : GasConfig → Bool → SubMsgResult → Priced ℕ
reply_costs g discount r = reply_event_gas g r.response >>= λ event_gas.
    setup_contract_cost g discount (pos (reply_length r)) >>= λ setup. ok (add64 event_gas setup)

-- `ToWasmVMGas`
unfoldable pub to_wasm_vm_gas : GasConfig → ℕ → Priced ℕ
to_wasm_vm_gas g source =
    let x = mul64 source g.gas_multiplier in if ltb x source then panic out_of_gas else ok x

-- `FromWasmVMGas`
unfoldable pub from_wasm_vm_gas : GasConfig → ℕ → ℕ
from_wasm_vm_gas g source = source / g.gas_multiplier
