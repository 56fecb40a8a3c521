-- ===== src/Wasm/Events.antt =====
-- x/wasm/keeper/events.go: the events that a contract's response asks for.
pub mod Reserved
use bignftd.Base.{
  ℕ, Text, codes, Bool, true, false, not, Option, none, some, List, [], ◌∷◌, ◌++◌, length, ◌==◌,
  leb, ltb, strip_prefix, if◌then◌else◌,
}
use bignftd.Chain.Outcome.{Result, ok, err}
use bignftd.Chain.Checks.{◌>>=◌, ◌>>◌, require}
use bignftd.Wasm.Gas.{Attribute, WasmEvent}
use bignftd.Wasm.Dispatcher.{Event}

-- The one error of this file.
pub data EventError : Type 0 where
  invalid_event : EventError

abbrev pub attribute_key_contract_addr : Text
attribute_key_contract_addr = codes "_contract_address"

abbrev pub attribute_reserved_prefix : Text
attribute_reserved_prefix = codes "_"

abbrev pub wasm_module_event_type : Text
wasm_module_event_type = codes "wasm"

abbrev pub custom_contract_event_prefix : Text
custom_contract_event_prefix = codes "wasm-"

abbrev pub event_type_min_length : ℕ
event_type_min_length = 2

-- `strings.HasPrefix(key, types.AttributeReservedPrefix)`
abbrev pub is_stripped : Option Text → Bool
is_stripped none = false
is_stripped (some rest) = true

unfoldable pub is_reserved : Text → Bool
is_reserved key = is_stripped (strip_prefix attribute_reserved_prefix key)

-- `strings.TrimSpace` is Go's.
module _ (trim_space : Text → Text) where
  -- The loop of `contractSDKEventAttributes`
  unfoldable pub custom_attributes : List Attribute → Result EventError (List (Text × Text))
  custom_attributes [] = ok []
  custom_attributes (a ∷ attrs) = do
    require (not (length (trim_space a.key) == 0)) invalid_event
    require (not (is_reserved (trim_space a.key))) invalid_event
    rest ← custom_attributes attrs
    ok ((trim_space a.key, trim_space a.value) ∷ rest)

  -- `contractSDKEventAttributes`
  unfoldable pub contract_sdk_event_attributes :
      List Attribute → Text → Result EventError (List (Text × Text))
  contract_sdk_event_attributes attrs contract = do
    rest ← custom_attributes attrs
    ok ((attribute_key_contract_addr, contract) ∷ rest)

  -- `newWasmModuleEvent`
  unfoldable pub new_wasm_module_event : List Attribute → Text → Result EventError (List Event)
  new_wasm_module_event attrs contract = do
    attributes ← contract_sdk_event_attributes attrs contract
    ok (record { kind = wasm_module_event_type; attributes = attributes } ∷ [])

  -- `newCustomEvents`
  unfoldable pub new_custom_events : List WasmEvent → Text → Result EventError (List Event)
  new_custom_events [] contract = ok []
  new_custom_events (e ∷ events) contract = do
    require (ltb event_type_min_length (length (trim_space e.kind))) invalid_event
    attributes ← contract_sdk_event_attributes e.attributes contract
    rest ← new_custom_events events contract
    ok (
        record { kind = custom_contract_event_prefix ++ trim_space e.kind; attributes = attributes }
        ∷ rest)
