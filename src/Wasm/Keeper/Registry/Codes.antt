-- ===== src/Wasm/Keeper/Registry/Codes.antt =====
-- The data of a contract while codes are stored (x/wasm/keeper/keeper.go).
use bignftd.Base.{ℕ, Text, Option, none, some, ◌∷◌, ◌∙◌}
use bignftd.Chain.Keeps.{Keeps}
use bignftd.Chain.Store.{get-set_ne}
use bignftd.Chain.Sdk.{Addr}
use bignftd.Wasm.Gas.{GasConfig}
use bignftd.Wasm.Access.{AccessConfig}
use bignftd.Wasm.Policy.{Policy}
use bignftd.Wasm.Keys.{get_code_key, get_contract_address_key, key_sequence_code_id}
use bignftd.Wasm.Contract.{CodeInfo}
use bignftd.Wasm.Keeper.Platform.{Platform}
use bignftd.Wasm.Keeper.Sequence.{must_auto_increment_id}
use bignftd.Wasm.Keeper.Code.{must_store_code_info, create}
use bignftd.Wasm.Keeper.Code.Fresh.{Keeps-uncompressed, Keeps-store_in_machine}
use bignftd.Wasm.Keeper.Registry.{EntryIs}
use bignftd.Wasm.Keeper.Keeping.{
  kv_rules, Keeps-runtime_gas_for_contract, Keeps-consume_runtime_gas,
}

module _ (platform : Platform) (a : Addr) (v : Option Text) where
  pub Keeps-must_auto_increment_id :
      Keeps
        (EntryIs platform (get_contract_address_key a) v)
        (must_auto_increment_id platform key_sequence_code_id)
  unfolding must_auto_increment_id get_contract_address_key
  Keeps-must_auto_increment_id = record {
    at = λ c h. record {
      holds = get-set_ne key_sequence_code_id (2 ∷ a) _ c.kv (λ e. cc e) ∙ h.holds;
    };
  }

  pub Keeps-must_store_code_info :
      (code_id : ℕ) (info : CodeInfo)
      → Keeps
          (EntryIs platform (get_contract_address_key a) v)
          (must_store_code_info platform code_id info)
  unfolding must_store_code_info get_code_key get_contract_address_key
  Keeps-must_store_code_info code_id info = record {
    at = λ c h. record {
      holds = get-set_ne (get_code_key code_id) (2 ∷ a) _ c.kv (λ e. cc e) ∙ h.holds;
    };
  }

  pub Keeps-create :
      (register : GasConfig) (creator : Option Addr) (code : Text) (access : Option AccessConfig)
      (policy : Policy)
      → Keeps
          (EntryIs platform (get_contract_address_key a) v)
          (create platform register creator code access policy)
  unfolding create
  Keeps-create register none code access policy = search kv_rules
  Keeps-create register (some creator) code access policy =
      search
        (
          kv_rules, Keeps-uncompressed, Keeps-runtime_gas_for_contract, Keeps-store_in_machine,
          Keeps-consume_runtime_gas, Keeps-must_auto_increment_id, Keeps-must_store_code_info,
        )
        depth 40
