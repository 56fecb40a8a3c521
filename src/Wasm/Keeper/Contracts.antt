-- ===== src/Wasm/Keeper/Contracts.antt =====
-- The contracts: their data, their stores, and what their admin and the chain may change
-- (x/wasm/keeper/keeper.go).
pub mod Admin
use bignftd.Base.{ℕ, Text, codes, Bool, true, false, not, Option, none, some, List, [], ◌∷◌, ◌++◌}
use bignftd.Chain.Outcome.{Result, ok, err, panic, ◌>>=◌, ◌>>◌, pure, raise, gets, require}
use bignftd.Chain.Store.{Store, get, set, entries}
use bignftd.Chain.Sorted.{delete}
use bignftd.Chain.Sdk.{Addr}
use bignftd.Wasm.Policy.{Policy, can_modify_contract}
use bignftd.Wasm.Keys.{
  get_contract_address_key, get_contract_store_prefix, get_gasless_contract_index_prefix,
  get_code_key, contract_key_prefix,
}
use bignftd.Wasm.Contract.{ContractInfo, CodeInfo, HistoryEntry, Model, admin_addr, is_some}
use bignftd.Wasm.Keeper.Platform.{
  Platform, Context, Action, with_panic, must, write_kv, emit_event, unauthorized, no_such_contract,
  no_such_code, invalid_request, not_found, duplicate, empty, invalid,
}
use bignftd.Wasm.Keeper.Code.{get_code_info, contains_code_info}
use bignftd.Wasm.Keeper.History.{
  append_to_contract_history, add_to_contract_code_secondary_index,
  add_to_contract_creator_secondary_index,
}

abbrev pub last_of : HistoryEntry → List HistoryEntry → HistoryEntry
last_of e [] = e
last_of e (f ∷ rest) = last_of f rest

module _ (platform : Platform) where
  abbrev pub decoded_contract : Option Text → Action platform (Option ContractInfo)
  decoded_contract none = pure none
  decoded_contract (some bz) = do
    info ← must platform (platform.decode_contract bz)
    pure (some info)

  -- `GetContractInfo`
  unfoldable pub get_contract_info : Addr → Action platform (Option ContractInfo)
  get_contract_info addr = do
    bz ← gets (λ c. get (get_contract_address_key addr) c.kv)
    decoded_contract bz

  -- `HasContractInfo`
  unfoldable pub has_contract_info : Addr → Action platform Bool
  has_contract_info addr = gets (λ c. is_some (get (get_contract_address_key addr) c.kv))

  -- `mustStoreContractInfo`
  unfoldable pub must_store_contract_info : Addr → ContractInfo → Action platform Unit
  must_store_contract_info addr info =
      write_kv platform (set (get_contract_address_key addr) (platform.encode_contract info))

  -- `contractInstance`; the store of the contract is that below its prefix.
  abbrev pub require_instance : Option ContractInfo → Action platform ContractInfo
  require_instance none = raise no_such_contract
  require_instance (some info) = pure info

  abbrev pub require_code_of : Option CodeInfo → Action platform CodeInfo
  require_code_of none = raise no_such_code
  require_code_of (some info) = pure info

  unfoldable pub contract_instance : Addr → Action platform (ContractInfo × CodeInfo)
  contract_instance addr = do
    found ← get_contract_info addr
    contract ← require_instance found
    known ← get_code_info platform contract.code_id
    code ← require_code_of known
    pure (contract, code)

  abbrev pub require_contract : Option ContractInfo → Action platform ContractInfo
  require_contract none = raise invalid_request
  require_contract (some info) = pure info

  -- The caller must be one that the policy lets modify the contract.
  unfoldable pub require_modifier : ContractInfo → Addr → Policy → Action platform Unit
  require_modifier info caller policy = do
    admin ← with_panic platform (admin_addr platform.texts info)
    require (can_modify_contract policy admin caller) unauthorized

  -- `setContractAdmin`
  unfoldable pub set_contract_admin : Addr → Addr → Addr → Policy → Action platform Unit
  set_contract_admin addr caller new_admin policy = do
    found ← get_contract_info addr
    info ← require_contract found
    require_modifier info caller policy
    must_store_contract_info addr (record info { admin = platform.texts.to_bech32 new_admin })
    emit_event platform (record {
      kind = codes "update_contract_admin";
      attributes =
          (codes "_contract_address", platform.texts.to_bech32 addr)
          ∷ (codes "new_admin_address", platform.texts.to_bech32 new_admin)
          ∷ [];
    })

  -- `setContractLabel`
  unfoldable pub set_contract_label : Addr → Addr → Text → Policy → Action platform Unit
  set_contract_label addr caller new_label policy = do
    found ← get_contract_info addr
    info ← require_contract found
    require_modifier info caller policy
    must_store_contract_info addr (record info { label = new_label })
    emit_event platform (record {
      kind = codes "update_contract_label";
      attributes =
          (codes "_contract_address", platform.texts.to_bech32 addr)
          ∷ (codes "new_label", new_label)
          ∷ [];
    })

  abbrev pub require_known : Option ContractInfo → Action platform Unit
  require_known none = raise not_found
  require_known (some info) = pure tt

  -- `setGasless`
  unfoldable pub set_gasless : Addr → Action platform Unit
  set_gasless addr = do
    found ← get_contract_info addr
    require_known found
    write_kv platform (set (get_gasless_contract_index_prefix addr) (1 ∷ []))

  -- `unsetGasless`
  unfoldable pub unset_gasless : Addr → Action platform Unit
  unset_gasless addr = do
    found ← get_contract_info addr
    require_known found
    write_kv platform (delete (get_gasless_contract_index_prefix addr))

  -- `IsGasless`
  unfoldable pub is_gasless : Addr → Action platform Bool
  is_gasless addr = gets (λ c. is_some (get (get_gasless_contract_index_prefix addr) c.kv))

  -- `QueryRaw`; a nil key gives nothing.
  unfoldable pub query_raw : Addr → Option Text → Context platform → Option Text
  query_raw addr none c = none
  query_raw addr (some key) c = get (get_contract_store_prefix addr ++ key) c.kv

  -- `IterateContractState`, as the entries that it runs through
  unfoldable pub contract_state : Addr → Context platform → Store
  contract_state addr c = entries (get_contract_store_prefix addr) c.kv

  abbrev pub value_or_empty : Option Text → Text
  value_or_empty none = []
  value_or_empty (some v) = v

  -- `importContractState`
  unfoldable pub import_contract_state : Addr → List Model → Action platform Unit
  import_contract_state addr [] = pure tt
  import_contract_state addr (m ∷ models) = do
    known ← gets (λ c. is_some (get (get_contract_store_prefix addr ++ m.key) c.kv))
    require (not known) duplicate
    write_kv platform (set (get_contract_store_prefix addr ++ m.key) (value_or_empty m.value))
    import_contract_state addr models

  abbrev pub require_address : Option Addr → Action platform Addr
  require_address none = raise invalid
  require_address (some a) = pure a

  -- `importContract`
  unfoldable pub import_contract :
      Addr → ContractInfo → List Model → List HistoryEntry → Action platform Unit
  import_contract addr info state history = do
    known_code ← contains_code_info platform info.code_id
    require known_code no_such_code
    known ← has_contract_info addr
    require (not known) duplicate
    elim history [
      | [] ↦ raise empty
      | e ∷ rest ↦ do
        creator ← require_address (platform.texts.from_bech32 info.creator)
        append_to_contract_history platform addr (e ∷ rest)
        must_store_contract_info addr info
        add_to_contract_code_secondary_index platform addr (last_of e rest)
        add_to_contract_creator_secondary_index platform creator e.updated addr
        import_contract_state addr state
    ]
