-- ===== src/Wasm/Keeper/History.antt =====
-- The history of a contract's code, and the index of contracts by code and by creator
-- (x/wasm/keeper/keeper.go).
pub mod Append
pub mod Others
use bignftd.Base.{
  ℕ, suc, ◌+◌, ◌%◌, Text, Bool, Option, none, some, List, [], ◌∷◌, ◌++◌, map, uint64_to_big_endian,
  big_endian_to_uint64,
}
use bignftd.Chain.Outcome.{Result, ok, err, panic, fatal, ◌>>=◌, ◌>>◌, pure, raise, gets}
use bignftd.Chain.Store.{Store, get, set, entries}
use bignftd.Chain.Sorted.{delete, entries_of}
use bignftd.Chain.Sdk.{Addr}
use bignftd.Wasm.Gas.{Priced, u64_mod}
use bignftd.Wasm.Position.{Position}
use bignftd.Wasm.Keys.{
  get_contract_code_history_element_prefix, get_contract_code_history_element_key,
  get_contract_by_created_secondary_index_key, get_contract_by_creator_secondary_index_key,
  get_contracts_by_creator_prefix, get_contract_by_code_id_secondary_index_prefix, position_bytes,
  absolute_tx_position_len,
}
use bignftd.Wasm.Contract.{HistoryEntry}
use bignftd.Wasm.Ante.{split_at}
use bignftd.Wasm.Keeper.Platform.{Platform, Context, Action, with_panic, must, write_kv}

-- The last of the entries, which a reverse iterator meets first.
abbrev pub last_entry : Store → Option (Text × Text)
last_entry [] = none
last_entry (e ∷ []) = some e
last_entry (e ∷ f ∷ m) = last_entry (f ∷ m)

-- The position of the last element, 0 where there is none.
abbrev pub last_position : Option (Text × Text) → ℕ
last_position none = 0
last_position (some e) = big_endian_to_uint64 e.0

module _ (platform : Platform) where
  -- The elements of a contract's history, as the loops over the prefix pick them: those of eight
  -- bytes behind the address.
  unfoldable pub history_elements : Addr → Context platform → Store
  history_elements addr c = entries_of 8 (get_contract_code_history_element_prefix addr) c.kv

  -- The loop that stores new elements behind a position.
  unfoldable pub store_elements : Addr → ℕ → List HistoryEntry → Action platform Unit
  store_elements addr pos [] = pure tt
  store_elements addr pos (e ∷ rest) =
      write_kv platform (
        set (get_contract_code_history_element_key addr ((pos + 1) % u64_mod))
          (platform.encode_entry e))
      >> store_elements addr ((pos + 1) % u64_mod) rest

  -- `appendToContractHistory`
  unfoldable pub append_to_contract_history : Addr → List HistoryEntry → Action platform Unit
  append_to_contract_history addr new_entries = do
    pos ← gets (λ c. last_position (last_entry (history_elements addr c)))
    store_elements addr pos new_entries

  unfoldable pub decode_elements : Store → Action platform (List HistoryEntry)
  decode_elements [] = pure []
  decode_elements (e ∷ rest) = do
    entry ← must platform (platform.decode_entry e.1)
    entries ← decode_elements rest
    pure (entry ∷ entries)

  -- `GetContractHistory`
  unfoldable pub get_contract_history : Addr → Action platform (List HistoryEntry)
  get_contract_history addr = do elements ← gets (history_elements addr); decode_elements elements

  -- `mustGetLastContractHistoryEntry`: a contract with no history is a panic.
  unfoldable pub must_get_last_contract_history_entry : Addr → Action platform HistoryEntry
  must_get_last_contract_history_entry addr = do
    found ← gets (λ c. last_entry (history_elements addr c))
    element ← must platform found
    must platform (platform.decode_entry element.1)

  -- `addToContractCodeSecondaryIndex`
  unfoldable pub add_to_contract_code_secondary_index : Addr → HistoryEntry → Action platform Unit
  add_to_contract_code_secondary_index addr e = do
    key ← with_panic platform (get_contract_by_created_secondary_index_key addr e.code_id e.updated)
    write_kv platform (set key [])

  -- `removeFromContractCodeSecondaryIndex`
  unfoldable pub remove_from_contract_code_secondary_index :
      Addr → HistoryEntry → Action platform Unit
  remove_from_contract_code_secondary_index addr e = do
    key ← with_panic platform (get_contract_by_created_secondary_index_key addr e.code_id e.updated)
    write_kv platform (delete key)

  -- `addToContractCreatorSecondaryIndex`
  unfoldable pub add_to_contract_creator_secondary_index :
      Addr → Option Position → Addr → Action platform Unit
  add_to_contract_creator_secondary_index creator position addr = do
    bytes ← with_panic platform (position_bytes position)
    key ←
        with_panic platform
          (get_contract_by_creator_secondary_index_key platform.length_prefix creator bytes addr)
    write_kv platform (set key [])

  abbrev pub contract_of_key : Text × Text → Addr
  contract_of_key e = (split_at absolute_tx_position_len e.0).1

  -- `IterateContractsByCreator`, as the contracts that it runs through
  unfoldable pub contracts_by_creator : Addr → Action platform (List Addr)
  contracts_by_creator creator = do
    prefix ← with_panic platform (get_contracts_by_creator_prefix platform.length_prefix creator)
    gets (λ c. map contract_of_key (entries prefix c.kv))

  -- `IterateContractsByCode`
  unfoldable pub contracts_by_code : ℕ → Action platform (List Addr)
  contracts_by_code code_id = gets (λ c.
      map contract_of_key (entries (get_contract_by_code_id_secondary_index_prefix code_id) c.kv))
