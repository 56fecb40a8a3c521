-- ===== src/Wasm/Keeper/Registry.antt =====
-- The data of the contracts in the store, across the calls that make and migrate contracts
-- (x/wasm/keeper/keeper.go).
pub mod Additions
pub mod Codes
pub mod Migrations
use bignftd.Base.{
  ℕ, ◌+◌, ◌%◌, ◌≡◌, ◌≢◌, refl, sym, ap, ◌∙◌, Text, Bool, true, false, not, Bool-cases, inl, inr,
  Option, none, some, List, [], ◌∷◌, ◌++◌, arith,
}
use bignftd.Chain.Outcome.{
  Result, ok, err, panic, continue, ◌>>=◌, ◌>>◌, pure, raise, gets, require,
}
use bignftd.Chain.Keeps.{Keeps, Keeps-bind, Keeps-then}
use bignftd.Chain.Store.{Store, get, set, get-set_ne}
use bignftd.Chain.Sorted.{delete, get-delete_ne}
use bignftd.Chain.Sdk.{Addr}
use bignftd.Wasm.Gas.{GasConfig, Priced, u64_mod}
use bignftd.Wasm.Position.{Position}
use bignftd.Wasm.Keys.{
  get_contract_address_key, get_contract_store_prefix, get_contract_code_history_element_key,
  get_contract_code_history_element_prefix, get_contract_by_created_secondary_index_key,
  get_contract_by_creator_secondary_index_key, get_contract_by_code_id_secondary_index_prefix,
  get_contracts_by_creator_prefix, position_bytes,
}
use bignftd.Wasm.Contract.{ContractInfo, HistoryEntry, initial_history, is_some}
use bignftd.Wasm.Keeper.Platform.{Platform, Context, Action, with_panic, write_kv}
use bignftd.Wasm.Keeper.History.{
  store_elements, append_to_contract_history, decode_elements, add_to_contract_code_secondary_index,
  remove_from_contract_code_secondary_index, add_to_contract_creator_secondary_index,
  must_get_last_contract_history_entry,
}
use bignftd.Wasm.Keeper.Contracts.{has_contract_info, must_store_contract_info}
use bignftd.Wasm.Keeper.Instantiate.{persist_instance}
use bignftd.Wasm.Keeper.Migrate.{persist_migration}
use bignftd.Wasm.Keeper.Keeping.{OnKv, kv_rules, Keeps-with_panic, Keeps-current_position}

-- The key is none of a history or of an index.
pub record IsApart (k : Text) : Type 0 where
  pub history : (t : Text) → 5 ∷ t ≢ k
  pub code_index : (t : Text) → 6 ∷ t ≢ k
  pub creator_index : (t : Text) → 9 ∷ t ≢ k

pub IsApart-contract : (a : Addr) → IsApart (get_contract_address_key a)
unfolding get_contract_address_key
IsApart-contract a = record {
  history = λ t e. cc e;
  code_index = λ t e. cc e;
  creator_index = λ t e. cc e;
}

pub get_contract_address_key-ne :
    (a b : Addr) → a ≢ b → get_contract_address_key a ≢ get_contract_address_key b
unfolding get_contract_address_key
get_contract_address_key-ne a b h e = h (cc e)

-- The entry of a key in the store is `v`.
abbrev pub EntryIs : (platform : Platform) → Text → Option Text → Context platform → Type 0
EntryIs platform k v = OnKv platform (λ kv. get k kv ≡ v)

module _ (platform : Platform) (k : Text) (apart : IsApart k) (v : Option Text) where
  Keeps-set :
      (j value : Text) → j ≢ k → Keeps (EntryIs platform k v) (write_kv platform (set j value))
  Keeps-set j value other = record {
    at = λ c h. record { holds = get-set_ne j k value c.kv other ∙ h.holds };
  }

  Keeps-delete : (j : Text) → j ≢ k → Keeps (EntryIs platform k v) (write_kv platform (delete j))
  Keeps-delete j other = record {
    at = λ c h. record { holds = get-delete_ne j k c.kv other ∙ h.holds };
  }

  history_key-ne : (addr : Addr) (n : ℕ) → get_contract_code_history_element_key addr n ≢ k
  unfolding get_contract_code_history_element_key get_contract_code_history_element_prefix
  history_key-ne addr n e = apart.history _ e

  Keeps-store_elements :
      (addr : Addr) (n : ℕ) (es : List HistoryEntry)
      → Keeps (EntryIs platform k v) (store_elements platform addr n es)
  unfolding store_elements
  Keeps-store_elements addr n [] = search kv_rules
  Keeps-store_elements addr n (e ∷ es) =
      Keeps-then _ _ (Keeps-set _ _ (history_key-ne addr ((n + 1) % u64_mod)))
        (Keeps-store_elements addr ((n + 1) % u64_mod) es)

  pub Keeps-append_to_contract_history :
      (addr : Addr) (es : List HistoryEntry)
      → Keeps (EntryIs platform k v) (append_to_contract_history platform addr es)
  unfolding append_to_contract_history
  Keeps-append_to_contract_history addr es = search (kv_rules, Keeps-store_elements)

  -- The keys of the two secondary indexes start with another byte.
  Keeps-at_created :
      (addr : Addr) (code_id : ℕ) (updated : Option Position) (write : Text → Store → Store)
      → ((j : Text) → j ≢ k → Keeps (EntryIs platform k v) (write_kv platform (write j)))
      → Keeps (EntryIs platform k v) (
          with_panic platform (get_contract_by_created_secondary_index_key addr code_id updated)
          >>= λ j. write_kv platform (write j))
  unfolding get_contract_by_created_secondary_index_key position_bytes
      get_contract_by_code_id_secondary_index_prefix
  Keeps-at_created addr code_id none write h = record { at = λ c g. g }
  Keeps-at_created addr code_id (some p) write h = record {
    at = λ c g. (h _ (λ e. apart.code_index _ e)).at c g;
  }

  pub Keeps-add_to_contract_code_secondary_index :
      (addr : Addr) (e : HistoryEntry)
      → Keeps (EntryIs platform k v) (add_to_contract_code_secondary_index platform addr e)
  unfolding add_to_contract_code_secondary_index
  Keeps-add_to_contract_code_secondary_index addr e =
      Keeps-at_created addr e.code_id e.updated (λ j. set j []) (λ j other. Keeps-set j [] other)

  pub Keeps-remove_from_contract_code_secondary_index :
      (addr : Addr) (e : HistoryEntry)
      → Keeps (EntryIs platform k v) (remove_from_contract_code_secondary_index platform addr e)
  unfolding remove_from_contract_code_secondary_index
  Keeps-remove_from_contract_code_secondary_index addr e =
      Keeps-at_created addr e.code_id e.updated delete (λ j other. Keeps-delete j other)

  Keeps-at_creator :
      (prefixed : Priced Text) (creator addr : Addr) (bytes : Text)
      → Keeps (EntryIs platform k v) (
          with_panic platform
            (get_contract_by_creator_secondary_index_key (λ t. prefixed) creator bytes addr)
          >>= λ j. write_kv platform (set j []))
  unfolding get_contract_by_creator_secondary_index_key get_contracts_by_creator_prefix
  Keeps-at_creator (ok bz) creator addr bytes = record {
    at = λ c h. (Keeps-set _ [] (λ e. apart.creator_index _ e)).at c h;
  }
  Keeps-at_creator (err e) creator addr bytes = absurd e
  Keeps-at_creator (panic p) creator addr bytes = record { at = λ c h. h }

  pub Keeps-add_to_contract_creator_secondary_index :
      (creator : Addr) (position : Option Position) (addr : Addr)
      → Keeps
          (EntryIs platform k v)
          (add_to_contract_creator_secondary_index platform creator position addr)
  unfolding add_to_contract_creator_secondary_index get_contract_by_creator_secondary_index_key
      get_contracts_by_creator_prefix
  Keeps-add_to_contract_creator_secondary_index creator position addr =
      Keeps-bind _ _ (Keeps-with_panic platform (position_bytes position))
        (λ bytes. Keeps-at_creator (platform.length_prefix creator) creator addr bytes)

  Keeps-must_get_last_contract_history_entry :
      (addr : Addr)
      → Keeps (EntryIs platform k v) (must_get_last_contract_history_entry platform addr)
  unfolding must_get_last_contract_history_entry
  Keeps-must_get_last_contract_history_entry addr = search kv_rules

  -- The data of another contract may be written.
  pub Keeps-must_store_contract_info :
      (addr : Addr) (info : ContractInfo)
      → get_contract_address_key addr ≢ k
      → Keeps (EntryIs platform k v) (must_store_contract_info platform addr info)
  unfolding must_store_contract_info
  Keeps-must_store_contract_info addr info other = Keeps-set _ _ other

  pub Keeps-persist_instance :
      (addr creator : Addr) (info : ContractInfo) (msg : Text)
      → get_contract_address_key addr ≢ k
      → Keeps (EntryIs platform k v) (persist_instance platform addr creator info msg)
  unfolding persist_instance
  Keeps-persist_instance addr creator info msg other =
      search
        (
          kv_rules, Keeps-append_to_contract_history, Keeps-add_to_contract_code_secondary_index,
          Keeps-add_to_contract_creator_secondary_index, Keeps-must_store_contract_info, other,
        )
        depth 10

  pub Keeps-persist_migration :
      (register : GasConfig) (addr : Addr) (info : ContractInfo) (code_id : ℕ) (msg : Text)
      → get_contract_address_key addr ≢ k
      → Keeps (EntryIs platform k v) (persist_migration platform register addr info code_id msg)
  unfolding persist_migration
  Keeps-persist_migration register addr info code_id msg other =
      search
        (
          kv_rules, Keeps-append_to_contract_history, Keeps-add_to_contract_code_secondary_index,
          Keeps-remove_from_contract_code_secondary_index,
          Keeps-must_get_last_contract_history_entry, Keeps-current_position,
          Keeps-must_store_contract_info, other,
        )
        depth 12
