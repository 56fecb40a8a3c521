-- ===== src/Wasm/Genesis/Entries.antt =====
-- What the imports of the genesis leave of the entry of a code (x/wasm/keeper/genesis.go,
-- x/wasm/keeper/keeper.go).
use bignftd.Base.{
  ℕ, ◌≢◌, ◌∙◌, Text, Bool, not, Bool-cases, inl, inr, Option, none, some, List, [], ◌∷◌, ◌++◌,
}
use bignftd.Chain.Keeps.{Keeps, Keeps-bind, Keeps-then, Keeps-gets, Keeps-require}
use bignftd.Chain.Store.{get, set, get-set_ne}
use bignftd.Chain.Sdk.{Addr}
use bignftd.Wasm.Gas.{GasConfig}
use bignftd.Wasm.Archive.{is_gzip}
use bignftd.Wasm.Keys.{
  get_code_key, get_contract_address_key, get_contract_store_prefix, get_pinned_code_index_prefix,
}
use bignftd.Wasm.Contract.{CodeInfo, ContractInfo, HistoryEntry, Model, is_some}
use bignftd.Wasm.Keeper.Platform.{Platform, Context, KeeperError, write_kv, duplicate}
use bignftd.Wasm.Keeper.Sequence.{import_auto_increment_id, refuse_duplicate}
use bignftd.Wasm.Keeper.Code.{
  require_code, machine, pin_code, contains_code_info, unpacked, store_unchecked, import_code,
}
use bignftd.Wasm.Keeper.Contracts.{
  has_contract_info, require_address, value_or_empty, import_contract_state, import_contract,
}
use bignftd.Wasm.Keeper.Keeping.{kv_rules, Keeps-get_code_info, Keeps-write_kv}
use bignftd.Wasm.Keeper.Registry.{
  EntryIs, IsApart, Keeps-append_to_contract_history, Keeps-add_to_contract_code_secondary_index,
  Keeps-add_to_contract_creator_secondary_index, Keeps-must_store_contract_info,
}

IsApart-code : (j : ℕ) → IsApart (get_code_key j)
unfolding get_code_key
IsApart-code j = record {
  history = λ t e. cc e;
  code_index = λ t e. cc e;
  creator_index = λ t e. cc e;
}

contract_key-code : (addr : Addr) (j : ℕ) → get_contract_address_key addr ≢ get_code_key j
unfolding get_contract_address_key get_code_key
contract_key-code addr j e = cc e

store_key-code :
    (addr : Addr) (t : Text) (j : ℕ) → get_contract_store_prefix addr ++ t ≢ get_code_key j
unfolding get_contract_store_prefix get_code_key
store_key-code addr t j e = cc e

pinned_key-code : (code_id j : ℕ) → get_pinned_code_index_prefix code_id ≢ get_code_key j
unfolding get_pinned_code_index_prefix get_code_key
pinned_key-code code_id j e = cc e

module _ (platform : Platform) where
  -- What the imports leave of the entry of a code.
  module _ (j : ℕ) (v : Option Text) where
    abbrev pub CodeIs : Context platform → Type 0
    CodeIs = EntryIs platform (get_code_key j) v

    Keeps-set_other :
        (k value : Text) → k ≢ get_code_key j → Keeps CodeIs (write_kv platform (set k value))
    Keeps-set_other k value other =
        Keeps-write_kv platform (set k value)
          (λ m h. get-set_ne k (get_code_key j) value m other ∙ h)

    Keeps-require_code : (found : Option CodeInfo) → Keeps CodeIs (require_code platform found)
    Keeps-require_code none = search kv_rules
    Keeps-require_code (some info) = search kv_rules

    Keeps-machine :
        (f : platform.World → Bool × platform.World) (e : KeeperError)
        → Keeps CodeIs (machine platform f e)
    Keeps-machine f e = record {
      at = λ c h. (Keeps-require {P = CodeIs} (f c.world).0 e).at _ (record { holds = h.holds });
    }

    pub Keeps-pin_code : (code_id : ℕ) → Keeps CodeIs (pin_code platform code_id)
    unfolding pin_code
    Keeps-pin_code code_id =
        search
          (
            kv_rules, Keeps-get_code_info, Keeps-require_code, Keeps-machine, Keeps-set_other,
            pinned_key-code,
          )
          depth 14

    pub Keeps-require_address : (o : Option Addr) → Keeps CodeIs (require_address platform o)
    Keeps-require_address none = search kv_rules
    Keeps-require_address (some a) = search kv_rules

    Keeps-import_contract_state :
        (addr : Addr) (models : List Model)
        → Keeps CodeIs (import_contract_state platform addr models)
    unfolding import_contract_state
    Keeps-import_contract_state addr [] = search kv_rules
    Keeps-import_contract_state addr (m ∷ models) =
        Keeps-bind _ _
          (Keeps-gets (λ c. is_some (get (get_contract_store_prefix addr ++ m.key) c.kv)))
          (λ known. Keeps-then _ _ (Keeps-require (not known) duplicate) (
            Keeps-then _ _
              (Keeps-set_other (get_contract_store_prefix addr ++ m.key)
                (value_or_empty platform m.value) (store_key-code addr m.key j))
              (Keeps-import_contract_state addr models)))

    pub Keeps-import_contract :
        (addr : Addr) (info : ContractInfo) (state : List Model) (history : List HistoryEntry)
        → Keeps CodeIs (import_contract platform addr info state history)
    unfolding import_contract contains_code_info has_contract_info
    Keeps-import_contract addr info state [] = search kv_rules depth 10
    Keeps-import_contract addr info state (e ∷ rest) =
        search
          (
            kv_rules, Keeps-require_address, Keeps-append_to_contract_history,
            Keeps-must_store_contract_info, Keeps-add_to_contract_code_secondary_index,
            Keeps-add_to_contract_creator_secondary_index, Keeps-import_contract_state,
            IsApart-code, contract_key-code,
          )
          depth 20

    Keeps-refuse_duplicate : (o : Option Text) → Keeps CodeIs (refuse_duplicate platform o)
    Keeps-refuse_duplicate none = search kv_rules
    Keeps-refuse_duplicate (some bz) = search kv_rules

    pub Keeps-import_auto_increment_id :
        (k : Text) (value : ℕ)
        → k ≢ get_code_key j
        → Keeps CodeIs (import_auto_increment_id platform k value)
    unfolding import_auto_increment_id
    Keeps-import_auto_increment_id k value other =
        search (kv_rules, Keeps-refuse_duplicate, Keeps-set_other, other)

    module _ (register : GasConfig) where
      Keeps-unpacked : (code : Text) → Keeps CodeIs (unpacked platform register code)
      Keeps-unpacked code = elim (Bool-cases (is_gzip code)) [
        | inl e ↦ rw e (search kv_rules)
        | inr e ↦ rw e (search kv_rules)
      ]

      Keeps-store_unchecked : (code : Text) → Keeps CodeIs (store_unchecked platform register code)
      Keeps-store_unchecked code = record { at = λ c h. record { holds = h.holds } }

      pub Keeps-import_code :
          (code_id : ℕ) (info : CodeInfo) (code : Text)
          → get_code_key code_id ≢ get_code_key j
          → Keeps CodeIs (import_code platform register code_id info code)
      unfolding import_code contains_code_info
      Keeps-import_code code_id info code other =
          search (kv_rules, Keeps-unpacked, Keeps-store_unchecked, Keeps-set_other, other) depth 16
