-- ===== src/Wasm/Genesis.antt =====
-- The genesis of the wasm module (x/wasm/keeper/genesis.go).
pub mod Entries
pub mod Fresh
use bignftd.Base.{ℕ, Text, Bool, not, Option, none, some, List, [], ◌∷◌, ltb, if◌then◌else◌}
use bignftd.Chain.Outcome.{
  Result, ok, err, panic, ◌>>=◌, ◌>>◌, pure, raise, gets, modify, require, when,
}
use bignftd.Chain.Sdk.{Addr}
use bignftd.Wasm.Gas.{GasConfig}
use bignftd.Wasm.Keys.{key_sequence_code_id, key_sequence_instance_id}
use bignftd.Wasm.Contract.{CodeInfo, ContractInfo, HistoryEntry, Model}
use bignftd.Wasm.Keeper.Platform.{Platform, Context, Action, WasmParams, invalid}
use bignftd.Wasm.Keeper.Sequence.{peek_auto_increment_id, import_auto_increment_id}
use bignftd.Wasm.Keeper.Code.{import_code, pin_code}
use bignftd.Wasm.Keeper.Contracts.{import_contract, has_contract_info, require_address}
use bignftd.Wasm.Keeper.Addresses.{classic_address_generator}

-- `Code`
pub record GenesisCode : Type 0 where
  pub code_id : ℕ
  pub info : CodeInfo
  pub code_bytes : Text
  pub pinned : Bool

-- `Contract`
pub record GenesisContract : Type 0 where
  pub address : Text
  pub info : ContractInfo
  pub state : List Model
  pub history : List HistoryEntry

-- `Sequence`
pub record GenesisSequence : Type 0 where
  pub id_key : Text
  pub value : ℕ

-- `GenesisState`
pub record WasmGenesis : Type 0 where
  pub params : WasmParams
  pub codes : List GenesisCode
  pub contracts : List GenesisContract
  pub sequences : List GenesisSequence

module _ (platform : Platform) (register : GasConfig) where
  -- The loop over the codes, with the largest number so far.
  unfoldable pub import_codes : ℕ → List GenesisCode → Action platform ℕ
  import_codes max_code_id [] = pure max_code_id
  import_codes max_code_id (code ∷ rest) = do
    import_code platform register code.code_id code.info code.code_bytes
    when code.pinned (pin_code platform code.code_id)
    import_codes (if ltb max_code_id code.code_id then code.code_id else max_code_id) rest

  unfoldable pub import_contracts : List GenesisContract → Action platform Unit
  import_contracts [] = pure tt
  import_contracts (contract ∷ rest) = do
    addr ← require_address platform (platform.texts.from_bech32 contract.address)
    import_contract platform addr contract.info contract.state contract.history
    import_contracts rest

  unfoldable pub import_sequences : List GenesisSequence → Action platform Unit
  import_sequences [] = pure tt
  import_sequences (s ∷ rest) =
      import_auto_increment_id platform s.id_key s.value >> import_sequences rest

  -- A call in a cached context that is dropped
  abbrev pub in_cache : {A : Type 0} → Action platform A → Action platform A
  in_cache m c = let (r, c') = m c in (r, c)

  -- The next address of the classic generator, of the number of the sequence as a code's number too
  abbrev pub probe_address : Action platform Addr
  probe_address = do
    seq ← peek_auto_increment_id platform key_sequence_instance_id
    classic_address_generator platform seq []

  -- `InitGenesis`
  unfoldable pub init_wasm_genesis : WasmGenesis → Action platform Unit
  init_wasm_genesis g = do
    modify (λ c. record c { params = g.params })
    max_code_id ← import_codes 0 g.codes
    import_contracts g.contracts
    import_sequences g.sequences
    next_code ← peek_auto_increment_id platform key_sequence_code_id
    require (ltb max_code_id next_code) invalid
    addr ← in_cache probe_address
    known ← has_contract_info platform addr
    require (not known) invalid
