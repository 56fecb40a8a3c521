-- ===== src/Wasm/Keeper/Platform.antt =====
-- What the wasm keeper stands on: the virtual machine, the codec, the accounts, the bank and the
-- gas meters, none of which is in the repository, and the context of a call.
use bignftd.Base.{ℕ, Text, Bool, Option, none, some, List, [], ◌∷◌, ◌++◌}
use bignftd.Chain.Outcome.{Result, ok, err, panic, Panic, fatal, Exec}
use bignftd.Chain.Store.{Store}
use bignftd.Chain.Sdk.{Addr, ℤ, Coins}
use bignftd.Wasm.Gas.{Priced, UFraction, Attribute, WasmEvent}
use bignftd.Wasm.Policy.{Policy}
use bignftd.Wasm.Dispatcher.{Event, Reply}
use bignftd.Wasm.Access.{AccessConfig, AccessType}
use bignftd.Wasm.Access.Validation.{AccessError}
use bignftd.Wasm.Contract.{CodeInfo, ContractInfo, HistoryEntry, Texts}

-- The errors that the keeper returns; wrapping and messages are left out.
pub data KeeperError : Type 0 where
  invalid_address unauthorized create_failed vm_error no_such_code no_such_contract empty :
      KeeperError
  account_exists instantiate_failed execute_failed migration_failed query_failed duplicate invalid :
      KeeperError
  invalid_request not_found pin_failed unpin_failed invalid_event exceed_max_call_depth :
      KeeperError
  exceed_max_query_stack_size transfer_failed prune_failed port_failed dispatch_failed : KeeperError
  invalid_signer unknown_msg unsupported_for_contract capability_not_found unknown_request :
      KeeperError
  -- a message that does not pass its stateless check
  invalid_message : AccessError → KeeperError

abbrev pub KeeperReply : Type 0 → Type 0
KeeperReply = Result KeeperError

-- What the keeper reads of a code's analysis.
pub record Report : Type 0 where
  pub has_ibc_entry_points : Bool
  pub migrate_version : Option ℕ
  pub required_capabilities : Text

-- `wasmvmtypes.Response`
pub record Response (Msg : Type 0) : Type 0 where
  pub messages : List Msg
  pub attributes : List Attribute
  pub events : List WasmEvent
  pub response_data : Option Text

-- How a call of the machine ends: with a Go error, a nil result, an error of the contract, or a
-- response.
pub data VmResult (A : Type 0) : Type 0 where
  failed : VmResult A
  missing : VmResult A
  contract_error : Text → VmResult A
  responded : A → VmResult A

-- `wasmvmtypes.Env`
pub record Env : Type 0 where
  pub height : ℕ
  pub time : ℕ
  pub chain_id : Text
  pub tx_index : Option ℕ
  pub contract : Text

-- The entry points, with their arguments but for the checksum and the environment.
pub data VmCall : Type 0 where
  instantiate_call execute_call : Text → Coins → Text → VmCall
  migrate_call sudo_call : Text → VmCall
  reply_call : Reply → VmCall

-- What the machine has done: the gas that it used, the meter after its queries, and its writes to
-- the store that it was given; a delete is `none`.
pub record VmOutcome (Meter A : Type 0) : Type 0 where
  pub result : VmResult A
  pub gas_used : ℕ
  pub meter : Meter
  pub writes : List (Text × Option Text)

-- An account that exists.
pub record Account : Type 0 where
  pub sequence : ℕ
  pub has_pub_key : Bool
  pub is_accepted_type : Bool

pub record Platform : Type 1 where
  pub World : Type 0
  pub Meter : Type 0
  pub Msg : Type 0
  pub texts : Texts
  pub length_prefix : Text → Priced Text
  -- `codec.MustMarshal` and `MustUnmarshal`
  pub encode_code : CodeInfo → Text
  pub decode_code : Text → Option CodeInfo
  pub encode_contract : ContractInfo → Text
  pub decode_contract : Text → Option ContractInfo
  pub encode_entry : HistoryEntry → Text
  pub decode_entry : Text → Option HistoryEntry
  -- the gas meter
  pub limit : Meter → ℕ
  pub consumed_to_limit : Meter → ℕ
  pub is_out_of_gas : Meter → Bool
  pub consume : ℕ → Meter → Option Panic × Meter
  pub infinite_meter : Meter
  -- the machine: the checksum, the address, the environment, the gas that is left, and all that a
  -- query may read
  -- The stack of queries counts for the queries that the machine makes.
  pub vm :
      VmCall
      → Text
      → Addr
      → Env
      → ℕ
      → Store
      → World
      → Meter
      → Option ℕ
      → VmOutcome Meter (Response Msg)
  pub vm_query :
      Text → Text → Addr → Env → ℕ → Store → World → Meter → Option ℕ → VmOutcome Meter Text
  pub analyze_code : Text → World → Option Report
  pub store_code : Text → ℕ → World → (Option Text × ℕ) × World
  pub store_code_unchecked : Text → World → Option Text × World
  pub get_code : Text → World → Option Text
  pub pin : Text → World → Bool × World
  pub unpin : Text → World → Bool × World
  -- unpacking of an archive, by Go's library, and `UFraction.Mul`, rounded down
  pub gunzip : Text → Option Text
  pub mul_floor : UFraction → ℕ → ℕ
  -- accounts, the bank and the ports
  -- `address.Module(types.ModuleName, key)[:types.ContractAddrLen]` and `sdk.VerifyAddressFormat`
  pub module_address : Text → Addr
  pub is_valid_address : Addr → Bool
  pub get_account : Addr → World → Option Account
  pub set_new_account : Addr → World → World
  pub cleanup_account : Addr → World → Option Bool × World
  pub is_zero_coins : Coins → Bool
  pub transfer_coins : Addr → Addr → Coins → World → KeeperReply Unit × World
  pub ensure_ibc_port : Addr → World → KeeperReply Text × World

-- The block and the transaction that a call is part of.
pub record Block : Type 0 where
  pub height : ℤ
  pub time : ℤ
  pub chain_id : Text
  pub gas : Option ℕ
  pub tx_counter : Option ℕ

pub record WasmParams : Type 0 where
  pub code_upload_access : AccessConfig
  pub instantiate_default_permission : AccessType

-- `sdk.Context`, as far as the keeper reads or changes it. The set of contracts of a transaction is
-- shared, and none where the context has no set.
pub record Context (platform : Platform) : Type 0 where
  pub kv : Store
  pub world : platform.World
  pub meter : platform.Meter
  pub events : List Event
  pub block : Block
  pub params : WasmParams
  pub policy : Option Policy
  pub tx_contracts : Option (List Text)
  pub query_stack_size : Option ℕ
  pub call_depth : Option ℕ

abbrev pub Action : Platform → Type 0 → Type 0
Action platform A = Exec KeeperError (Context platform) A

module _ (platform : Platform) where
  abbrev pub with_panic : {A : Type 0} → Priced A → Action platform A
  with_panic (ok a) c = (ok a, c)
  with_panic (err e) c = absurd e
  with_panic (panic p) c = (panic p, c)

  -- `codec.MustUnmarshal`
  abbrev pub must : {A : Type 0} → Option A → Action platform A
  must none c = (panic fatal, c)
  must (some a) c = (ok a, c)

  -- A call into the SDK or the machine, which changes the rest of the chain.
  abbrev pub call_world :
      {A : Type 0} → (platform.World → KeeperReply A × platform.World) → Action platform A
  call_world f c = let (r, w) = f c.world in (r, record c { world = w })

  abbrev pub write_kv : (Store → Store) → Action platform Unit
  write_kv f c = (ok tt, record c { kv = f c.kv })

  abbrev pub emit_event : Event → Action platform Unit
  emit_event e c = (ok tt, record c { events = c.events ++ e ∷ [] })

  abbrev pub emit_events : List Event → Action platform Unit
  emit_events es c = (ok tt, record c { events = c.events ++ es })

  -- A call in a context of its own with another policy for submessages, or another gas meter; the
  -- caller's stays as it was.
  abbrev pub with_policy : {A : Type 0} → Policy → Action platform A → Action platform A
  with_policy p m c =
      let (r, c') = m (record c { policy = some p }) in (r, record c' { policy = c.policy })

  abbrev pub with_meter : {A : Type 0} → platform.Meter → Action platform A → Action platform A
  with_meter meter m c =
      let (r, c') = m (record c { meter = meter }) in (r, record c' { meter = c.meter })
