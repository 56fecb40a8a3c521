-- ===== src/Wasm/Keeper/Code.antt =====
-- The codes: stored, pinned, and who may instantiate them (x/wasm/keeper/keeper.go).
pub mod Fresh
use bignftd.Base.{
  ℕ, Text, codes, Bool, true, false, not, Option, none, some, List, [], ◌∷◌, map, text_eq, split,
  join, length, if◌then◌else◌,
}
use bignftd.Chain.Outcome.{Result, ok, err, ◌>>=◌, ◌>>◌, pure, raise, gets, require, or_raise, when}
use bignftd.Chain.Store.{Store, get, set}
use bignftd.Chain.Sorted.{delete}
use bignftd.Chain.Sdk.{Addr, pos}
use bignftd.Wasm.Gas.{Priced, GasConfig, uncompress_costs}
use bignftd.Wasm.Policy.{Policy, ChainAccessConfigs, can_create_code, can_modify_code_access_config}
use bignftd.Wasm.Access.{AccessConfig, AccessType, is_subset_type, all_authorized_addresses}
use bignftd.Wasm.Access.Validation.{with_addresses, show_access_type}
use bignftd.Wasm.Keys.{get_code_key, get_pinned_code_index_prefix, key_sequence_code_id}
use bignftd.Wasm.Archive.{is_gzip, uncompress}
use bignftd.Wasm.Contract.{CodeInfo, new_code_info, is_some}
use bignftd.Wasm.Keeper.Platform.{
  Platform, Context, Action, Report, with_panic, must, call_world, write_kv, emit_event,
  KeeperError, invalid_address, unauthorized, create_failed, no_such_code, pin_failed, unpin_failed,
  duplicate, invalid,
}
use bignftd.Wasm.Keeper.Gas.{consume_gas, runtime_gas_for_contract, consume_runtime_gas}
use bignftd.Wasm.Keeper.Sequence.{must_auto_increment_id}

-- `MaxWasmSize`
abbrev pub max_wasm_size : ℕ
max_wasm_size = 819_200

-- The largest int64.
abbrev pub max_int64 : ℕ
max_int64 = 9_223_372_036_854_775_807

module _ (platform : Platform) where
  -- `mustStoreCodeInfo`
  unfoldable pub must_store_code_info : ℕ → CodeInfo → Action platform Unit
  must_store_code_info code_id info =
      write_kv platform (set (get_code_key code_id) (platform.encode_code info))

  abbrev pub decoded_code : Option Text → Action platform (Option CodeInfo)
  decoded_code none = pure none
  decoded_code (some bz) = do info ← must platform (platform.decode_code bz); pure (some info)

  -- `GetCodeInfo`
  unfoldable pub get_code_info : ℕ → Action platform (Option CodeInfo)
  get_code_info code_id = do bz ← gets (λ c. get (get_code_key code_id) c.kv); decoded_code bz

  -- `containsCodeInfo`
  unfoldable pub contains_code_info : ℕ → Action platform Bool
  contains_code_info code_id = gets (λ c. is_some (get (get_code_key code_id) c.kv))

  -- `IsPinnedCode`
  unfoldable pub is_pinned_code : ℕ → Action platform Bool
  is_pinned_code code_id = gets (λ c. is_some (get (get_pinned_code_index_prefix code_id) c.kv))

  -- `GetByteCode`; nothing for a code that is not stored
  abbrev pub byte_code : Option CodeInfo → Action platform (Option Text)
  byte_code none = pure none
  byte_code (some info) = do
    code ← gets (λ c. platform.get_code info.code_hash c.world)
    bz ← or_raise code invalid
    pure (some bz)

  unfoldable pub get_byte_code : ℕ → Action platform (Option Text)
  get_byte_code code_id = do info ← get_code_info code_id; byte_code info

  abbrev pub code_attribute : ℕ → Text × Text
  code_attribute code_id = (codes "code_id", platform.texts.show_uint code_id)

  abbrev pub require_code : Option CodeInfo → Action platform CodeInfo
  require_code none = raise no_such_code
  require_code (some info) = pure info

  abbrev pub machine : (platform.World → Bool × platform.World) → KeeperError → Action platform Unit
  machine f e c = let (done, w) = f c.world in require done e (record c { world = w })

  -- `pinCode`
  unfoldable pub pin_code : ℕ → Action platform Unit
  pin_code code_id = do
    found ← get_code_info code_id
    info ← require_code found
    machine (platform.pin info.code_hash) pin_failed
    write_kv platform (set (get_pinned_code_index_prefix code_id) (1 ∷ []))
    emit_event platform
        (record { kind = codes "pin_code"; attributes = code_attribute code_id ∷ [] })

  -- `unpinCode`
  unfoldable pub unpin_code : ℕ → Action platform Unit
  unpin_code code_id = do
    found ← get_code_info code_id
    info ← require_code found
    machine (platform.unpin info.code_hash) unpin_failed
    write_kv platform (delete (get_pinned_code_index_prefix code_id))
    emit_event platform
        (record { kind = codes "unpin_code"; attributes = code_attribute code_id ∷ [] })

  -- `strings.Join(addrs, ",")`
  abbrev pub addresses_attribute : List Text → List (Text × Text)
  addresses_attribute [] = []
  addresses_attribute (a ∷ addresses) = (codes "authorized_addresses", join b',' a addresses) ∷ []

  -- `setAccessConfig`; the creator of a stored code parses, else it is a panic
  unfoldable pub set_access_config : ℕ → Addr → AccessConfig → Policy → Action platform Unit
  set_access_config code_id caller config policy = do
    found ← get_code_info code_id
    info ← require_code found
    default_type ← gets (λ c. c.params.instantiate_default_permission)
    creator ← must platform (platform.texts.from_bech32 info.creator)
    require
        (can_modify_code_access_config policy (some creator) caller
          (is_subset_type config.permission default_type))
        unauthorized
    must_store_code_info code_id (record info { instantiate_config = config })
    emit_event platform (record {
      kind = codes "update_code_access_config";
      attributes =
          (codes "code_permission", show_access_type config.permission)
          ∷ code_attribute code_id
          ∷ addresses_attribute (all_authorized_addresses config);
    })

  abbrev pub chosen : Option AccessConfig → AccessConfig → AccessConfig
  chosen none config = config
  chosen (some config) _ = config

  module _ (register : GasConfig) where
    -- The code, uncompressed for a price if it is a gzip archive.
    unfoldable pub uncompressed : Text → Action platform Text
    uncompressed code =
        if is_gzip code
        then (do
          cost ←
              with_panic platform (uncompress_costs platform.mul_floor register (pos (length code)))
          consume_gas platform register cost
          or_raise (uncompress platform.gunzip code max_wasm_size) create_failed)
        else pure code

    -- `StoreCode` of the machine: a checksum, or none for an error, and the gas used.
    abbrev pub store_in_machine : Text → ℕ → Action platform (Option Text × ℕ)
    store_in_machine code gas_left c =
        let (r, w) = platform.store_code code gas_left c.world in (ok r, record c { world = w })

    -- `strings.Split(report.RequiredCapabilities, ",")`
    abbrev pub capabilities_of : Report → List Text
    capabilities_of report =
        let (first, rest) = split b',' report.required_capabilities in first ∷ rest

    abbrev pub capability_attribute : Text → Text × Text
    capability_attribute t = (codes "required_capability", platform.texts.trim_space t)

    -- `create`
    unfoldable pub create :
        Option Addr → Text → Option AccessConfig → Policy → Action platform (ℕ × Text)
    create none code access policy = raise invalid_address
    create (some creator) code access policy = do
      params ← gets (λ c. c.params)
      default_config ← with_panic platform (
          with_addresses (λ t. is_some (platform.texts.from_bech32 t)) platform.texts.to_upper
            params.instantiate_default_permission (platform.texts.to_bech32 creator ∷ []))
      allowed ← with_panic platform (
          can_create_code policy
            (record { upload = params.code_upload_access; instantiate_access = default_config })
            (platform.texts.to_bech32 creator) (chosen access default_config))
      require allowed unauthorized
      wasm ← uncompressed code
      gas_left ← runtime_gas_for_contract platform register
      stored ← store_in_machine wasm gas_left
      consume_runtime_gas platform register stored.1
      checksum ← or_raise stored.0 create_failed
      analysed ← gets (λ c. platform.analyze_code checksum c.world)
      report ← or_raise analysed create_failed
      code_id ← must_auto_increment_id platform key_sequence_code_id
      must_store_code_info code_id
          (new_code_info platform.texts checksum creator (chosen access default_config))
      emit_event platform (record {
        kind = codes "store_code";
        attributes =
            (codes "code_checksum", platform.texts.to_hex checksum)
            ∷ code_attribute code_id
            ∷ map capability_attribute (capabilities_of report);
      })
      pure (code_id, checksum)

    abbrev pub unpacked : Text → Action platform Text
    unpacked code =
        if is_gzip code
        then or_raise (uncompress platform.gunzip code max_int64) create_failed
        else pure code

    abbrev pub store_unchecked : Text → Action platform (Option Text)
    store_unchecked code c =
        let (r, w) = platform.store_code_unchecked code c.world in (ok r, record c { world = w })

    -- `importCode`
    unfoldable pub import_code : ℕ → CodeInfo → Text → Action platform Unit
    import_code code_id info code = do
      wasm ← unpacked code
      stored ← store_unchecked wasm
      hash ← or_raise stored create_failed
      require (text_eq info.code_hash hash) invalid
      known ← contains_code_info code_id
      require (not known) duplicate
      write_kv platform (set (get_code_key code_id) (platform.encode_code info))
