-- ===== src/Wasm/Keeper/Addresses.antt =====
-- x/wasm/keeper/addresses.go: the addresses of new contracts.
pub mod Predictable
use bignftd.Base.{
  ℕ, Text, Bool, true, false, not, ◌&&◌, List, [], ◌∷◌, ◌++◌, length, ◌==◌, uint64_to_big_endian,
  if◌then◌else◌,
}
use bignftd.Chain.Outcome.{Result, ok, err, panic, fatal, ◌>>=◌, ◌>>◌, pure, raise}
use bignftd.Chain.Sdk.{Addr}
use bignftd.Wasm.Gas.{Priced}
use bignftd.Wasm.Keys.{key_sequence_instance_id}
use bignftd.Wasm.Contract.{validate_salt}
use bignftd.Wasm.Keeper.Platform.{Platform, Context, Action, with_panic}
use bignftd.Wasm.Keeper.Sequence.{must_auto_increment_id}

-- `UInt64LengthPrefix`
unfoldable pub uint64_length_prefix : Text → Text
uint64_length_prefix bz = uint64_to_big_endian (length bz) ++ bz

-- The key that `BuildContractAddressPredictable` hashes.
unfoldable pub predictable_key : Text → Addr → Text → Text → Text
unfolding uint64_length_prefix
predictable_key checksum creator salt init_msg =
    uint64_length_prefix checksum
    ++ (uint64_length_prefix creator
        ++ (uint64_length_prefix salt ++ uint64_length_prefix init_msg))

-- `ValidateSalt` succeeds.
abbrev pub passes : {E A : Type 0} → Result E A → Bool
passes (ok a) = true
passes (err e) = false
passes (panic p) = false

module _ (platform : Platform) where
  -- `BuildContractAddressClassic`
  unfoldable pub build_contract_address_classic : ℕ → ℕ → Addr
  build_contract_address_classic code_id instance_id =
      platform.module_address (uint64_to_big_endian code_id ++ uint64_to_big_endian instance_id)

  -- `BuildContractAddressPredictable`; bad arguments are a panic.
  unfoldable pub build_contract_address_predictable : Text → Addr → Text → Text → Priced Addr
  build_contract_address_predictable checksum creator salt init_msg =
      if not (length checksum == 32)
      then panic fatal
      else if not (platform.is_valid_address creator)
      then panic fatal
      else if not (passes (validate_salt salt))
      then panic fatal
      else if not (length init_msg == 0) && not (platform.texts.is_json init_msg)
      then panic fatal
      else ok (platform.module_address (predictable_key checksum creator salt init_msg))

  -- `AddressGenerator`
  abbrev pub AddressGenerator : Type 0
  AddressGenerator = ℕ → Text → Action platform Addr

  -- `ClassicAddressGenerator`
  unfoldable pub classic_address_generator : AddressGenerator
  classic_address_generator code_id checksum = do
    instance_id ← must_auto_increment_id platform key_sequence_instance_id
    pure (build_contract_address_classic code_id instance_id)

  -- `PredictableAddressGenerator`: a message that is not fixed is cleared.
  unfoldable pub predictable_address_generator : Addr → Text → Text → Bool → AddressGenerator
  predictable_address_generator creator salt msg fix_msg code_id checksum =
      with_panic platform
        (build_contract_address_predictable checksum creator salt (if fix_msg then msg else []))
