-- ===== src/Wasm/Keys.antt =====
-- x/wasm/types/keys.go: the keys of the wasm module's store.
pub mod Order
pub mod Packets
use bignftd.Base.{
  ℕ, ◌<◌, ◌^◌, ◌≡◌, Text, codes, Option, none, some, [], ◌∷◌, ◌++◌, length, big_endian,
  uint64_to_big_endian, big_endian_to_uint64,
}
use bignftd.Chain.Outcome.{ok, panic, fatal}
use bignftd.Chain.Checks.{◌>>=◌}
use bignftd.Wasm.Gas.{Priced}
use bignftd.Wasm.Position.{Position}

abbrev pub code_key_prefix : Text
code_key_prefix = 1 ∷ []

abbrev pub contract_key_prefix : Text
contract_key_prefix = 2 ∷ []

abbrev pub contract_store_prefix : Text
contract_store_prefix = 3 ∷ []

abbrev pub sequence_key_prefix : Text
sequence_key_prefix = 4 ∷ []

abbrev pub contract_code_history_element_prefix : Text
contract_code_history_element_prefix = 5 ∷ []

abbrev pub contract_by_code_id_and_created_secondary_index_prefix : Text
contract_by_code_id_and_created_secondary_index_prefix = 6 ∷ []

abbrev pub pinned_code_index_prefix : Text
pinned_code_index_prefix = 7 ∷ []

abbrev pub tx_counter_prefix : Text
tx_counter_prefix = 8 ∷ []

abbrev pub contracts_by_creator_prefix : Text
contracts_by_creator_prefix = 9 ∷ []

abbrev pub gasless_contract_index_prefix : Text
gasless_contract_index_prefix = 10 ∷ []

abbrev pub async_ack_key_prefix : Text
async_ack_key_prefix = 17 ∷ []

abbrev pub key_sequence_code_id : Text
key_sequence_code_id = sequence_key_prefix ++ codes "lastCodeId"

abbrev pub key_sequence_instance_id : Text
key_sequence_instance_id = sequence_key_prefix ++ codes "lastContractId"

-- `GetCodeKey`
unfoldable pub get_code_key : ℕ → Text
get_code_key code_id = code_key_prefix ++ uint64_to_big_endian code_id

-- `GetContractAddressKey`
unfoldable pub get_contract_address_key : Text → Text
get_contract_address_key addr = contract_key_prefix ++ addr

-- `GetContractsByCreatorPrefix`; the length prefix is the SDK's, which panics on long addresses.
unfoldable pub get_contracts_by_creator_prefix : (Text → Priced Text) → Text → Priced Text
get_contracts_by_creator_prefix length_prefix addr =
    length_prefix addr >>= λ bz. ok (contracts_by_creator_prefix ++ bz)

-- `GetContractStorePrefix`
unfoldable pub get_contract_store_prefix : Text → Text
get_contract_store_prefix addr = contract_store_prefix ++ addr

-- `GetAsyncPacketKey`: the length of the channel in four bytes, the channel and the sequence
unfoldable pub get_async_packet_key : Text → ℕ → Text
get_async_packet_key dest_channel sequence =
    big_endian 4 (length dest_channel) ++ (dest_channel ++ uint64_to_big_endian sequence)

-- `GetAsyncAckStorePrefix`
unfoldable pub get_async_ack_store_prefix : Text → Text
get_async_ack_store_prefix port_id = async_ack_key_prefix ++ port_id

-- `AbsoluteTxPosition.Bytes`; a nil position is a panic.
unfoldable pub position_bytes : Option Position → Priced Text
position_bytes none = panic fatal
position_bytes (some p) =
    ok (uint64_to_big_endian p.block_height ++ uint64_to_big_endian p.tx_index)

-- `AbsoluteTxPositionLen`
abbrev pub absolute_tx_position_len : ℕ
absolute_tx_position_len = 16

-- `GetContractByCodeIDSecondaryIndexPrefix`
unfoldable pub get_contract_by_code_id_secondary_index_prefix : ℕ → Text
get_contract_by_code_id_secondary_index_prefix code_id =
    contract_by_code_id_and_created_secondary_index_prefix ++ uint64_to_big_endian code_id

-- `GetContractByCreatedSecondaryIndexKey`, of the code and the position of a history entry
unfoldable pub get_contract_by_created_secondary_index_key :
    Text → ℕ → Option Position → Priced Text
get_contract_by_created_secondary_index_key addr code_id updated =
    position_bytes updated >>= λ position.
    ok (get_contract_by_code_id_secondary_index_prefix code_id ++ (position ++ addr))

-- `GetContractByCreatorSecondaryIndexKey`
unfoldable pub get_contract_by_creator_secondary_index_key :
    (Text → Priced Text) → Text → Text → Text → Priced Text
unfolding get_contracts_by_creator_prefix
get_contract_by_creator_secondary_index_key length_prefix creator position addr =
    get_contracts_by_creator_prefix length_prefix creator >>= λ prefix.
    ok (prefix ++ (position ++ addr))

-- `GetContractCodeHistoryElementPrefix`
unfoldable pub get_contract_code_history_element_prefix : Text → Text
get_contract_code_history_element_prefix addr = contract_code_history_element_prefix ++ addr

-- `GetContractCodeHistoryElementKey`
unfoldable pub get_contract_code_history_element_key : Text → ℕ → Text
unfolding get_contract_code_history_element_prefix
get_contract_code_history_element_key addr pos =
    get_contract_code_history_element_prefix addr ++ uint64_to_big_endian pos

-- `GetPinnedCodeIndexPrefix`
unfoldable pub get_pinned_code_index_prefix : ℕ → Text
get_pinned_code_index_prefix code_id = pinned_code_index_prefix ++ uint64_to_big_endian code_id

-- `GetGaslessContractIndexPrefix`
unfoldable pub get_gasless_contract_index_prefix : Text → Text
get_gasless_contract_index_prefix addr = gasless_contract_index_prefix ++ addr

-- `ParsePinnedCodeIndex`
unfoldable pub parse_pinned_code_index : Text → ℕ
parse_pinned_code_index s = big_endian_to_uint64 s
