-- ===== src/Tests/Genesis.antt =====
-- The genesis of the wasm module at work on the small chain.
use bignftd.Base.{
  ◌≡◌, refl, ap, codes, true, [], ◌∷◌, arith, text_eq, text_lt, big_endian, big_endian_to_uint64,
  read_bytes, strip_prefix,
}
use bignftd.Chain.Outcome.{Result, ok}
use bignftd.Chain.Store.{get, set}
use bignftd.Wasm.Keys.{
  key_sequence_code_id, get_code_key, get_contract_address_key, get_pinned_code_index_prefix,
}
use bignftd.Wasm.Archive.{is_gzip}
use bignftd.Wasm.Keeper.Platform.{Context, KeeperError}
use bignftd.Wasm.Keeper.Sequence.{
  next_id, peek_auto_increment_id, import_auto_increment_id, must_auto_increment_id,
}
use bignftd.Wasm.Keeper.Code.{import_code, contains_code_info, pin_code, get_code_info}
use bignftd.Wasm.Keeper.Code.Fresh.{HasFreshCodes}
use bignftd.Wasm.Keeper.Contracts.{has_contract_info}
use bignftd.Wasm.Keeper.Addresses.{classic_address_generator, build_contract_address_classic}
use bignftd.Wasm.Genesis.{
  WasmGenesis, import_codes, import_contracts, import_sequences, init_wasm_genesis,
}
use bignftd.Wasm.Genesis.Fresh.{IsSound, init_wasm_genesis-HasFreshCodes}
use bignftd.Tests.Chain.{chain, prices, start_of, code_info}

-- A code with the number 7, which is pinned, and the sequence behind it.
abbrev genesis : WasmGenesis
genesis = record {
  params = (start_of []).params;
  codes =
      record {
        code_id = 7;
        info = code_info (codes "wasm");
        code_bytes = codes "wasm";
        pinned = true;
      }
      ∷ [];
  contracts = [];
  sequences = record { id_key = key_sequence_code_id; value = 8 } ∷ [];
}

genesis-IsSound : IsSound chain genesis
unfolding get_code_key
genesis-IsSound = record { code_ids = (omega arith, tt); sequence_keys = (λ id e. cc e, tt) }

abbrev fresh_start : Context chain
fresh_start = (init_wasm_genesis chain prices genesis (start_of [])).1

imported : (init_wasm_genesis chain prices genesis (start_of [])).0 ≡ ok tt
unfolding init_wasm_genesis import_codes import_contracts import_sequences import_code
    contains_code_info pin_code get_code_info get set text_eq text_lt big_endian
    big_endian_to_uint64 read_bytes next_id peek_auto_increment_id import_auto_increment_id
    must_auto_increment_id has_contract_info classic_address_generator
    build_contract_address_classic get_code_key get_contract_address_key
    get_pinned_code_index_prefix is_gzip strip_prefix
imported = refl

init_wasm_genesis-HasFreshCodes_example : HasFreshCodes fresh_start.kv
init_wasm_genesis-HasFreshCodes_example =
    init_wasm_genesis-HasFreshCodes chain prices genesis (start_of []) fresh_start genesis-IsSound
      refl (ap (λ (r : Result KeeperError (Unit {0})). (r, fresh_start)) imported)
