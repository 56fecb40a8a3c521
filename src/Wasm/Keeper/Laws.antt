-- ===== src/Wasm/Keeper/Laws.antt =====
-- What the keeper relies on of the codec: the contracts and the entries of their histories that it
-- encodes are decoded to the same values.
use bignftd.Base.{◌≡◌, some}
use bignftd.Wasm.Contract.{ContractInfo, HistoryEntry}
use bignftd.Wasm.Keeper.Platform.{Platform}

pub record CodecLaws (platform : Platform) : Type 0 where
  pub decode-encode_contract :
      (info : ContractInfo) → platform.decode_contract (platform.encode_contract info) ≡ some info
  pub decode-encode_entry :
      (e : HistoryEntry) → platform.decode_entry (platform.encode_entry e) ≡ some e
