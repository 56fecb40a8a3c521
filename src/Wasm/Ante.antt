-- ===== src/Wasm/Ante.antt =====
-- x/wasm/keeper/ante.go: what is put into the context of a transaction before it runs.
pub mod Counter
use bignftd.Base.{
  ℕ, ◌+◌, ◌%◌, ◌^◌, ltb, ◌==◌, Text, Bool, true, false, Option, none, some, List, [], ◌∷◌, ◌++◌,
  big_endian, uint64_to_big_endian, read_bytes, if◌then◌else◌,
}
use bignftd.Chain.Store.{Store, get, set}
use bignftd.Chain.Sdk.{ℤ, pos, negsuc}
use bignftd.Wasm.Gas.{GasConfig}
use bignftd.Wasm.Keys.{tx_counter_prefix}

-- The first bytes of a text, and the bytes behind them.
abbrev pub split_at : ℕ → Text → Text × Text
split_at ℕ.zero t = ([], t)
split_at (ℕ.suc n) [] = ([], [])
split_at (ℕ.suc n) (c ∷ t) = let (s, rest) = split_at n t in (c ∷ s, rest)

-- `encodeHeightCounter`; a block height is an int64 that is not negative.
unfoldable pub encode_height_counter : ℕ → ℕ → Text
encode_height_counter height counter = uint64_to_big_endian height ++ big_endian 4 counter

-- `decodeHeightCounter`, of twelve bytes
unfoldable pub decode_height_counter : Text → ℕ × ℕ
decode_height_counter bz =
    let (height, counter) = split_at 8 bz in (read_bytes 0 height, read_bytes 0 counter)

-- The counter of this transaction, from what is stored.
unfoldable pub tx_counter_of : ℕ → Option Text → ℕ
tx_counter_of height none = 0
tx_counter_of height (some bz) =
    let (last_height, value) = decode_height_counter bz in
    if height == last_height then value else 0

-- `CountTXDecorator.AnteHandle`: the counter that goes into the context, if any, and the store. The
-- next counter is a uint32.
unfoldable pub count_tx : ℕ → Bool → Store → Option ℕ × Store
count_tx height true kv = (none, kv)
count_tx height false kv =
    let counter = tx_counter_of height (get tx_counter_prefix kv) in
    (some counter, set tx_counter_prefix (encode_height_counter height ((counter + 1) % 2 ^ 32)) kv)

-- `LimitSimulationGasDecorator.AnteHandle`: the limit of a new gas meter, or none where the meter
-- of the context stays. The gas of a block is an int64.
unfoldable pub simulation_gas_limit : Option ℕ → ℤ → Bool → Option ℕ
simulation_gas_limit custom max_gas false = none
simulation_gas_limit (some n) max_gas true = some n
simulation_gas_limit none (pos n) true = if ltb 0 n then some n else none
simulation_gas_limit none (negsuc n) true = none
