-- ===== src/Tests/Keys.antt =====
-- The theorems on the keys, the counter, the events and the addresses of the wasm module at work.
use bignftd.Base.{
  ◌≡◌, refl, Text, codes, some, List, [], ◌∷◌, ◌++◌, arith, none, inl, text_lt,
  uint64_to_big_endian, All,
}
use bignftd.Chain.Outcome.{ok}
use bignftd.Chain.Checks.{Ensures}
use bignftd.Chain.Store.{get}
use bignftd.Wasm.Position.{Position, less_than}
use bignftd.Wasm.Keys.{position_bytes, tx_counter_prefix}
use bignftd.Wasm.Keys.Order.{IsPosition, text_lt-position_bytes}
use bignftd.Wasm.Ante.Counter.{count_blocks, numbers_from, count_blocks-numbers_from}
use bignftd.Wasm.Gas.{Attribute, WasmEvent}
use bignftd.Wasm.Events.{new_wasm_module_event, new_custom_events}
use bignftd.Wasm.Events.Reserved.{IsOwn, contract_events-IsOwn}
use bignftd.Wasm.Keeper.Addresses.Predictable.{predictable_key-injective}

abbrev early : Position
early = record { block_height = 2; tx_index = 700 }

abbrev late : Position
late = record { block_height = 3; tx_index = 1 }

abbrev bytes_of : Position → Text
bytes_of p = uint64_to_big_endian p.block_height ++ uint64_to_big_endian p.tx_index

early-IsPosition : IsPosition early
early-IsPosition = record { height_fits = omega arith; index_fits = omega arith }

late-IsPosition : IsPosition late
late-IsPosition = record { height_fits = omega arith; index_fits = omega arith }

early_bytes : position_bytes (some early) ≡ ok (bytes_of early)
unfolding position_bytes
early_bytes = refl

late_bytes : position_bytes (some late) ≡ ok (bytes_of late)
unfolding position_bytes
late_bytes = refl

text_lt-position_bytes_example :
    text_lt (bytes_of early) (bytes_of late) ≡ less_than (some early) (some late)
text_lt-position_bytes_example =
    text_lt-position_bytes early late (bytes_of early) (bytes_of late) early-IsPosition
      late-IsPosition early_bytes late_bytes

nothing_stored : get tx_counter_prefix [] ≡ none
unfolding get
nothing_stored = refl

count_blocks-numbers_from_example :
    count_blocks ((5, 3) ∷ (7, 2) ∷ []) [] ≡ numbers_from 0 3 ∷ numbers_from 0 2 ∷ []
count_blocks-numbers_from_example =
    count_blocks-numbers_from 5 ((5, 3) ∷ (7, 2) ∷ []) [] (record { stored = inl nothing_stored })
      (omega arith)

abbrev attributes : List Attribute
attributes =
    record { key = codes "action"; value = codes "mint" }
    ∷ record { key = codes "_contract_address"; value = codes "another" }
    ∷ []

abbrev custom : List WasmEvent
custom =
    record {
      kind = codes "minted";
      attributes = record { key = codes "to"; value = codes "bob" } ∷ [];
    }
    ∷ []

contract_events-IsOwn_example :
    Ensures
      (All (IsOwn (λ t. t) (codes "counter")))
      (new_wasm_module_event (λ t. t) attributes (codes "counter"))
    × Ensures
        (All (IsOwn (λ t. t) (codes "counter")))
        (new_custom_events (λ t. t) custom (codes "counter"))
contract_events-IsOwn_example = contract_events-IsOwn (λ t. t) attributes custom (codes "counter")

predictable_key-injective_example :
    (codes "checksum" ≡ codes "checksum")
    × (codes "alice" ≡ codes "alice")
    × (codes "salt" ≡ codes "salt")
    × (codes "{}" ≡ codes "{}")
predictable_key-injective_example =
    predictable_key-injective (codes "checksum") (codes "alice") (codes "salt") (codes "{}")
      (codes "checksum") (codes "alice") (codes "salt") (codes "{}") (omega arith) (omega arith)
      (omega arith) (omega arith) (omega arith) (omega arith) (omega arith) (omega arith) refl
