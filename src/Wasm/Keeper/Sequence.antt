-- ===== src/Wasm/Keeper/Sequence.antt =====
-- The sequences that number codes and contracts (x/wasm/keeper/keeper.go).
use bignftd.Base.{ℕ, ◌+◌, ◌%◌, Text, Option, none, some, uint64_to_big_endian, big_endian_to_uint64}
use bignftd.Chain.Outcome.{◌>>=◌, ◌>>◌, pure, raise, gets}
use bignftd.Chain.Store.{get, set}
use bignftd.Wasm.Gas.{u64_mod}
use bignftd.Wasm.Keeper.Platform.{Platform, Action, write_kv, duplicate}

-- The next number: 1 where nothing is stored.
unfoldable pub next_id : Option Text → ℕ
next_id none = 1
next_id (some bz) = big_endian_to_uint64 bz

module _ (platform : Platform) where
  -- `mustAutoIncrementID`
  unfoldable pub must_auto_increment_id : Text → Action platform ℕ
  must_auto_increment_id sequence_key = do
    id ← gets (λ c. next_id (get sequence_key c.kv))
    write_kv platform (set sequence_key (uint64_to_big_endian ((id + 1) % u64_mod)))
    pure id

  -- `PeekAutoIncrementID`
  unfoldable pub peek_auto_increment_id : Text → Action platform ℕ
  peek_auto_increment_id sequence_key = gets (λ c. next_id (get sequence_key c.kv))

  abbrev pub refuse_duplicate : Option Text → Action platform Unit
  refuse_duplicate none = pure tt
  refuse_duplicate (some bz) = raise duplicate

  -- `importAutoIncrementID`
  unfoldable pub import_auto_increment_id : Text → ℕ → Action platform Unit
  import_auto_increment_id sequence_key value = do
    old ← gets (λ c. get sequence_key c.kv)
    refuse_duplicate old
    write_kv platform (set sequence_key (uint64_to_big_endian value))
