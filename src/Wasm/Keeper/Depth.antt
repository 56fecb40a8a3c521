-- ===== src/Wasm/Keeper/Depth.antt =====
-- The bounds on nested queries and calls (x/wasm/keeper/keeper.go).
pub mod Bounded
use bignftd.Base.{ℕ, ◌+◌, ◌%◌, ◌^◌, Option, none, some, leb}
use bignftd.Chain.Outcome.{Result, ok, err, ◌>>=◌, ◌>>◌, pure, raise, gets, modify, require}
use bignftd.Wasm.Keeper.Platform.{
  Platform, Context, Action, exceed_max_query_stack_size, exceed_max_call_depth,
}

-- The count of a context, 0 where it has none.
abbrev pub count_of : Option ℕ → ℕ
count_of none = 0
count_of (some n) = n

module _ (platform : Platform) where
  -- `checkAndIncreaseQueryStackSize`, on a uint32
  unfoldable pub check_and_increase_query_stack_size : ℕ → Action platform Unit
  check_and_increase_query_stack_size max_query_stack_size = do
    size ← gets (λ c. (count_of c.query_stack_size + 1) % 2 ^ 32)
    require (leb size max_query_stack_size) exceed_max_query_stack_size
    modify (λ c. record c { query_stack_size = some size })

  -- `checkAndIncreaseCallDepth`, on a uint32
  unfoldable pub check_and_increase_call_depth : ℕ → Action platform Unit
  check_and_increase_call_depth max_call_depth = do
    depth ← gets (λ c. (count_of c.call_depth + 1) % 2 ^ 32)
    require (leb depth max_call_depth) exceed_max_call_depth
    modify (λ c. record c { call_depth = some depth })
