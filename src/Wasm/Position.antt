-- ===== src/Wasm/Position.antt =====
-- `AbsoluteTxPosition` of x/wasm/types/types.go: where in the chain a contract was created.
use bignftd.Base.{ℕ, ◌≡◌, Bool, true, false, ◌&&◌, ◌||◌, Option, none, some, ltb, ◌==◌, arith}
use bignftd.Chain.Outcome.{ok, panic, fatal}
use bignftd.Chain.Sdk.{ℤ, pos, negsuc}
use bignftd.Wasm.Gas.{Priced}

-- Both are uint64.
pub record Position : Type 0 where
  pub block_height : ℕ
  pub tx_index : ℕ

-- `NewAbsoluteTxPosition`, from the gas consumed in the block, if it is metered, and the height
unfoldable pub new_position : Option ℕ → ℤ → Priced Position
new_position meter (negsuc n) = panic fatal
new_position none (pos n) = ok (record { block_height = n; tx_index = 0 })
new_position (some index) (pos n) = ok (record { block_height = n; tx_index = index })

-- `LessThan`; a nil pointer is `none`.
unfoldable pub less_than : Option Position → Option Position → Bool
less_than none b = true
less_than (some a) none = false
less_than (some a) (some b) =
    ltb a.block_height b.block_height
    || a.block_height == b.block_height && ltb a.tx_index b.tx_index

-- `LessThan` is transitive.
pub less_than_trans :
    (a b c : Position)
    → less_than (some a) (some b) ≡ true
    → less_than (some b) (some c) ≡ true
    → less_than (some a) (some c) ≡ true
unfolding less_than
less_than_trans a b c h k = ground arith

-- Two positions neither of which is less than the other by `LessThan` are the same, in height and
-- index.
pub less_than_total :
    (a b : Position)
    → less_than (some a) (some b) ≡ false
    → less_than (some b) (some a) ≡ false
    → (a.block_height ≡ b.block_height) × (a.tx_index ≡ b.tx_index)
unfolding less_than
less_than_total a b h k = ground arith
