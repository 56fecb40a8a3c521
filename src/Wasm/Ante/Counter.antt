-- ===== src/Wasm/Ante/Counter.antt =====
-- The counter of the transactions of a block (`CountTXDecorator`).
use bignftd.Base.{
  ℕ, zero, suc, ◌+◌, ◌%◌, ◌<◌, ◌≤◌, ◌^◌, ◌==◌, ◌≡◌, refl, ap, ◌∙◌, ◌⊎◌, inl, inr, map, Text, false,
  Option, none, some, List, [], ◌∷◌, if◌then◌else◌, ◌++◌, arith, length, big_endian,
  length-big_endian, read_bytes, read_bytes-big_endian, Fits-uint64, ==_iff,
}
use bignftd.Chain.Store.{Store, get, set, get-set_self}
use bignftd.Wasm.Keys.{tx_counter_prefix}
use bignftd.Wasm.Ante.{
  split_at, encode_height_counter, decode_height_counter, tx_counter_of, count_tx,
}

split_at-append : (s t : Text) (n : ℕ) → length s ≡ n → split_at n (s ++ t) ≡ (s, t)
split_at-append [] t zero h = refl
split_at-append [] t (suc n) h = absurd (omega arith)
split_at-append (c ∷ s) t zero h = absurd (omega arith)
split_at-append (c ∷ s) t (suc n) h =
    ap (λ (p : Text × Text). (c ∷ p.0, p.1)) (split_at-append s t n (omega arith))

-- A height and a counter come back from their bytes.
pub decode_height_counter-encode_height_counter :
    (height counter : ℕ)
    → height < 2 ^ 64
    → counter < 2 ^ 32
    → decode_height_counter (encode_height_counter height counter) ≡ (height, counter)
unfolding decode_height_counter encode_height_counter
decode_height_counter-encode_height_counter height counter h c =
    let parts =
      split_at-append (big_endian 8 height) (big_endian 4 counter) 8 (length-big_endian 8 height) in
    rw parts (
      ap (λ (n : ℕ). (n, read_bytes 0 (big_endian 4 counter)))
        (read_bytes-big_endian 8 height (Fits-uint64 height h))
      ∙ ap (λ (n : ℕ). (height, n)) (read_bytes-big_endian 4 counter (omega arith)))

-- The counters of the transactions of a block at one height, and the store after them
abbrev pub count_block : ℕ → ℕ → Store → List (Option ℕ) × Store
count_block height zero kv = ([], kv)
count_block height (suc n) kv =
    let (counter, kv') = count_tx height false kv in
    let rest = count_block height n kv' in (counter ∷ rest.0, rest.1)

-- Those of blocks one after another, each with its height and its number of transactions
abbrev pub count_blocks : List (ℕ × ℕ) → Store → List (List (Option ℕ))
count_blocks [] kv = []
count_blocks ((height, n) ∷ blocks) kv =
    let out = count_block height n kv in out.0 ∷ count_blocks blocks out.1

abbrev pub numbers_from : ℕ → ℕ → List (Option ℕ)
numbers_from i zero = []
numbers_from i (suc n) = some i ∷ numbers_from (i + 1) n

-- The heights grow from a bound on, and no block has 2^32 transactions.
abbrev pub AreBlocks : ℕ → List (ℕ × ℕ) → Type 0
AreBlocks bound [] = Unit
AreBlocks bound ((height, n) ∷ blocks) =
    (bound ≤ height) × (height < 2 ^ 64) × (n < 2 ^ 32) × AreBlocks (height + 1) blocks

-- No counter is stored, or one of a height below the bound.
pub record IsBehind (bound : ℕ) (kv : Store) : Type 0 where
  pub stored :
      (get tx_counter_prefix kv ≡ none)
      ⊎ ((height : ℕ) × (counter : ℕ) × (get tx_counter_prefix kv
            ≡ some (encode_height_counter height counter))
          × (height < bound)
          × (height < 2 ^ 64)
          × (counter < 2 ^ 32))

counted :
    (height last counter : ℕ)
    → last < 2 ^ 64
    → counter < 2 ^ 32
    → tx_counter_of height (some (encode_height_counter last counter))
      ≡ (if height == last then counter else 0)
unfolding tx_counter_of
counted height last counter h c =
    rw (decode_height_counter-encode_height_counter last counter h c) refl

-- The first transaction of a new height gets 0.
IsBehind-zero :
    (height : ℕ) (kv : Store)
    → IsBehind height kv
    → tx_counter_of height (get tx_counter_prefix kv) ≡ 0
unfolding tx_counter_of
IsBehind-zero height kv b = elim b.stored [
  | inl e ↦ rw e refl
  | inr (last, counter, e, below, h, c) ↦
      rw (e, counted height last counter h c) (ground (arith, ==_iff height last))
]

-- What is stored after a transaction
next_store : ℕ → ℕ → Store → Store
next_store height i kv = set tx_counter_prefix (encode_height_counter height (i + 1)) kv

count_tx-eq :
    (height i : ℕ) (kv : Store)
    → i + 1 < 2 ^ 32
    → tx_counter_of height (get tx_counter_prefix kv) ≡ i
    → count_tx height false kv ≡ (some i, next_store height i kv)
unfolding count_tx next_store
count_tx-eq height i kv fits e =
    let next : (i + 1) % 2 ^ 32 ≡ i + 1 = omega arith in rw (e, next) refl

next_store-counter :
    (height i : ℕ) (kv : Store)
    → height < 2 ^ 64
    → i + 1 < 2 ^ 32
    → tx_counter_of height (get tx_counter_prefix (next_store height i kv)) ≡ i + 1
unfolding next_store
next_store-counter height i kv h fits =
    rw
      (
        get-set_self tx_counter_prefix (encode_height_counter height (i + 1)) kv,
        counted height height (i + 1) h fits,
      )
      (ground (arith, ==_iff height height))

next_store-IsBehind :
    (height i : ℕ) (kv : Store)
    → height < 2 ^ 64
    → i + 1 < 2 ^ 32
    → IsBehind (height + 1) (next_store height i kv)
unfolding next_store
next_store-IsBehind height i kv h fits = record {
  stored = inr (height, i + 1, get-set_self tx_counter_prefix _ kv, omega arith, h, fits);
}

-- A block in which `i` transactions were counted already
count_block-from :
    (height n i : ℕ) (kv : Store)
    → height < 2 ^ 64
    → i + n < 2 ^ 32
    → tx_counter_of height (get tx_counter_prefix kv) ≡ i
    → IsBehind (height + 1) kv
    → ((count_block height n kv).0 ≡ numbers_from i n)
      × IsBehind (height + 1) (count_block height n kv).1
count_block-from height zero i kv h fits e b = (refl, b)
count_block-from height (suc n) i kv h fits e b =
    let rest =
      count_block-from height n (i + 1) (next_store height i kv) h (omega arith)
        (next_store-counter height i kv h (omega arith))
        (next_store-IsBehind height i kv h (omega arith)) in
    rw (count_tx-eq height i kv (omega arith) e)
      (ap (λ (l : List (Option ℕ)). some i ∷ l) rest.0, rest.1)

IsBehind-le : (a b : ℕ) (kv : Store) → a ≤ b → IsBehind a kv → IsBehind b kv
IsBehind-le a b kv le behind = record {
  stored = elim behind.stored [
    | inl e ↦ inl e
    | inr (last, counter, e, below, h, c) ↦ inr (last, counter, e, omega arith, h, c)
  ];
}

-- The transactions of every block are numbered in order from 0, for blocks of growing heights in 64
-- bits with fewer than 2^32 transactions each, none of them simulated, if the store has no counter at
-- first or one of a lower height.
pub count_blocks-numbers_from :
    (bound : ℕ) (blocks : List (ℕ × ℕ)) (kv : Store)
    → IsBehind bound kv
    → AreBlocks bound blocks
    → count_blocks blocks kv ≡ map (λ (b : ℕ × ℕ). numbers_from 0 b.1) blocks
count_blocks-numbers_from bound [] kv behind fine = refl
count_blocks-numbers_from bound ((height, n) ∷ blocks) kv behind (le, h, fits, fine) =
    let here = IsBehind-le bound height kv le behind in
    let (numbers, after_) =
      count_block-from height n 0 kv h (omega arith) (IsBehind-zero height kv here)
        (IsBehind-le height (height + 1) kv (omega arith) here) in
    rw numbers (
      ap (λ (l : List (List (Option ℕ))). numbers_from 0 n ∷ l)
        (count_blocks-numbers_from (height + 1) blocks _ after_ fine))
