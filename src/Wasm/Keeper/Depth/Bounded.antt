-- ===== src/Wasm/Keeper/Depth/Bounded.antt =====
-- Nested calls and queries end: each step into one counts up to a bound
-- (x/wasm/keeper/keeper.go).
use bignftd.Base.{
  ℕ, zero, suc, ◌+◌, ◌-◌, ◌^◌, ◌<◌, ◌≤◌, ◌≡◌, refl, none, some, arith, leb, Bool-cases, inl, inr,
  leb→le, le→leb, if◌then◌else◌,
}
use bignftd.Chain.Outcome.{ok, err, ◌>>◌, pure}
use bignftd.Wasm.Keeper.Platform.{
  Platform, Context, Action, KeeperError, exceed_max_query_stack_size, exceed_max_call_depth,
}
use bignftd.Wasm.Keeper.Depth.{
  count_of, check_and_increase_query_stack_size, check_and_increase_call_depth,
}

module _ (platform : Platform) where
  -- Calls within calls, each of which passes the check in the context of the one before.
  unfoldable pub nest : Action platform Unit → ℕ → Action platform Unit
  nest check zero = pure tt
  nest check (suc n) = check >> nest check n

  -- A check that counts up to a bound, and refuses there.
  record Counts (check : Action platform Unit) (count : Context platform → ℕ) (max : ℕ)
      (e : KeeperError) : Type 0 where
    step :
        (c : Context platform)
        → count c < max
        → (c' : Context platform) × (check c ≡ (ok tt, c')) × (count c' ≡ suc (count c))
    full : (c : Context platform) → count c ≡ max → check c ≡ (err e, c)

  nest-Counts :
      (check : Action platform Unit) (count : Context platform → ℕ) (max : ℕ) (e : KeeperError)
      → Counts check count max e
      → (n : ℕ) (c : Context platform) → count c ≤ max
      → (nest check n c).0 ≡ (if leb (count c + n) max then ok tt else err e)
  unfolding nest
  nest-Counts check count max e counts zero c below =
      rw (le→leb (count c + 0) max (omega arith)) refl
  nest-Counts check count max e counts (suc n) c below =
      elim (Bool-cases (leb (suc (count c)) max)) [
        | inl more ↦
            let (c', passed, next) = counts.step c (leb→le (suc (count c)) max more) in
            let bound = leb→le (suc (count c)) max more in
            let same : count c' + n ≡ count c + suc n = omega (arith, next) in
            rw
              (passed, nest-Counts check count max e counts n c' (omega (arith, next, bound)), same)
              refl
        | inr full ↦ rw (counts.full c (ground arith)) (ground arith)
      ]

  call_depth-Counts :
      (max : ℕ)
      → max < 2 ^ 32 - 1
      → Counts
          (check_and_increase_call_depth platform max)
          (λ c. count_of c.call_depth)
          max
          exceed_max_call_depth
  unfolding check_and_increase_call_depth
  call_depth-Counts max small = record {
    step = λ c less.
        (record c { call_depth = some (suc (count_of c.call_depth)) }, ground arith, refl);
    full = λ c e. ground arith;
  }

  query_stack_size-Counts :
      (max : ℕ)
      → max < 2 ^ 32 - 1
      → Counts
          (check_and_increase_query_stack_size platform max)
          (λ c. count_of c.query_stack_size)
          max
          exceed_max_query_stack_size
  unfolding check_and_increase_query_stack_size
  query_stack_size-Counts max small = record {
    step = λ c less. (
      record c { query_stack_size = some (suc (count_of c.query_stack_size)) },
      ground arith,
      refl,
    );
    full = λ c e. ground arith;
  }

  -- Nested calls, and nested queries, end: with a bound below 2³² - 1, from a context that counts
  -- none, `checkAndIncreaseCallDepth` and `checkAndIncreaseQueryStackSize` let `n` of them nest where
  -- `n` is no more than their bound, and refuse a deeper nesting with their error.
  pub nest_lem :
      (max n : ℕ) (c : Context platform)
      → max < 2 ^ 32 - 1
      → c.call_depth ≡ none
      → c.query_stack_size ≡ none
      → ((nest (check_and_increase_call_depth platform max) n c).0
          ≡ (if leb n max then ok tt else err exceed_max_call_depth))
        × ((nest (check_and_increase_query_stack_size platform max) n c).0
            ≡ (if leb n max then ok tt else err exceed_max_query_stack_size))
  nest_lem max n c small depth stack = (
    ground (
      arith,
      nest-Counts (check_and_increase_call_depth platform max) (λ c. count_of c.call_depth) max
          exceed_max_call_depth (call_depth-Counts max small) n c,
    ),
    ground (
      arith,
      nest-Counts (check_and_increase_query_stack_size platform max)
          (λ c. count_of c.query_stack_size) max exceed_max_query_stack_size
          (query_stack_size-Counts max small) n c,
    ),
  )
