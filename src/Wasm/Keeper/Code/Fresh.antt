-- ===== src/Wasm/Keeper/Code/Fresh.antt =====
-- A new code gets a number that no stored code has (x/wasm/keeper/keeper.go).
use bignftd.Base.{
  ℕ, suc, ◌+◌, ◌%◌, ◌<◌, ◌≤◌, ◌≡◌, ◌≢◌, refl, sym, ap, ◌∙◌, Text, Option, none, some, arith,
  uint64_to_big_endian, big_endian_to_uint64, read_bytes-big_endian, big_endian-injective,
  Fits-uint64, Bool-cases, inl, inr,
}
use bignftd.Chain.Outcome.{Result, ok, err, panic, continue, ◌>>=◌, ◌>>◌, pure, raise}
use bignftd.Chain.Keeps.{Keeps}
use bignftd.Chain.Store.{Store, get, set, get-set_ne, get-set_self}
use bignftd.Chain.Sdk.{Addr}
use bignftd.Wasm.Gas.{GasConfig, u64_mod}
use bignftd.Wasm.Archive.{is_gzip}
use bignftd.Wasm.Policy.{Policy}
use bignftd.Wasm.Access.{AccessConfig}
use bignftd.Wasm.Dispatcher.{Event}
use bignftd.Wasm.Keys.{get_code_key, key_sequence_code_id}
use bignftd.Wasm.Contract.{new_code_info}
use bignftd.Wasm.Keeper.Platform.{Platform, Context, Action, KeeperError, emit_event}
use bignftd.Wasm.Keeper.Sequence.{next_id, must_auto_increment_id}
use bignftd.Wasm.Keeper.Code.{must_store_code_info, uncompressed, store_in_machine, create}
use bignftd.Wasm.Keeper.Keeping.{
  OnKv, kv_rules, Keeps-consume_gas, Keeps-runtime_gas_for_contract, Keeps-consume_runtime_gas,
}

-- The number that the next code gets.
abbrev pub next_code : Store → ℕ
next_code kv = next_id (get key_sequence_code_id kv)

-- No code is stored from the next number on.
pub record HasFreshCodes (kv : Store) : Type 0 where
  pub fresh : (id : ℕ) → next_code kv ≤ id → id < u64_mod → get (get_code_key id) kv ≡ none

pub get_code_key-injective :
    (a b : ℕ) → a < u64_mod → b < u64_mod → get_code_key a ≡ get_code_key b → a ≡ b
unfolding get_code_key
get_code_key-injective a b ha hb e =
    big_endian-injective 8 a b (Fits-uint64 a ha) (Fits-uint64 b hb) (cc e)

big_endian_to_uint64_lem : (n : ℕ) → n < u64_mod → big_endian_to_uint64 (uint64_to_big_endian n) ≡ n
unfolding big_endian_to_uint64
big_endian_to_uint64_lem n h = read_bytes-big_endian 8 n (Fits-uint64 n h)

code_key-sequence : (id : ℕ) → key_sequence_code_id ≢ get_code_key id
unfolding get_code_key
code_key-sequence id e = cc e

module _ (platform : Platform) where
  -- What `create` does to the store: the code's data stands under a number that had none, and the
  -- data of the others stay.
  pub record Creates (creator : Addr) (kv : Store) (id : ℕ) (checksum : Text) (kv' : Store)
      : Type 0 where
    pub config : AccessConfig
    pub is_next : id ≡ next_code kv
    pub was_free : get (get_code_key id) kv ≡ none
    pub is_stored :
        get (get_code_key id) kv'
        ≡ some (platform.encode_code (new_code_info platform.texts checksum creator config))
    pub others :
        (other : ℕ)
        → other < u64_mod
        → other ≢ id
        → get (get_code_key other) kv' ≡ get (get_code_key other) kv
    pub still_fresh : HasFreshCodes kv'
    pub next : next_code kv' ≡ suc id

  abbrev pub CreateOutcome :
      Addr → Store → Result KeeperError (ℕ × Text) × Context platform → Type 0
  CreateOutcome creator kv (ok (id, checksum), c') = Creates creator kv id checksum c'.kv
  CreateOutcome creator kv (err e, c') = c'.kv ≡ kv
  CreateOutcome creator kv (panic p, c') = c'.kv ≡ kv

  -- The store behind `create`.
  abbrev with_code : ℕ → Text → Store → Store
  with_code id bz kv =
      set (get_code_key id) bz
        (set key_sequence_code_id (uint64_to_big_endian ((id + 1) % u64_mod)) kv)

  module _ (kv : Store) (fresh : HasFreshCodes kv) (small : suc (next_code kv) < u64_mod)
      (bz : Text) where
    abbrev new_id : ℕ
    new_id = next_code kv

    get-with_code :
        (k : Text)
        → key_sequence_code_id ≢ k
        → get_code_key new_id ≢ k
        → get k (with_code new_id bz kv) ≡ get k kv
    get-with_code k h g =
        get-set_ne (get_code_key new_id) k bz
          (set key_sequence_code_id (uint64_to_big_endian ((new_id + 1) % u64_mod)) kv) g
        ∙ get-set_ne key_sequence_code_id k (uint64_to_big_endian ((new_id + 1) % u64_mod)) kv h

    with_code-others :
        (other : ℕ)
        → other < u64_mod
        → other ≢ new_id
        → get (get_code_key other) (with_code new_id bz kv) ≡ get (get_code_key other) kv
    with_code-others other bound apart =
        get-with_code (get_code_key other) (code_key-sequence other)
          (λ e. apart (sym (get_code_key-injective new_id other (omega arith) bound e)))

    with_code-next : next_code (with_code new_id bz kv) ≡ suc new_id
    unfolding next_id
    with_code-next =
        let counted : (new_id + 1) % u64_mod ≡ suc new_id = omega arith in
        let read : get key_sequence_code_id (with_code new_id bz kv)
            ≡ some (uint64_to_big_endian (suc new_id)) =
          get-set_ne (get_code_key new_id) key_sequence_code_id bz _
            (λ e. code_key-sequence new_id (sym e))
          ∙ get-set_self key_sequence_code_id (uint64_to_big_endian ((new_id + 1) % u64_mod)) kv
          ∙ ap (λ (n : ℕ). some (uint64_to_big_endian n)) counted in
        ap next_id read ∙ big_endian_to_uint64_lem (suc new_id) small

    Creates-with_code :
        (creator : Addr) (checksum : Text) (config : AccessConfig)
        → bz ≡ platform.encode_code (new_code_info platform.texts checksum creator config)
        → Creates creator kv new_id checksum (with_code new_id bz kv)
    Creates-with_code creator checksum config e = record {
      config = config;
      is_next = refl;
      was_free = fresh.fresh new_id (omega arith) (omega arith);
      is_stored = get-set_self (get_code_key new_id) bz _ ∙ ap (λ (t : Text). some t) e;
      others = with_code-others;
      still_fresh = record {
        fresh = λ id above bound.
            let behind : suc new_id ≤ id = omega (arith, above, sym with_code-next) in
            with_code-others id bound (omega (arith, behind))
            ∙ fresh.fresh id (omega (arith, behind)) bound;
      };
      next = with_code-next;
    }

  -- From a store that is `kv`, the call ends as `create` may.
  record EndsCreate (creator : Addr) (kv : Store) (m : Action platform (ℕ × Text)) : Type 0 where
    at : (c : Context platform) → c.kv ≡ kv → CreateOutcome creator kv (m c)

  continue-ends :
      {A : Type 0}
      → (creator : Addr) (kv : Store) (r : Result KeeperError A) (c : Context platform)
        (f : A → Action platform (ℕ × Text))
      → c.kv ≡ kv
      → ((a : A) → EndsCreate creator kv (f a))
      → CreateOutcome creator kv (continue (r, c) f)
  continue-ends creator kv (ok a) c f same k = (k a).at c same
  continue-ends creator kv (err e) c f same k = same
  continue-ends creator kv (panic p) c f same k = same

  module _ {creator : Addr} {kv : Store} where
    EndsCreate-bind :
        {A : Type 0}
        → (m : Action platform A) (f : A → Action platform (ℕ × Text))
        → Keeps (OnKv platform (λ s. s ≡ kv)) m
        → ((a : A) → EndsCreate creator kv (f a))
        → EndsCreate creator kv (m >>= f)
    EndsCreate-bind m f km kf = record {
      at = λ c same.
          continue-ends creator kv (m c).0 (m c).1 f (km.at c (record { holds = same })).holds kf;
    }

    EndsCreate-raise : (e : KeeperError) → EndsCreate creator kv (raise e)
    EndsCreate-raise e = record { at = λ c same. same }

  module _ (register : GasConfig) {P : Store → Type 0} where
    pub Keeps-uncompressed :
        (code : Text) → Keeps (OnKv platform P) (uncompressed platform register code)
    unfolding uncompressed
    Keeps-uncompressed code = elim (Bool-cases (is_gzip code)) [
      | inl e ↦ rw e (search (kv_rules, Keeps-consume_gas) depth 10)
      | inr e ↦ rw e (search kv_rules)
    ]

    pub Keeps-store_in_machine :
        (code : Text) (gas : ℕ)
        → Keeps (OnKv platform P) (store_in_machine platform register code gas)
    Keeps-store_in_machine code gas = record { at = λ c h. record { holds = h.holds } }

  -- The end of `create`: the number, the data of the code and the event.
  EndsCreate-record :
      (creator : Addr) (kv : Store) (checksum : Text) (config : AccessConfig) (event : ℕ → Event)
      → HasFreshCodes kv
      → suc (next_code kv) < u64_mod
      → EndsCreate creator kv (
          must_auto_increment_id platform key_sequence_code_id >>= λ id.
          must_store_code_info platform id (new_code_info platform.texts checksum creator config)
          >> (emit_event platform (event id) >> pure (id, checksum)))
  unfolding must_auto_increment_id must_store_code_info
  EndsCreate-record creator kv checksum config event fresh small = record {
    at = λ c same. rw same (Creates-with_code kv fresh small _ creator checksum config refl);
  }

  -- `create`, where no code is stored from the next number on and numbers are left: on success the
  -- code's number is the next one, had no code and holds the new one's checksum and creator now, all
  -- other codes are as they were, and the next number is one more, with none stored from it on; on an
  -- error or a panic the store is as it was.
  pub create-CreateOutcome :
      (register : GasConfig) (creator : Addr) (code : Text) (access : Option AccessConfig)
      (policy : Policy) (c : Context platform)
      → HasFreshCodes c.kv
      → suc (next_code c.kv) < u64_mod
      → CreateOutcome creator c.kv (create platform register (some creator) code access policy c)
  unfolding create
  create-CreateOutcome register creator code access policy c fresh small =
      let ends : EndsCreate creator c.kv
          (create platform register (some creator) code access policy) =
        search
          (
            kv_rules, EndsCreate-bind, Keeps-uncompressed, Keeps-runtime_gas_for_contract,
            Keeps-store_in_machine, Keeps-consume_runtime_gas, EndsCreate-record, fresh, small,
          )
          depth 24 in
      ends.at c refl
