-- ===== src/Wasm/Genesis/Fresh.antt =====
-- After the genesis the numbers of codes are fresh (x/wasm/keeper/genesis.go).
use bignftd.Base.{
  ℕ, ◌<◌, ◌≤◌, ◌≡◌, ◌≢◌, refl, Text, not, Bool-cases, inl, inr, Option, none, List, [], ◌∷◌, arith,
  ltb, All, if◌then◌else◌,
}
use bignftd.Chain.Outcome.{ok, ◌>>=◌, ◌>>◌, modify, require, when}
use bignftd.Chain.Keeps.{Keeps, Keeps-bind, Keeps-then, Keeps-when}
use bignftd.Chain.Yields.{Yields, Keeps-Yields, Yields-bind}
use bignftd.Chain.Store.{Store, get}
use bignftd.Wasm.Gas.{GasConfig, u64_mod}
use bignftd.Wasm.Keys.{key_sequence_code_id, get_code_key}
use bignftd.Wasm.Keeper.Platform.{Platform, Context, Action, WasmParams, KeeperError, invalid}
use bignftd.Wasm.Keeper.Sequence.{peek_auto_increment_id}
use bignftd.Wasm.Keeper.Code.{pin_code, import_code}
use bignftd.Wasm.Keeper.Code.Fresh.{HasFreshCodes, next_code, get_code_key-injective}
use bignftd.Wasm.Keeper.Contracts.{has_contract_info}
use bignftd.Wasm.Keeper.Keeping.{OnKv, kv_rules}
use bignftd.Wasm.Keeper.Registry.{EntryIs}
use bignftd.Wasm.Genesis.{
  GenesisCode, GenesisContract, GenesisSequence, WasmGenesis, import_codes, import_contracts,
  import_sequences, init_wasm_genesis, in_cache, probe_address,
}
use bignftd.Wasm.Genesis.Entries.{
  Keeps-require_address, Keeps-import_contract, Keeps-import_auto_increment_id, Keeps-import_code,
  Keeps-pin_code,
}

module _ (platform : Platform) where
  -- No code is stored above a number.
  record NoCodeAbove (max_code_id : ℕ) (kv : Store) : Type 0 where
    none_above : (id : ℕ) → max_code_id < id → id < u64_mod → get (get_code_key id) kv ≡ none

  Keeps-NoCodeAbove :
      {A : Type 0}
      → (max_code_id : ℕ) (m : Action platform A)
      → ((id : ℕ)
          → max_code_id < id
          → id < u64_mod
          → Keeps (EntryIs platform (get_code_key id) none) m)
      → Keeps (OnKv platform (NoCodeAbove max_code_id)) m
  Keeps-NoCodeAbove max_code_id m k = record {
    at = λ c h. record {
      holds = record {
        none_above = λ id above bound.
            ((k id above bound).at c (record { holds = h.holds.none_above id above bound })).holds;
      };
    };
  }

  -- The numbers of the codes are uint64, and the keys of the sequences are none of codes.
  pub record IsSound (g : WasmGenesis) : Type 0 where
    pub code_ids : All (λ (code : GenesisCode). code.code_id < u64_mod) g.codes
    pub sequence_keys :
        All (λ (s : GenesisSequence). (id : ℕ) → s.id_key ≢ get_code_key id) g.sequences

  module _ (register : GasConfig) where
    Keeps-import_contracts :
        (j : ℕ) (v : Option Text) (contracts : List GenesisContract)
        → Keeps (EntryIs platform (get_code_key j) v) (import_contracts platform register contracts)
    unfolding import_contracts
    Keeps-import_contracts j v [] = search kv_rules
    Keeps-import_contracts j v (contract ∷ rest) =
        Keeps-bind _ _
          (Keeps-require_address platform j v (platform.texts.from_bech32 contract.address))
          (λ addr.
            Keeps-then _ _
              (Keeps-import_contract platform j v addr contract.info contract.state
                contract.history)
              (Keeps-import_contracts j v rest))

    Keeps-import_sequences :
        (j : ℕ) (v : Option Text) (sequences : List GenesisSequence)
        → All (λ (s : GenesisSequence). (id : ℕ) → s.id_key ≢ get_code_key id) sequences
        → Keeps (EntryIs platform (get_code_key j) v) (import_sequences platform register sequences)
    unfolding import_sequences
    Keeps-import_sequences j v [] h = search kv_rules
    Keeps-import_sequences j v (s ∷ rest) h =
        Keeps-then _ _ (Keeps-import_auto_increment_id platform j v s.id_key s.value (h.0 j))
          (Keeps-import_sequences j v rest h.1)

    -- One code of the genesis: its import, and its pin.
    Keeps-code :
        (max_code_id : ℕ) (code : GenesisCode)
        → code.code_id < u64_mod
        → code.code_id ≤ max_code_id
        → Keeps
            (OnKv platform (NoCodeAbove max_code_id))
            (import_code platform register code.code_id code.info code.code_bytes)
    Keeps-code max_code_id code bound below = Keeps-NoCodeAbove max_code_id _ (λ id above fits.
        Keeps-import_code platform id none register code.code_id code.info code.code_bytes
          (λ e. absurd (omega (arith, get_code_key-injective code.code_id id bound fits e))))

    Keeps-pin :
        (max_code_id : ℕ) (code : GenesisCode)
        → Keeps
            (OnKv platform (NoCodeAbove max_code_id))
            (when code.pinned (pin_code platform code.code_id))
    Keeps-pin max_code_id code =
        Keeps-NoCodeAbove max_code_id _
          (λ id above fits. Keeps-when code.pinned _ (Keeps-pin_code platform id none code.code_id))

    raised : (a b : ℕ) (kv : Store) → a ≤ b → NoCodeAbove a kv → NoCodeAbove b kv
    raised a b kv le h = record {
      none_above = λ id above bound. h.none_above id (omega arith) bound;
    }

    import_codes-NoCodeAbove :
        (max_code_id : ℕ) (codes : List GenesisCode)
        → All (λ (code : GenesisCode). code.code_id < u64_mod) codes
        → Yields
            (OnKv platform (NoCodeAbove max_code_id))
            (λ n. OnKv platform (NoCodeAbove n))
            (import_codes platform register max_code_id codes)
    unfolding import_codes
    import_codes-NoCodeAbove max_code_id [] h = record { at = λ c p. p }
    import_codes-NoCodeAbove max_code_id (code ∷ rest) (bound, h) = record {
      at = λ c p.
          let more = if ltb max_code_id code.code_id then code.code_id else max_code_id in
          let le : max_code_id ≤ more = ground arith in
          let covers : code.code_id ≤ more = ground arith in
          let kept = λ (_ : Unit {0}). OnKv platform (NoCodeAbove more) in
          (Yields-bind (OnKv platform (NoCodeAbove more)) kept (λ n. OnKv platform (NoCodeAbove n))
              _ _ (Keeps-Yields _ _ (Keeps-code more code bound covers))
              (λ _.
                Yields-bind (OnKv platform (NoCodeAbove more)) kept
                  (λ n. OnKv platform (NoCodeAbove n)) _ _ (Keeps-Yields _ _ (Keeps-pin more code))
                  (λ _. import_codes-NoCodeAbove more rest h))).at
            c (record { holds = raised max_code_id more c.kv le p.holds });
    }

    -- The end of `InitGenesis`, where the sequences are looked at.
    Yields-next_code :
        (max_code_id : ℕ) (rest : Action platform Unit)
        → Keeps (OnKv platform HasFreshCodes) rest
        → Yields
            (OnKv platform (NoCodeAbove max_code_id))
            (λ _. OnKv platform HasFreshCodes)
            (peek_auto_increment_id platform key_sequence_code_id >>= λ next.
              require (ltb max_code_id next) invalid >> rest)
    unfolding peek_auto_increment_id
    Yields-next_code max_code_id rest k = record {
      at = λ c h. elim (Bool-cases (ltb max_code_id (next_code c.kv))) [
        | inl more ↦ rw more (
            (Keeps-Yields _ rest k).at c (record {
              holds = record {
                fresh = λ id above bound. h.holds.none_above id (ground arith) bound;
              };
            }))
        | inr less ↦ rw less tt
      ];
    }

    Keeps-in_cache :
        {A : Type 0} {P : Store → Type 0}
        → (m : Action platform A) → Keeps (OnKv platform P) (in_cache platform register m)
    Keeps-in_cache m = record { at = λ c h. h }

    Keeps-probe : Keeps (OnKv platform HasFreshCodes) (
        in_cache platform register (probe_address platform register) >>= λ addr.
        has_contract_info platform addr >>= λ known. require (not known) invalid)
    unfolding has_contract_info
    Keeps-probe = search (kv_rules, Keeps-in_cache)

    Keeps-set_params :
        {P : Store → Type 0}
        → (p : WasmParams)
        → Keeps {E = KeeperError} (OnKv platform P) (modify (λ c. record c { params = p }))
    Keeps-set_params p = record { at = λ c h. record { holds = h.holds } }

    Yields-init_wasm_genesis :
        (g : WasmGenesis)
        → IsSound g
        → Yields
            (OnKv platform (NoCodeAbove 0))
            (λ _. OnKv platform HasFreshCodes)
            (init_wasm_genesis platform register g)
    unfolding init_wasm_genesis
    Yields-init_wasm_genesis g sound =
        let above = λ (n : ℕ) (_ : Unit {0}). OnKv platform (NoCodeAbove n) in
        let done = λ (_ : Unit {0}). OnKv platform HasFreshCodes in
        Yields-bind (OnKv platform (NoCodeAbove 0)) (above 0) done _ _
          (Keeps-Yields _ _ (Keeps-set_params g.params))
          (λ _.
            Yields-bind (OnKv platform (NoCodeAbove 0)) (λ n. OnKv platform (NoCodeAbove n)) done _
              _ (import_codes-NoCodeAbove 0 g.codes sound.code_ids)
              (λ n.
                Yields-bind (OnKv platform (NoCodeAbove n)) (above n) done _ _
                  (Keeps-Yields _ _
                    (Keeps-NoCodeAbove n _ (λ id a b. Keeps-import_contracts id none g.contracts)))
                  (λ _.
                    Yields-bind (OnKv platform (NoCodeAbove n)) (above n) done _ _
                      (Keeps-Yields _ _ (
                        Keeps-NoCodeAbove n _ (λ id a b.
                          Keeps-import_sequences id none g.sequences sound.sequence_keys)))
                      (λ _. Yields-next_code n _ Keeps-probe))))

    no_code : (id : ℕ) → get (get_code_key id) [] ≡ none
    unfolding get
    no_code id = refl

    -- An `InitGenesis` that succeeds on an empty store, with uint64 numbers of codes and no key of a
    -- sequence that is the key of a code, leaves no code stored from the next number on: its check of
    -- the sequence is enough for that, whatever the genesis holds.
    pub init_wasm_genesis-HasFreshCodes :
        (g : WasmGenesis) (c c' : Context platform)
        → IsSound g
        → c.kv ≡ []
        → init_wasm_genesis platform register g c ≡ (ok tt, c')
        → HasFreshCodes c'.kv
    init_wasm_genesis-HasFreshCodes g c c' sound empty_store done =
        let start : NoCodeAbove 0 c.kv =
          rw empty_store (record { none_above = λ id above bound. no_code id }) in
        let yielded = (Yields-init_wasm_genesis g sound).at c (record { holds = start }) in
        (rw done at yielded).holds
