-- ===== src/Wasm/Keeper/Registry/Additions.antt =====
-- A new contract takes the place of none, and a migrated one that of itself
-- (x/wasm/keeper/keeper.go).
use bignftd.Base.{
  ℕ, ◌≡◌, ◌≢◌, refl, Text, Bool, true, false, not, Bool-cases, inl, inr, Option, none, some, List,
  ◌∷◌, strip_prefix,
}
use bignftd.Chain.Outcome.{◌>>=◌, require}
use bignftd.Chain.Keeps.{Keeps, Keeps-bind, Keeps-then, Keeps-or_raise, Keeps-require}
use bignftd.Chain.Store.{get, get-set_ne}
use bignftd.Chain.Sdk.{Addr, Coins}
use bignftd.Wasm.Gas.{GasConfig}
use bignftd.Wasm.Policy.{Policy}
use bignftd.Wasm.Keys.{
  get_contract_address_key, get_contract_store_prefix, key_sequence_instance_id,
}
use bignftd.Wasm.Contract.{CodeInfo, is_some}
use bignftd.Wasm.Keeper.Platform.{Platform, Context, Action, Account, duplicate}
use bignftd.Wasm.Keeper.Sequence.{must_auto_increment_id}
use bignftd.Wasm.Keeper.Addresses.{AddressGenerator, classic_address_generator}
use bignftd.Wasm.Keeper.Contracts.{has_contract_info}
use bignftd.Wasm.Keeper.Response.Isolation.{IsForeign, IsForeign-get, Keeps-call_vm}
use bignftd.Wasm.Keeper.Isolation.{LeavesKey, Keeps-LeavesKey}
use bignftd.Wasm.Keeper.Instantiate.{
  create_account, cleaned, prune_account, claim_existing, claim_account, port_for, require_creator,
  run_instantiate, instantiate,
}
use bignftd.Wasm.Keeper.Registry.{
  EntryIs, IsApart-contract, get_contract_address_key-ne, Keeps-persist_instance,
}
use bignftd.Wasm.Keeper.Keeping.{
  kv_rules, Keeps-with_panic, Keeps-get_code_info, Keeps-pay_call, Keeps-transfer_coins,
  Keeps-response_of, Keeps-current_position, Keeps-handle_contract_response,
}

module _ (platform : Platform) where
  -- The contract that is known is not one that is new.
  module _ (a : Addr) (bz : Text) where
    Keeps-has_contract_info :
        {B : Type 0}
        → (addr : Addr) (rest : Action platform B)
        → (addr ≢ a → Keeps (EntryIs platform (get_contract_address_key a) (some bz)) rest)
        → Keeps (EntryIs platform (get_contract_address_key a) (some bz)) (
            has_contract_info platform addr >>= λ known.
            require (not known) duplicate >>= λ _. rest)
    unfolding has_contract_info
    Keeps-has_contract_info addr rest k = record {
      at = λ c h. elim (Bool-cases (is_some (get (get_contract_address_key addr) c.kv))) [
        | inl known ↦ rw known h
        | inr new ↦ rw new ((k (λ e. cc (new, h.holds, e))).at c h)
      ];
    }

  module _ (a : Addr) (v : Option Text) where
    Keeps-create_account :
        (addr : Addr)
        → Keeps (EntryIs platform (get_contract_address_key a) v) (create_account platform addr)
    Keeps-create_account addr = record { at = λ c h. record { holds = h.holds } }

    Keeps-cleaned :
        (handled : Option Bool)
        → Keeps (EntryIs platform (get_contract_address_key a) v) (cleaned platform handled)
    Keeps-cleaned none = search kv_rules
    Keeps-cleaned (some true) = search kv_rules
    Keeps-cleaned (some false) = search kv_rules

    Keeps-prune_account :
        (addr : Addr)
        → Keeps (EntryIs platform (get_contract_address_key a) v) (prune_account platform addr)
    Keeps-prune_account addr = record {
      at = λ c h.
          (Keeps-cleaned (platform.cleanup_account addr c.world).0).at _
            (record { holds = h.holds });
    }

    Keeps-claim_existing :
        (addr : Addr) (b : Bool)
        → Keeps (EntryIs platform (get_contract_address_key a) v) (claim_existing platform addr b)
    Keeps-claim_existing addr true = search kv_rules
    Keeps-claim_existing addr false = search (kv_rules, Keeps-create_account, Keeps-prune_account)

    Keeps-claim_account :
        (addr : Addr) (account : Option Account)
        → Keeps
            (EntryIs platform (get_contract_address_key a) v)
            (claim_account platform addr account)
    unfolding claim_account
    Keeps-claim_account addr none = Keeps-create_account addr
    Keeps-claim_account addr (some account) = search (kv_rules, Keeps-claim_existing)

    Keeps-port_for :
        (addr : Addr) (b : Bool)
        → Keeps (EntryIs platform (get_contract_address_key a) v) (port_for platform addr b)
    Keeps-port_for addr true = search kv_rules
    Keeps-port_for addr false = search kv_rules

    Keeps-require_creator :
        (sender : Option Addr)
        → Keeps (EntryIs platform (get_contract_address_key a) v) (require_creator platform sender)
    Keeps-require_creator none = search kv_rules
    Keeps-require_creator (some creator) = search kv_rules

    pub IsForeign-entry :
        (addr : Addr) → IsForeign addr (λ kv. get (get_contract_address_key a) kv ≡ v)
    unfolding get_contract_store_prefix get_contract_address_key strip_prefix
    IsForeign-entry addr = IsForeign-get addr (get_contract_address_key a) v refl

  module _ (register : GasConfig)
      (handle : Addr → Text → List platform.Msg → Option Text → Action platform (Option Text)) where
    module _ (a : Addr) (bz : Text)
        (keeps : (addr : Addr) (port : Text) (msgs : List platform.Msg) (original : Option Text)
          → Keeps
              (EntryIs platform (get_contract_address_key a) (some bz))
              (handle addr port msgs original))
        (generator : AddressGenerator platform)
        (generates : (code_id : ℕ) (checksum : Text)
          → Keeps
              (EntryIs platform (get_contract_address_key a) (some bz))
              (generator code_id checksum)) where
      Keeps-run_instantiate :
          (code_id : ℕ) (code : CodeInfo) (creator : Addr) (admin : Option Addr) (msg label : Text)
          (deposit : Coins) (policy : Policy) (addr : Addr)
          → addr ≢ a
          → Keeps (EntryIs platform (get_contract_address_key a) (some bz)) (
              run_instantiate platform register handle code_id code creator admin msg label deposit
                policy addr)
      unfolding run_instantiate
      Keeps-run_instantiate code_id code creator admin msg label deposit policy addr apart =
          search
            (
              kv_rules, Keeps-call_vm, IsForeign-entry, Keeps-response_of, Keeps-current_position,
              Keeps-port_for, Keeps-persist_instance, IsApart-contract, get_contract_address_key-ne,
              Keeps-handle_contract_response, keeps, apart,
            )
            depth 30

      pub Keeps-instantiate :
          (code_id : ℕ) (sender admin : Option Addr) (msg label : Text) (deposit : Coins)
          (policy : Policy)
          → Keeps (EntryIs platform (get_contract_address_key a) (some bz)) (
              instantiate platform register handle code_id sender admin msg label deposit generator
                policy)
      unfolding instantiate
      Keeps-instantiate code_id sender admin msg label deposit policy =
          Keeps-bind _ _ (Keeps-require_creator a (some bz) sender) (λ creator.
            Keeps-bind _ _ (Keeps-get_code_info platform code_id) (λ found.
              Keeps-bind _ _ (Keeps-or_raise found _) (λ code.
                Keeps-then _ _ (Keeps-pay_call platform register code_id code.code_hash msg) (
                  Keeps-bind _ _ (Keeps-with_panic platform _) (λ allowed.
                    Keeps-then _ _ (Keeps-require allowed _) (
                      Keeps-bind _ _ (generates code_id code.code_hash) (λ addr.
                        Keeps-has_contract_info a bz addr _ (λ apart.
                          search
                            (
                              kv_rules, Keeps-claim_account, Keeps-transfer_coins,
                              Keeps-run_instantiate, apart,
                            )
                            depth 12))))))))

    -- `instantiate` never touches a contract that exists: whoever instantiates which code with which
    -- address generator, and however that ends, the data of a stored contract stay what they were, if
    -- the generator and the handling of the response's messages leave them.
    pub instantiate-entry :
        (a : Addr) (bz : Text) (generator : AddressGenerator platform)
        → ((addr : Addr) (port : Text) (msgs : List platform.Msg) (original : Option Text)
            → LeavesKey platform (get_contract_address_key a) (handle addr port msgs original))
        → ((code_id : ℕ) (checksum : Text)
            → LeavesKey platform (get_contract_address_key a) (generator code_id checksum))
        → (code_id : ℕ) (sender admin : Option Addr) (msg label : Text) (deposit : Coins)
          (policy : Policy) (c : Context platform)
        → get (get_contract_address_key a) c.kv ≡ some bz
        → get
            (get_contract_address_key a)
            (instantiate platform register handle code_id sender admin msg label deposit generator
              policy c).1.kv
          ≡ some bz
    instantiate-entry a bz generator leaves generates code_id sender admin msg label deposit policy
          c stored =
        ((Keeps-instantiate a bz
            (λ addr port msgs original.
              Keeps-LeavesKey platform (get_contract_address_key a) (some bz) _
                (leaves addr port msgs original))
            generator
            (λ code_id checksum.
              Keeps-LeavesKey platform (get_contract_address_key a) (some bz) _
                (generates code_id checksum))
            code_id sender admin msg label deposit policy).at
          c (record { holds = stored })).holds

  -- The addresses of the classic generator cost a number of the sequence, and no contract.
  pub LeavesKey-classic_address_generator :
      (a : Addr) (code_id : ℕ) (checksum : Text)
      → LeavesKey platform
          (get_contract_address_key a)
          (classic_address_generator platform code_id checksum)
  unfolding classic_address_generator must_auto_increment_id get_contract_address_key
  LeavesKey-classic_address_generator a code_id checksum = record {
    same = λ c. get-set_ne key_sequence_instance_id (2 ∷ a) _ c.kv (λ e. cc e);
  }
