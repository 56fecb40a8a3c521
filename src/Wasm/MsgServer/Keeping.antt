-- ===== src/Wasm/MsgServer/Keeping.antt =====
-- What the messages of users leave of the data of a contract that they are not about
-- (x/wasm/keeper/msg_server.go).
use bignftd.Base.{
  ℕ, Text, ◌≢◌, Option, none, some, List, [], Bool, Bool-cases, inl, inr, text_eq, ap, ◌∙◌,
  Option-cases,
}
use bignftd.Chain.Outcome.{Result, ok, err, panic, fatal, ◌>>=◌, pure}
use bignftd.Chain.Keeps.{Keeps, Keeps-lift, Keeps-bind, Keeps-then, Keeps-gets}
use bignftd.Chain.Sdk.{Addr, Coins}
use bignftd.Wasm.Gas.{GasConfig}
use bignftd.Wasm.Access.{AccessConfig}
use bignftd.Wasm.Access.Validation.{AccessError}
use bignftd.Wasm.Policy.{Policy}
use bignftd.Wasm.Keys.{get_contract_address_key}
use bignftd.Wasm.Contract.{CodeInfo}
use bignftd.Wasm.Messages.{
  Formats, MsgStoreCode, MsgInstantiateContract, MsgInstantiateContract2, MsgExecuteContract,
  MsgUpdateInstantiateConfig, MsgStoreAndInstantiateContract, MsgMigrateContract, MsgUpdateAdmin,
  MsgClearAdmin, MsgUpdateContractLabel, MsgStoreAndMigrateContract,
}
use bignftd.Wasm.Keeper.Platform.{Platform, Context, Action}
use bignftd.Wasm.Keeper.Addresses.{classic_address_generator, predictable_address_generator}
use bignftd.Wasm.Keeper.Code.{require_code, set_access_config}
use bignftd.Wasm.Keeper.Contracts.{set_contract_admin, set_contract_label}
use bignftd.Wasm.Keeper.Calls.{execute}
use bignftd.Wasm.Keeper.Migrate.{migrate}
use bignftd.Wasm.Keeper.Isolation.{Keeps-LeavesKey, Keeps-execute}
use bignftd.Wasm.Keeper.Keeping.{kv_rules, Keeps-get_code_info, Keeps-get_contract_info}
use bignftd.Wasm.Keeper.Registry.{
  EntryIs, IsApart-contract, get_contract_address_key-ne, Keeps-must_store_contract_info,
}
use bignftd.Wasm.Keeper.Registry.Additions.{
  IsForeign-entry, Keeps-instantiate, LeavesKey-classic_address_generator,
}
use bignftd.Wasm.Keeper.Registry.Migrations.{
  Keeps-migrate, Keeps-require_contract, Keeps-require_modifier,
}
use bignftd.Wasm.Keeper.Registry.Codes.{Keeps-create, Keeps-must_store_code_info}
use bignftd.Wasm.MsgServer.{
  Governance, checked, parsed, address, select_authorization_policy, admin_address, set_config,
  handle_store_code, handle_instantiate, handle_instantiate2, handle_execute,
  handle_update_instantiate_config, handle_store_and_instantiate, handle_migrate,
  handle_update_admin, handle_clear_admin, handle_update_label, handle_store_and_migrate,
}

module _ (platform : Platform) (formats : Formats) (gov : Governance) (a : Addr) (bz : Text) where
  -- The data of the contract
  abbrev pub DataIs : Context platform → Type 0
  DataIs = EntryIs platform (get_contract_address_key a) (some bz)

  Keeps-checked : (r : Result AccessError Unit) → Keeps DataIs (checked platform formats gov r)
  Keeps-checked (ok u) = search kv_rules
  Keeps-checked (err e) = search kv_rules
  Keeps-checked (panic p) = Keeps-lift (panic p)

  Keeps-parsed : (o : Option Addr) → Keeps DataIs (parsed platform formats gov o)
  Keeps-parsed none = search kv_rules
  Keeps-parsed (some b) = search kv_rules

  Keeps-address : (t : Text) → Keeps DataIs (address platform formats gov t)
  unfolding address
  Keeps-address t = Keeps-parsed (platform.texts.from_bech32 t)

  -- The text is none of the contract.
  Keeps-address_other :
      {A : Type 0} (t : Text) (f : Addr → Action platform A)
      → platform.texts.from_bech32 t ≢ some a
      → ((b : Addr) → b ≢ a → Keeps DataIs (f b))
      → Keeps DataIs (address platform formats gov t >>= f)
  unfolding address
  Keeps-address_other t f other k = record {
    at = λ c h. elim (Option-cases (platform.texts.from_bech32 t)) [
      | inl e ↦ rw e h
      | inr (b, e) ↦ rw e ((k b (λ same. other (e ∙ ap some same))).at c h)
    ];
  }

  Keeps-admin_address : (t : Text) → Keeps DataIs (admin_address platform formats gov t)
  unfolding admin_address
  Keeps-admin_address t = elim (Bool-cases (text_eq t [])) [
    | inl e ↦ rw e (search kv_rules)
    | inr e ↦ rw e (search (kv_rules, Keeps-address))
  ]

  Keeps-require_code : (found : Option CodeInfo) → Keeps DataIs (require_code platform found)
  Keeps-require_code none = search kv_rules
  Keeps-require_code (some info) = search kv_rules

  Keeps-set_access_config :
      (code_id : ℕ) (caller : Addr) (config : AccessConfig) (policy : Policy)
      → Keeps DataIs (set_access_config platform code_id caller config policy)
  unfolding set_access_config
  Keeps-set_access_config code_id caller config policy =
      search (kv_rules, Keeps-get_code_info, Keeps-require_code, Keeps-must_store_code_info) depth
        20

  Keeps-set_config :
      (config : Option AccessConfig) (code_id : ℕ) (sender : Addr) (policy : Policy)
      → Keeps DataIs (set_config platform formats gov config code_id sender policy)
  Keeps-set_config none code_id sender policy = Keeps-lift (panic fatal)
  Keeps-set_config (some config) code_id sender policy =
      Keeps-set_access_config code_id sender config policy

  pub Keeps-update_instantiate_config :
      (m : MsgUpdateInstantiateConfig)
      → Keeps DataIs (handle_update_instantiate_config platform formats gov m)
  unfolding handle_update_instantiate_config
  Keeps-update_instantiate_config m =
      search (kv_rules, Keeps-checked, Keeps-address, Keeps-set_config) depth 10

  -- Changes of another contract
  module _ (b : Addr) (other : b ≢ a) where
    pub Keeps-set_contract_admin :
        (caller new_admin : Addr) (policy : Policy)
        → Keeps DataIs (set_contract_admin platform b caller new_admin policy)
    unfolding set_contract_admin
    Keeps-set_contract_admin caller new_admin policy =
        search
          (
            kv_rules, Keeps-get_contract_info, Keeps-require_contract, Keeps-require_modifier,
            Keeps-must_store_contract_info, IsApart-contract, get_contract_address_key-ne, other,
          )
          depth 20

    pub Keeps-set_contract_label :
        (caller : Addr) (label : Text) (policy : Policy)
        → Keeps DataIs (set_contract_label platform b caller label policy)
    unfolding set_contract_label
    Keeps-set_contract_label caller label policy =
        search
          (
            kv_rules, Keeps-get_contract_info, Keeps-require_contract, Keeps-require_modifier,
            Keeps-must_store_contract_info, IsApart-contract, get_contract_address_key-ne, other,
          )
          depth 20

  pub Keeps-update_admin :
      (m : MsgUpdateAdmin)
      → platform.texts.from_bech32 m.contract ≢ some a
      → Keeps DataIs (handle_update_admin platform formats gov m)
  unfolding handle_update_admin
  Keeps-update_admin m other = Keeps-then _ _ (Keeps-checked _) (
      Keeps-bind _ _ (Keeps-address m.sender) (λ sender.
        Keeps-address_other m.contract _ other
          (λ b apart. search (kv_rules, Keeps-address, Keeps-set_contract_admin, apart) depth 10)))

  pub Keeps-clear_admin :
      (m : MsgClearAdmin)
      → platform.texts.from_bech32 m.contract ≢ some a
      → Keeps DataIs (handle_clear_admin platform formats gov m)
  unfolding handle_clear_admin
  Keeps-clear_admin m other = Keeps-then _ _ (Keeps-checked _) (
      Keeps-bind _ _ (Keeps-address m.sender) (λ sender.
        Keeps-address_other m.contract _ other
          (λ b apart. search (kv_rules, Keeps-set_contract_admin, apart) depth 10)))

  pub Keeps-update_label :
      (m : MsgUpdateContractLabel)
      → platform.texts.from_bech32 m.contract ≢ some a
      → Keeps DataIs (handle_update_label platform formats gov m)
  unfolding handle_update_label
  Keeps-update_label m other = Keeps-then _ _ (Keeps-checked _) (
      Keeps-bind _ _ (Keeps-address m.sender) (λ sender.
        Keeps-address_other m.contract _ other
          (λ b apart. search (kv_rules, Keeps-set_contract_label, apart) depth 10)))

  module _ (register : GasConfig) where
    pub Keeps-store_code :
        (m : MsgStoreCode) → Keeps DataIs (handle_store_code platform formats gov register m)
    unfolding handle_store_code
    Keeps-store_code m = search (kv_rules, Keeps-checked, Keeps-address, Keeps-create) depth 10

    module _
        (handle : Addr → Text → List platform.Msg → Option Text → Action platform (Option Text))
        (keeps : (addr : Addr) (port : Text) (msgs : List platform.Msg) (original : Option Text)
          → Keeps DataIs (handle addr port msgs original)) where
      Keeps-execute_any :
          (contract caller : Addr) (msg : Text) (coins : Coins)
          → Keeps DataIs (execute platform register handle contract caller msg coins)
      Keeps-execute_any contract caller msg coins =
          Keeps-execute platform register handle keeps contract
            (IsForeign-entry platform a (some bz) contract) caller msg coins

      pub Keeps-handle_execute :
          (m : MsgExecuteContract)
          → Keeps DataIs (handle_execute platform formats gov register handle m)
      unfolding handle_execute
      Keeps-handle_execute m =
          search (kv_rules, Keeps-checked, Keeps-address, Keeps-execute_any) depth 10

      Keeps-classic :
          (code_id : ℕ) (checksum : Text)
          → Keeps DataIs (classic_address_generator platform code_id checksum)
      Keeps-classic code_id checksum =
          Keeps-LeavesKey platform (get_contract_address_key a) (some bz) _
            (LeavesKey-classic_address_generator platform a code_id checksum)

      Keeps-predictable :
          (creator : Addr) (salt msg : Text) (fix : Bool) (code_id : ℕ) (checksum : Text)
          → Keeps DataIs
              (predictable_address_generator platform creator salt msg fix code_id checksum)
      unfolding predictable_address_generator
      Keeps-predictable creator salt msg fix code_id checksum = search kv_rules

      pub Keeps-handle_instantiate :
          (m : MsgInstantiateContract)
          → Keeps DataIs (handle_instantiate platform formats gov register handle m)
      unfolding handle_instantiate
      Keeps-handle_instantiate m =
          search
            (
              kv_rules, Keeps-checked, Keeps-address, Keeps-admin_address, Keeps-instantiate, keeps,
              Keeps-classic,
            )
            depth 14

      pub Keeps-handle_instantiate2 :
          (m : MsgInstantiateContract2)
          → Keeps DataIs (handle_instantiate2 platform formats gov register handle m)
      unfolding handle_instantiate2
      Keeps-handle_instantiate2 m =
          search
            (
              kv_rules, Keeps-checked, Keeps-address, Keeps-admin_address, Keeps-instantiate, keeps,
              Keeps-predictable,
            )
            depth 14

      pub Keeps-store_and_instantiate :
          (m : MsgStoreAndInstantiateContract)
          → Keeps DataIs (handle_store_and_instantiate platform formats gov register handle m)
      unfolding handle_store_and_instantiate
      Keeps-store_and_instantiate m =
          search
            (
              kv_rules, Keeps-checked, Keeps-address, Keeps-admin_address, Keeps-create,
              Keeps-instantiate, keeps, Keeps-classic,
            )
            depth 16

      pub Keeps-handle_migrate :
          (m : MsgMigrateContract)
          → platform.texts.from_bech32 m.contract ≢ some a
          → Keeps DataIs (handle_migrate platform formats gov register handle m)
      unfolding handle_migrate
      Keeps-handle_migrate m other = Keeps-then _ _ (Keeps-checked _) (
          Keeps-bind _ _ (Keeps-address m.sender) (λ sender.
            Keeps-address_other m.contract _ other
              (λ b apart. search (kv_rules, Keeps-migrate, keeps, apart) depth 10)))

      pub Keeps-store_and_migrate :
          (m : MsgStoreAndMigrateContract)
          → platform.texts.from_bech32 m.contract ≢ some a
          → Keeps DataIs (handle_store_and_migrate platform formats gov register handle m)
      unfolding handle_store_and_migrate
      Keeps-store_and_migrate m other = Keeps-bind _ _ (Keeps-address m.authority) (λ sender.
          Keeps-then _ _ (Keeps-checked _) (
            Keeps-bind _ _
              (Keeps-gets (select_authorization_policy platform formats gov m.authority))
              (λ policy.
                Keeps-bind _ _
                  (Keeps-create platform a _ register (some sender) m.wasm_byte_code
                    m.instantiate_permission policy)
                  (λ stored.
                    Keeps-address_other m.contract
                      (λ contract.
                        migrate platform register handle contract sender stored.0 m.msg policy
                        >>= λ answer. pure (stored.0, stored.1, answer))
                      other (λ b apart. search (kv_rules, Keeps-migrate, keeps, apart) depth 10)))))
