-- ===== src/Wasm/Keeper/Registry/Migrations.antt =====
-- `migrate` changes the code of one contract (x/wasm/keeper/keeper.go).
use bignftd.Base.{ℕ, ◌≡◌, ◌≢◌, refl, Text, Bool, true, false, Option, none, some, List}
use bignftd.Chain.Outcome.{ok, ◌>>◌}
use bignftd.Chain.Keeps.{Keeps, Keeps-then}
use bignftd.Chain.Lands.{Lands, LandsAt-ok, Lands-bind, Lands-stays}
use bignftd.Chain.Store.{get, get-set_self}
use bignftd.Chain.Sdk.{Addr}
use bignftd.Wasm.Gas.{GasConfig}
use bignftd.Wasm.Policy.{Policy}
use bignftd.Wasm.Keys.{get_contract_address_key}
use bignftd.Wasm.Contract.{ContractInfo, CodeInfo, add_migration}
use bignftd.Wasm.Keeper.Platform.{Platform, Context, Action, Response}
use bignftd.Wasm.Keeper.Contracts.{require_contract, require_modifier, must_store_contract_info}
use bignftd.Wasm.Keeper.Contracts.Admin.{IsStored}
use bignftd.Wasm.Keeper.Response.Isolation.{Keeps-call_vm}
use bignftd.Wasm.Keeper.Isolation.{LeavesKey, Keeps-LeavesKey}
use bignftd.Wasm.Keeper.Migrate.{
  port_with, persist_migration, call_migrate_entrypoint, call_if, respond, migrate_allowed, migrate,
}
use bignftd.Wasm.Keeper.Registry.{
  EntryIs, IsApart-contract, get_contract_address_key-ne, Keeps-persist_migration,
}
use bignftd.Wasm.Keeper.Registry.Additions.{IsForeign-entry}
use bignftd.Wasm.Keeper.Keeping.{
  kv_rules, Keeps-get_code_info, Keeps-get_contract_info, Keeps-pay_call, Keeps-response_of,
  Keeps-handle_contract_response,
}

module _ (platform : Platform) where
  module _ (a : Addr) (v : Option Text) where
    Keeps-port_with :
        (addr : Addr) (wants without : Bool) (port : Text)
        → Keeps
            (EntryIs platform (get_contract_address_key a) v)
            (port_with platform addr wants without port)
    Keeps-port_with addr false false port = search kv_rules
    Keeps-port_with addr false true port = search kv_rules
    Keeps-port_with addr true false port = search kv_rules
    Keeps-port_with addr true true port = search kv_rules

    pub Keeps-require_contract :
        (found : Option ContractInfo)
        → Keeps (EntryIs platform (get_contract_address_key a) v) (require_contract platform found)
    Keeps-require_contract none = search kv_rules
    Keeps-require_contract (some info) = search kv_rules

    pub Keeps-require_modifier :
        (info : ContractInfo) (caller : Addr) (policy : Policy)
        → Keeps
            (EntryIs platform (get_contract_address_key a) v)
            (require_modifier platform info caller policy)
    unfolding require_modifier
    Keeps-require_modifier info caller policy = search kv_rules

  module _ (register : GasConfig)
      (handle : Addr → Text → List platform.Msg → Option Text → Action platform (Option Text)) where
    module _ (a : Addr) (v : Option Text)
        (keeps : (addr : Addr) (port : Text) (msgs : List platform.Msg) (original : Option Text)
          → Keeps
              (EntryIs platform (get_contract_address_key a) v)
              (handle addr port msgs original)) where
      Keeps-call_if :
          (b : Bool) (addr : Addr) (checksum msg : Text) (code_id : ℕ)
          → Keeps
              (EntryIs platform (get_contract_address_key a) v)
              (call_if platform register handle b addr checksum msg code_id)
      unfolding call_migrate_entrypoint
      Keeps-call_if true addr checksum msg code_id =
          search
            (
              kv_rules,
              Keeps-pay_call,
              Keeps-call_vm,
              IsForeign-entry platform a v addr,
              Keeps-response_of,
            )
            depth 14
      Keeps-call_if false addr checksum msg code_id = search kv_rules

      Keeps-respond :
          (policy : Policy) (addr : Addr) (port : Text) (r : Option (Response platform.Msg))
          → Keeps
              (EntryIs platform (get_contract_address_key a) v)
              (respond platform register handle policy addr port r)
      Keeps-respond policy addr port none = search kv_rules
      Keeps-respond policy addr port (some r) =
          search (kv_rules, Keeps-handle_contract_response, keeps)

      Keeps-migrate_allowed :
          (info : ContractInfo) (code : CodeInfo) (addr : Addr) (code_id : ℕ) (msg : Text)
          (policy : Policy)
          → addr ≢ a
          → Keeps
              (EntryIs platform (get_contract_address_key a) v)
              (migrate_allowed platform register handle info code addr code_id msg policy)
      unfolding migrate_allowed
      Keeps-migrate_allowed info code addr code_id msg policy apart =
          search
            (
              kv_rules, Keeps-port_with, Keeps-get_code_info, Keeps-call_if,
              Keeps-persist_migration, IsApart-contract, get_contract_address_key-ne, Keeps-respond,
              apart,
            )
            depth 30

      pub Keeps-migrate :
          (addr caller : Addr) (code_id : ℕ) (msg : Text) (policy : Policy)
          → addr ≢ a
          → Keeps
              (EntryIs platform (get_contract_address_key a) v)
              (migrate platform register handle addr caller code_id msg policy)
      unfolding migrate
      Keeps-migrate addr caller code_id msg policy apart =
          search
            (
              kv_rules, Keeps-get_contract_info, Keeps-require_contract, Keeps-require_modifier,
              Keeps-get_code_info, Keeps-migrate_allowed, apart,
            )
            depth 30

    -- The contract is stored, with that code.
    abbrev pub HasCode : Addr → ℕ → Context platform → Type 0
    HasCode addr code_id c =
        (info : ContractInfo) × IsStored platform addr (record info { code_id = code_id }) c

    HasCode-store :
        (addr : Addr) (info : ContractInfo) (code_id : ℕ)
        → Lands
            (HasCode addr code_id)
            (must_store_contract_info platform addr (record info { code_id = code_id }))
    unfolding must_store_contract_info
    HasCode-store addr info code_id = record {
      at = λ c. (info, get-set_self (get_contract_address_key addr) _ c.kv);
    }

    HasCode-persist_migration :
        (addr : Addr) (info : ContractInfo) (code_id : ℕ) (msg : Text)
        → Lands (HasCode addr code_id) (persist_migration platform register addr info code_id msg)
    unfolding persist_migration add_migration
    HasCode-persist_migration addr info code_id msg = search (Lands-bind, HasCode-store) depth 12

    Keeps-HasCode :
        {A : Type 0}
        → (addr : Addr) (code_id : ℕ) (m : Action platform A)
        → ((v : Option Text) → Keeps (EntryIs platform (get_contract_address_key addr) v) m)
        → Keeps (HasCode addr code_id) m
    Keeps-HasCode addr code_id m h = record {
      at = λ c (info, stored). (
        info,
        ((h (some (platform.encode_contract (record info { code_id = code_id })))).at c
            (record { holds = stored })).holds,
      );
    }

    module _
        (leaves : (k : Text) (addr : Addr) (port : Text) (msgs : List platform.Msg)
            (original : Option Text)
          → LeavesKey platform k (handle addr port msgs original)) where
      Keeps-entry :
          (a : Addr) (v : Option Text) (addr : Addr) (port : Text) (msgs : List platform.Msg)
          (original : Option Text)
          → Keeps (EntryIs platform (get_contract_address_key a) v) (handle addr port msgs original)
      Keeps-entry a v addr port msgs original =
          Keeps-LeavesKey platform (get_contract_address_key a) v _
            (leaves (get_contract_address_key a) addr port msgs original)

      HasCode-end :
          (event : Action platform Unit) (info : ContractInfo) (addr : Addr) (code_id : ℕ)
          (msg : Text) (policy : Policy) (port : Text) (r : Option (Response platform.Msg))
          → ((v : Option Text) → Keeps (EntryIs platform (get_contract_address_key addr) v) event)
          → Lands (HasCode addr code_id) (
              persist_migration platform register addr info code_id msg
              >> (event >> respond platform register handle policy addr port r))
      HasCode-end event info addr code_id msg policy port r quiet =
          Lands-stays _ _ (HasCode-persist_migration addr info code_id msg) (λ _.
            Keeps-HasCode addr code_id _ (λ v.
              Keeps-then _ _ (quiet v)
                (Keeps-respond addr v (Keeps-entry addr v) policy addr port r)))

      HasCode-migrate :
          (addr caller : Addr) (code_id : ℕ) (msg : Text) (policy : Policy)
          → Lands
              (HasCode addr code_id)
              (migrate platform register handle addr caller code_id msg policy)
      unfolding migrate migrate_allowed
      HasCode-migrate addr caller code_id msg policy =
          search (HasCode-end, Lands-bind, kv_rules) depth 40

      -- A `migrate` that succeeds, where the handling of the response's messages leaves the module's
      -- store, has stored the contract with the new code, and has left the data of every other contract
      -- as they were.
      pub migrate-HasCode :
          (addr caller other : Addr) (code_id : ℕ) (msg : Text) (policy : Policy)
          (c c' : Context platform) (reply_data : Option Text)
          → migrate platform register handle addr caller code_id msg policy c ≡ (ok reply_data, c')
          → addr ≢ other
          → HasCode addr code_id c'
            × (get (get_contract_address_key other) c'.kv
                ≡ get (get_contract_address_key other) c.kv)
      migrate-HasCode addr caller other code_id msg policy c c' reply_data done apart =
          let same =
            ((Keeps-migrate other (get (get_contract_address_key other) c.kv) (Keeps-entry other _)
                addr caller code_id msg policy apart).at
              c (record { holds = refl })).holds in
          (
            LandsAt-ok (HasCode addr code_id) _ reply_data c' done
                ((HasCode-migrate addr caller code_id msg policy).at c),
            rw done at same,
          )
