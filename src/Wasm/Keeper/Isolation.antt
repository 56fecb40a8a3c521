-- ===== src/Wasm/Keeper/Isolation.antt =====
-- What a call of a contract may change in the wasm module's store (x/wasm/keeper/keeper.go).
use bignftd.Base.{◌≡◌, refl, Text, Bool, true, false, Option, List}
use bignftd.Chain.Keeps.{Keeps}
use bignftd.Chain.Store.{Store, get}
use bignftd.Chain.Sdk.{Addr, Coins}
use bignftd.Wasm.Gas.{GasConfig}
use bignftd.Wasm.Dispatcher.{Reply}
use bignftd.Wasm.Keys.{get_contract_store_prefix}
use bignftd.Wasm.Keeper.Platform.{Platform, Context, Action}
use bignftd.Wasm.Keeper.Calls.{run_execute, on_free_meter, execute, sudo, reply}
use bignftd.Wasm.Keeper.Response.Isolation.{IsOutside, IsForeign, IsForeign-get, Keeps-call_vm}
use bignftd.Wasm.Keeper.Keeping.{
  OnKv, kv_rules, Keeps-contract_instance, Keeps-pay_call, Keeps-transfer_coins, Keeps-response_of,
  Keeps-handle_contract_response, Keeps-is_gasless, Keeps-with_meter, Keeps-consume_gas,
}

module _ (platform : Platform) where
  -- The call leaves the entry of a key as it was, however it ends.
  pub record LeavesKey {A : Type 0} (k : Text) (m : Action platform A) : Type 0 where
    pub same : (c : Context platform) → get k (m c).1.kv ≡ get k c.kv

  pub LeavesKey-Keeps :
      {A : Type 0}
      → (k : Text) (m : Action platform A)
      → ((v : Option Text) → Keeps (OnKv platform (λ kv. get k kv ≡ v)) m)
      → LeavesKey k m
  LeavesKey-Keeps k m h = record {
    same = λ c. ((h (get k c.kv)).at c (record { holds = refl })).holds;
  }

  pub Keeps-LeavesKey :
      {A : Type 0}
      → (k : Text) (v : Option Text) (m : Action platform A) → LeavesKey k m
      → Keeps (OnKv platform (λ kv. get k kv ≡ v)) m
  Keeps-LeavesKey k v m h = record { at = λ c e. record { holds = cc (h.same c, e.holds) } }

  module _ (register : GasConfig)
      (handle : Addr → Text → List platform.Msg → Option Text → Action platform (Option Text)) where
    module _ {P : Store → Type 0}
        (keeps : (addr : Addr) (port : Text) (msgs : List platform.Msg) (original : Option Text)
          → Keeps (OnKv platform P) (handle addr port msgs original))
        (addr : Addr) (foreign : IsForeign addr P) where
      Keeps-run_execute :
          (caller : Addr) (msg : Text) (coins : Coins)
          → Keeps (OnKv platform P) (run_execute platform register handle addr caller msg coins)
      unfolding run_execute
      Keeps-run_execute caller msg coins =
          search
            (
              kv_rules, Keeps-contract_instance, Keeps-pay_call, Keeps-transfer_coins,
              Keeps-call_vm, Keeps-response_of, Keeps-handle_contract_response, keeps, foreign,
            )
            depth 20

      Keeps-on_free_meter :
          {A : Type 0}
          → (b : Bool) (m : Action platform A) → Keeps (OnKv platform P) m
          → Keeps (OnKv platform P) (on_free_meter platform register handle b m)
      Keeps-on_free_meter true m k = Keeps-with_meter platform platform.infinite_meter m k
      Keeps-on_free_meter false m k = k

      pub Keeps-execute :
          (caller : Addr) (msg : Text) (coins : Coins)
          → Keeps (OnKv platform P) (execute platform register handle addr caller msg coins)
      unfolding execute
      Keeps-execute caller msg coins =
          search (kv_rules, Keeps-is_gasless, Keeps-on_free_meter, Keeps-run_execute)

      Keeps-sudo : (msg : Text) → Keeps (OnKv platform P) (sudo platform register handle addr msg)
      unfolding sudo
      Keeps-sudo msg =
          search
            (
              kv_rules, Keeps-contract_instance, Keeps-pay_call, Keeps-call_vm, Keeps-response_of,
              Keeps-handle_contract_response, keeps, foreign,
            )
            depth 20

      Keeps-reply :
          (message : Reply) → Keeps (OnKv platform P) (reply platform register handle addr message)
      unfolding reply
      Keeps-reply message =
          search
            (
              kv_rules, Keeps-contract_instance, Keeps-consume_gas, Keeps-call_vm,
              Keeps-response_of, Keeps-handle_contract_response, keeps, foreign,
            )
            depth 20

    -- `execute`, `Sudo` and `reply` of a contract leave every entry of the module's store as it was,
    -- however they end, whose key is not below the prefix of the contract's own store, if the
    -- handling of the messages in its response does.
    pub calls-LeavesKey :
        (addr : Addr) (k : Text)
        → IsOutside (get_contract_store_prefix addr) k
        → ((a : Addr) (port : Text) (msgs : List platform.Msg) (original : Option Text)
            → LeavesKey k (handle a port msgs original))
        → (caller : Addr) (msg : Text) (coins : Coins) (message : Reply)
        → LeavesKey k (execute platform register handle addr caller msg coins)
          × LeavesKey k (sudo platform register handle addr msg)
          × LeavesKey k (reply platform register handle addr message)
    calls-LeavesKey addr k outside leaves caller msg coins message =
        let keeps : (v : Option Text) (a : Addr) (port : Text) (msgs : List platform.Msg)
              (original : Option Text)
            → Keeps (OnKv platform (λ kv. get k kv ≡ v)) (handle a port msgs original) =
          λ v a port msgs original. Keeps-LeavesKey k v _ (leaves a port msgs original) in
        let foreign = λ (v : Option Text). IsForeign-get addr k v outside in
        (
          LeavesKey-Keeps k _ (λ v. Keeps-execute (keeps v) addr (foreign v) caller msg coins),
          LeavesKey-Keeps k _ (λ v. Keeps-sudo (keeps v) addr (foreign v) msg),
          LeavesKey-Keeps k _ (λ v. Keeps-reply (keeps v) addr (foreign v) message),
        )
