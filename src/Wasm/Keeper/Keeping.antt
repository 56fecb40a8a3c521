-- ===== src/Wasm/Keeper/Keeping.antt =====
-- What the keeper's calls leave of its store: a predicate on the store that a write does not touch
-- holds after the call, however it ends (x/wasm/keeper/keeper.go).
use bignftd.Base.{
  ℕ, ◌-◌, ◌==◌, Bool-cases, inl, inr, Text, Bool, true, false, Option, none, some, List,
}
use bignftd.Chain.Outcome.{Result, ok, err, panic, Panic}
use bignftd.Chain.Keeps.{Keeps, keeps_rules}
use bignftd.Chain.Store.{Store}
use bignftd.Chain.Sdk.{Addr, Coins}
use bignftd.Wasm.Gas.{Priced, GasConfig, u64_mod}
use bignftd.Wasm.Access.{lists}
use bignftd.Wasm.Policy.{Policy}
use bignftd.Wasm.Dispatcher.{Event}
use bignftd.Wasm.Events.{EventError}
use bignftd.Wasm.Contract.{CodeInfo, ContractInfo}
use bignftd.Wasm.Keeper.Platform.{
  Platform, Context, Action, KeeperReply, KeeperError, Response, VmResult, failed, missing,
  contract_error, responded, with_panic, must, call_world, write_kv, emit_event, emit_events,
  with_policy, with_meter,
}
use bignftd.Wasm.Keeper.Gas.{
  on_meter, consume_gas, runtime_gas_for_contract, check_gas_left, consume_runtime_gas, discount_in,
  check_discount_eligibility, pay_setup, new_env, current_position,
}
use bignftd.Wasm.Keeper.Code.{get_code_info, is_pinned_code, decoded_code}
use bignftd.Wasm.Keeper.Contracts.{
  get_contract_info, decoded_contract, contract_instance, require_instance, require_code_of,
  is_gasless,
}
use bignftd.Wasm.Keeper.Response.{response_of, with_event_error, handle_contract_response}
use bignftd.Wasm.Keeper.Calls.{pay_call, transfer_coins, call_event}

module _ (platform : Platform) where
  -- A predicate on the store, as one on the context.
  pub record OnKv (P : Store → Type 0) (c : Context platform) : Type 0 where
    pub holds : P c.kv

  module _ {A : Type 0} {P : Store → Type 0} where
    pub Keeps-with_panic : (r : Priced A) → Keeps (OnKv P) (with_panic platform r)
    Keeps-with_panic (ok a) = record { at = λ c h. record { holds = h.holds } }
    Keeps-with_panic (err e) = absurd e
    Keeps-with_panic (panic p) = record { at = λ c h. record { holds = h.holds } }

    pub Keeps-must : (o : Option A) → Keeps (OnKv P) (must platform o)
    Keeps-must none = record { at = λ c h. record { holds = h.holds } }
    Keeps-must (some a) = record { at = λ c h. record { holds = h.holds } }

    pub Keeps-call_world :
        (f : platform.World → KeeperReply A × platform.World)
        → Keeps (OnKv P) (call_world platform f)
    Keeps-call_world f = record { at = λ c h. record { holds = h.holds } }

    pub Keeps-with_policy :
        (p : Policy) (m : Action platform A)
        → Keeps (OnKv P) m
        → Keeps (OnKv P) (with_policy platform p m)
    Keeps-with_policy p m k = record {
      at = λ c h. record {
        holds = (k.at (record c { policy = some p }) (record { holds = h.holds })).holds;
      };
    }

    pub Keeps-with_meter :
        (meter : platform.Meter) (m : Action platform A)
        → Keeps (OnKv P) m
        → Keeps (OnKv P) (with_meter platform meter m)
    Keeps-with_meter meter m k = record {
      at = λ c h. record {
        holds = (k.at (record c { meter = meter }) (record { holds = h.holds })).holds;
      };
    }

  module _ {P : Store → Type 0} where
    pub Keeps-write_kv :
        (f : Store → Store) → ((m : Store) → P m → P (f m)) → Keeps (OnKv P) (write_kv platform f)
    Keeps-write_kv f k = record { at = λ c h. record { holds = k c.kv h.holds } }

    pub Keeps-emit_event : (e : Event) → Keeps (OnKv P) (emit_event platform e)
    Keeps-emit_event e = record { at = λ c h. record { holds = h.holds } }

    pub Keeps-emit_events : (es : List Event) → Keeps (OnKv P) (emit_events platform es)
    Keeps-emit_events es = record { at = λ c h. record { holds = h.holds } }

  pub ruleset kv_rules = (
    keeps_rules, Keeps-with_panic, Keeps-must, Keeps-call_world, Keeps-with_policy,
    Keeps-with_meter, Keeps-emit_event, Keeps-emit_events,
  )

  module _ (register : GasConfig) {P : Store → Type 0} where
    on_meter-keeps :
        (r : Option Panic × platform.Meter) (c : Context platform)
        → OnKv P c
        → OnKv P (on_meter platform register r c).1
    on_meter-keeps (none, m) c h = record { holds = h.holds }
    on_meter-keeps (some p, m) c h = record { holds = h.holds }

    pub Keeps-consume_gas : (n : ℕ) → Keeps (OnKv P) (consume_gas platform register n)
    unfolding consume_gas
    Keeps-consume_gas n = record { at = λ c h. on_meter-keeps (platform.consume n c.meter) c h }

    pub Keeps-check_gas_left : Keeps (OnKv P) (check_gas_left platform register)
    Keeps-check_gas_left = record {
      at = λ c h. elim (Bool-cases (platform.is_out_of_gas c.meter)) [
        | inl e ↦ rw e h
        | inr e ↦ rw e h
      ];
    }

    pub Keeps-runtime_gas_for_contract : Keeps (OnKv P) (runtime_gas_for_contract platform register)
    unfolding runtime_gas_for_contract
    Keeps-runtime_gas_for_contract = record {
      at = λ c h. elim (Bool-cases (platform.is_out_of_gas c.meter)) [
        | inl e ↦ rw e h
        | inr e ↦ rw e (elim (Bool-cases (platform.limit c.meter == u64_mod - 1)) [
          | inl f ↦ rw f h
          | inr f ↦ rw f ((Keeps-with_panic _).at c h)
        ])
      ];
    }

    pub Keeps-consume_runtime_gas :
        (gas : ℕ) → Keeps (OnKv P) (consume_runtime_gas platform register gas)
    unfolding consume_runtime_gas
    Keeps-consume_runtime_gas gas = search (kv_rules, Keeps-consume_gas, Keeps-check_gas_left)

    discount_in-keeps :
        (contracts : Option (List Text)) (checksum : Text) (c : Context platform)
        → OnKv P c
        → OnKv P (discount_in platform register contracts checksum c).1
    discount_in-keeps none checksum c h = h
    discount_in-keeps (some contracts) checksum c h = elim (Bool-cases (lists contracts checksum)) [
      | inl e ↦ rw e h
      | inr e ↦ rw e (record { holds = h.holds })
    ]

    Keeps-check_discount_eligibility :
        (checksum : Text) (pinned : Bool)
        → Keeps (OnKv P) (check_discount_eligibility platform register checksum pinned)
    unfolding check_discount_eligibility
    Keeps-check_discount_eligibility checksum true = record { at = λ c h. h }
    Keeps-check_discount_eligibility checksum false = record {
      at = λ c h. discount_in-keeps c.tx_contracts checksum c h;
    }

    pub Keeps-pay_setup :
        (checksum : Text) (pinned : Bool) (msg : Text)
        → Keeps (OnKv P) (pay_setup platform register checksum pinned msg)
    unfolding pay_setup
    Keeps-pay_setup checksum pinned msg =
        search (kv_rules, Keeps-consume_gas, Keeps-check_discount_eligibility) depth 10

    pub Keeps-new_env : (addr : Text) → Keeps (OnKv P) (new_env platform register addr)
    unfolding new_env
    Keeps-new_env addr = record { at = λ c h. (Keeps-with_panic _).at c h }

    pub Keeps-current_position : Keeps (OnKv P) (current_position platform register)
    unfolding current_position
    Keeps-current_position = record { at = λ c h. (Keeps-with_panic _).at c h }

  module _ {P : Store → Type 0} where
    Keeps-decoded_code : (bz : Option Text) → Keeps (OnKv P) (decoded_code platform bz)
    Keeps-decoded_code none = search kv_rules
    Keeps-decoded_code (some bz) = search kv_rules

    pub Keeps-get_code_info : (code_id : ℕ) → Keeps (OnKv P) (get_code_info platform code_id)
    unfolding get_code_info
    Keeps-get_code_info code_id = search (kv_rules, Keeps-decoded_code)

    pub Keeps-is_pinned_code : (code_id : ℕ) → Keeps (OnKv P) (is_pinned_code platform code_id)
    unfolding is_pinned_code
    Keeps-is_pinned_code code_id = search kv_rules

    Keeps-decoded_contract : (bz : Option Text) → Keeps (OnKv P) (decoded_contract platform bz)
    Keeps-decoded_contract none = search kv_rules
    Keeps-decoded_contract (some bz) = search kv_rules

    pub Keeps-get_contract_info : (addr : Addr) → Keeps (OnKv P) (get_contract_info platform addr)
    unfolding get_contract_info
    Keeps-get_contract_info addr = search (kv_rules, Keeps-decoded_contract)

    pub Keeps-is_gasless : (addr : Addr) → Keeps (OnKv P) (is_gasless platform addr)
    unfolding is_gasless
    Keeps-is_gasless addr = search kv_rules

    Keeps-require_instance :
        (found : Option ContractInfo) → Keeps (OnKv P) (require_instance platform found)
    Keeps-require_instance none = search kv_rules
    Keeps-require_instance (some info) = search kv_rules

    Keeps-require_code_of :
        (found : Option CodeInfo) → Keeps (OnKv P) (require_code_of platform found)
    Keeps-require_code_of none = search kv_rules
    Keeps-require_code_of (some info) = search kv_rules

    pub Keeps-contract_instance : (addr : Addr) → Keeps (OnKv P) (contract_instance platform addr)
    unfolding contract_instance
    Keeps-contract_instance addr =
        search
          (
            kv_rules, Keeps-get_contract_info, Keeps-get_code_info, Keeps-require_instance,
            Keeps-require_code_of,
          )
          depth 12

  module _ (register : GasConfig) {P : Store → Type 0} where
    pub Keeps-response_of :
        {A : Type 0}
        → (e : KeeperError) (r : VmResult A) → Keeps (OnKv P) (response_of platform register e r)
    unfolding response_of
    Keeps-response_of e failed = search kv_rules
    Keeps-response_of e missing = search kv_rules
    Keeps-response_of e (contract_error t) = search kv_rules
    Keeps-response_of e (responded r) = search kv_rules

    Keeps-with_event_error :
        {A : Type 0}
        → (r : Result EventError A) → Keeps (OnKv P) (with_event_error platform register r)
    Keeps-with_event_error (ok a) = record { at = λ c h. h }
    Keeps-with_event_error (err e) = record { at = λ c h. h }
    Keeps-with_event_error (panic p) = record { at = λ c h. h }

    pub Keeps-pay_call :
        (code_id : ℕ) (checksum msg : Text)
        → Keeps (OnKv P) (pay_call platform register code_id checksum msg)
    Keeps-pay_call code_id checksum msg = search (kv_rules, Keeps-is_pinned_code, Keeps-pay_setup)

    pub Keeps-transfer_coins :
        (a b : Addr) (coins : Coins) → Keeps (OnKv P) (transfer_coins platform register a b coins)
    Keeps-transfer_coins a b coins = search kv_rules

    pub Keeps-call_event :
        (kind : Text) (addr : Addr) → Keeps (OnKv P) (call_event platform register kind addr)
    Keeps-call_event kind addr = search kv_rules

    module _
        (handle : Addr → Text → List platform.Msg → Option Text → Action platform (Option Text))
        (keeps : (addr : Addr) (port : Text) (msgs : List platform.Msg) (original : Option Text)
          → Keeps (OnKv P) (handle addr port msgs original)) where
      pub Keeps-handle_contract_response :
          (addr : Addr) (port : Text) (r : Response platform.Msg)
          → Keeps (OnKv P) (handle_contract_response platform register handle addr port r)
      unfolding handle_contract_response
      Keeps-handle_contract_response addr port r =
          search (kv_rules, Keeps-consume_gas, Keeps-with_event_error, keeps) depth 14
