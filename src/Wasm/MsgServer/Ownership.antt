-- ===== src/Wasm/MsgServer/Ownership.antt =====
-- A contract is changed by its admin and by governance alone (x/wasm/keeper/msg_server.go).
pub mod Final
use bignftd.Base.{
  ℕ, Text, ◌≡◌, ◌≢◌, refl, ◌∙◌, false, Option, none, some, List, [], text_eq, text_eq_ne,
  Option-cases, inl, inr,
}
use bignftd.Chain.Outcome.{Result, ok, err, panic, continue, ◌>>=◌, ◌>>◌}
use bignftd.Chain.Lands.{LandsAt-ok}
use bignftd.Chain.Sdk.{Addr}
use bignftd.Wasm.Gas.{GasConfig}
use bignftd.Wasm.Access.Validation.{AccessError}
use bignftd.Wasm.Policy.{default_policy, is_actor, can_modify_contract}
use bignftd.Wasm.Contract.{ContractInfo, admin_addr}
use bignftd.Wasm.Messages.{
  Formats, MsgClearAdmin, MsgStoreAndMigrateContract, validate_store_and_migrate,
}
use bignftd.Wasm.Keeper.Platform.{Platform, Context, Action, KeeperError, unauthorized}
use bignftd.Wasm.Keeper.Laws.{CodecLaws}
use bignftd.Wasm.Keeper.Contracts.{set_contract_admin, set_contract_label}
use bignftd.Wasm.Keeper.Migrate.{migrate}
use bignftd.Wasm.Keeper.Contracts.Admin.{IsStored, HasAdmin, set_contract_admin-HasAdmin}
use bignftd.Wasm.Keeper.Migrate.Authority.{modify-unauthorized}
use bignftd.Chain.Store.{get}
use bignftd.Wasm.Keys.{get_contract_address_key}
use bignftd.Wasm.Keeper.Code.{create}
use bignftd.Wasm.Keeper.Registry.{EntryIs}
use bignftd.Wasm.Keeper.Registry.Codes.{Keeps-create}
use bignftd.Wasm.MsgServer.{
  Governance, checked, address, select_authorization_policy, handle_migrate, handle_update_admin,
  handle_clear_admin, handle_update_label, handle_store_and_migrate,
}
use bignftd.Wasm.MsgServer.Message.{
  WasmMsg, update_admin, clear_admin, update_label, store_code, instantiate, instantiate2, execute,
  update_instantiate_config, update_params, pin_codes, unpin_codes, sudo, store_and_instantiate,
  add_upload_addresses, remove_upload_addresses, store_and_migrate, set_gasless, IsRefused,
  handle_message,
}
use bignftd.Wasm.MsgServer.Refusal.{dropped-IsRefused}

-- The contract that a message changes, if it changes one that exists
abbrev pub changed_contract : WasmMsg → Option Text
changed_contract (WasmMsg.migrate m) = some m.contract
changed_contract (update_admin m) = some m.contract
changed_contract (clear_admin m) = some m.contract
changed_contract (update_label m) = some m.contract
changed_contract (store_and_migrate m) = some m.contract
changed_contract _ = none

-- Who sends a message
abbrev pub sender_of : WasmMsg → Text
sender_of (store_code m) = m.sender
sender_of (instantiate m) = m.sender
sender_of (instantiate2 m) = m.sender
sender_of (execute m) = m.sender
sender_of (WasmMsg.migrate m) = m.sender
sender_of (update_admin m) = m.sender
sender_of (clear_admin m) = m.sender
sender_of (update_instantiate_config m) = m.sender
sender_of (update_params m) = m.authority
sender_of (pin_codes m) = m.authority
sender_of (unpin_codes m) = m.authority
sender_of (sudo m) = m.authority
sender_of (store_and_instantiate m) = m.authority
sender_of (add_upload_addresses m) = m.authority
sender_of (remove_upload_addresses m) = m.authority
sender_of (store_and_migrate m) = m.authority
sender_of (update_label m) = m.sender
sender_of (set_gasless m) = m.authority

-- The call returns no value, and leaves the state as in `P`.
abbrev pub IsRejected :
    {platform : Platform} {A : Type 0}
    → (Context platform → Type 0)
    → Result KeeperError A × Context platform
    → Type 0
IsRejected P (ok a, c) = ⊥
IsRejected P (err e, c) = P c
IsRejected P (panic p, c) = P c

-- A message about a contract is refused and changes nothing; if it stores a code first, then it fails
-- and leaves the data of the contract as it was.
abbrev pub Spares :
    (platform : Platform)
    → Addr
    → WasmMsg
    → Context platform
    → Result KeeperError Unit × Context platform
    → Type 0
Spares platform addr (store_and_migrate m) c =
    IsRejected
      (EntryIs platform (get_contract_address_key addr) (get (get_contract_address_key addr) c.kv))
Spares platform addr _ c = IsRefused c

module _ (platform : Platform) (formats : Formats) (gov : Governance) where
  parsed-IsRefused :
      {A : Type 0} (check : Result AccessError Unit) (sender contract : Text)
      (k : Addr → Addr → Action platform A) (c : Context platform) (addr : Addr)
      → platform.texts.from_bech32 contract ≡ some addr
      → ((actor : Addr)
          → platform.texts.from_bech32 sender ≡ some actor
          → IsRefused c (k actor addr c))
      → IsRefused c (
          (checked platform formats gov check
              >> (address platform formats gov sender >>= λ a.
                  address platform formats gov contract >>= λ b. k a b))
            c)
  unfolding address
  parsed-IsRefused (err e) sender contract k c addr at refused = refl
  parsed-IsRefused (panic p) sender contract k c addr at refused = refl
  parsed-IsRefused (ok u) sender contract k c addr at refused =
      elim (Option-cases (platform.texts.from_bech32 sender)) [
        | inl missing ↦ rw missing refl
        | inr (actor, known) ↦ rw (known, at) (refused actor known)
      ]

  -- A call that succeeds is that of the parsed addresses.
  parsed-eq_ok :
      (check : Result AccessError Unit) (sender contract : Text)
      (k : Addr → Addr → Action platform Unit) (c c' : Context platform) (addr : Addr)
      → platform.texts.from_bech32 contract ≡ some addr
      → (checked platform formats gov check
            >> (address platform formats gov sender >>= λ a.
                address platform formats gov contract >>= λ b. k a b))
          c
        ≡ (ok tt, c')
      → (actor : Addr) × (k actor addr c ≡ (ok tt, c'))
  unfolding address
  parsed-eq_ok (err e) sender contract k c c' addr at done = cc
  parsed-eq_ok (panic p) sender contract k c c' addr at done = cc
  parsed-eq_ok (ok u) sender contract k c c' addr at done =
      elim (Option-cases (platform.texts.from_bech32 sender)) [
        | inl missing ↦ let no_ = (rw missing at done) in cc
        | inr (actor, known) ↦ (actor, rw (known, at) at done)
      ]

  pub handle_clear_admin-HasAdmin :
      (m : MsgClearAdmin) (c c' : Context platform) (addr : Addr)
      → platform.texts.from_bech32 m.contract ≡ some addr
      → handle_clear_admin platform formats gov m c ≡ (ok tt, c')
      → HasAdmin platform addr (platform.texts.to_bech32 []) c'
  unfolding handle_clear_admin
  handle_clear_admin-HasAdmin m c c' addr at done =
      let (actor, cleared) = parsed-eq_ok _ m.sender m.contract _ c c' addr at done in
      LandsAt-ok (HasAdmin platform addr (platform.texts.to_bech32 [])) _ tt c' cleared (
        (set_contract_admin-HasAdmin platform addr actor []
            (select_authorization_policy platform formats gov m.sender c)).at
          c)

  select_authorization_policy-default :
      (sender : Text) (c : Context platform)
      → sender ≢ gov.authority
      → c.policy ≡ none
      → select_authorization_policy platform formats gov sender c ≡ default_policy
  unfolding select_authorization_policy
  select_authorization_policy-default sender c other outside =
      rw (text_eq_ne sender gov.authority other, outside) refl

  module _ (register : GasConfig)
      (handle : Addr → Text → List platform.Msg → Option Text → Action platform (Option Text))
      (laws : CodecLaws platform) where
    continue-IsRejected :
        {A B : Type 0} (P : Context platform → Type 0) (r : Result KeeperError A × Context platform)
        (f : A → Action platform B)
        → P r.1
        → ((a : A) (d : Context platform) → P d → IsRejected P (f a d))
        → IsRejected P (continue r f)
    continue-IsRejected P (ok a, d) f h k = k a d h
    continue-IsRejected P (err e, d) f h k = h
    continue-IsRejected P (panic p, d) f h k = h

    step_after :
        {A B : Type 0} (P : Context platform → Type 0) (r : Result KeeperError A × Context platform)
        (f : A → Action platform B)
        → IsRejected P r
        → IsRejected P (continue r f)
    step_after P (ok a, d) f h = absurd h
    step_after P (err e, d) f h = h
    step_after P (panic p, d) f h = h

    checked-IsRejected :
        {A : Type 0} (P : Context platform → Type 0) (check : Result AccessError Unit)
        (k : Action platform A) (c : Context platform)
        → P c
        → IsRejected P (k c)
        → IsRejected P ((checked platform formats gov check >> k) c)
    checked-IsRejected P (err e) k c h rejected = h
    checked-IsRejected P (panic p) k c h rejected = h
    checked-IsRejected P (ok u) k c h rejected = rejected

    module _ (addr : Addr) (info : ContractInfo) (seat : Option Addr) (c : Context platform)
        (stored : IsStored platform addr info c) (seated : admin_addr platform.texts info ≡ ok seat)
        (outside : c.policy ≡ none) where
      -- The keeper's own refusals, under the policy that the server selects
      refusals :
          (sender : Text) (actor : Addr)
          → sender ≢ gov.authority
          → is_actor seat actor ≡ false
          → (new_code_id : ℕ) (msg : Text) (later : Addr) (label : Text)
          → let policy = select_authorization_policy platform formats gov sender c in
            (migrate platform register handle addr actor new_code_id msg policy c
              ≡ (err unauthorized, c))
            × (set_contract_admin platform addr actor later policy c ≡ (err unauthorized, c))
            × (set_contract_label platform addr actor label policy c ≡ (err unauthorized, c))
      unfolding can_modify_contract
      refusals sender actor other no_ new_code_id msg later label =
          rw (select_authorization_policy-default sender c other outside) (
            modify-unauthorized platform register handle laws addr info c seat actor default_policy
              stored seated no_ new_code_id msg later label)

      store_and_migrate-IsRejected :
          (m : MsgStoreAndMigrateContract)
          → platform.texts.from_bech32 m.contract ≡ some addr
          → ((actor : Addr)
              → platform.texts.from_bech32 m.authority ≡ some actor
              → is_actor seat actor ≡ false)
          → m.authority ≢ gov.authority
          → IsRejected
              (EntryIs platform
                (get_contract_address_key addr)
                (get (get_contract_address_key addr) c.kv))
              (handle_store_and_migrate platform formats gov register handle m c)
      unfolding handle_store_and_migrate address can_modify_contract
      store_and_migrate-IsRejected m at outsider other =
          elim (Option-cases (platform.texts.from_bech32 m.authority)) [
            | inl missing ↦ rw missing (record { holds = refl })
            | inr (actor, known) ↦ rw known (
                checked-IsRejected _ (validate_store_and_migrate platform.texts formats m) _ c
                  (record { holds = refl })
                  (rw (select_authorization_policy-default m.authority c other outside) (
                    continue-IsRejected _
                      (create platform register (some actor) m.wasm_byte_code
                        m.instantiate_permission default_policy c)
                      _
                      ((Keeps-create platform addr _ register (some actor) m.wasm_byte_code
                          m.instantiate_permission default_policy).at
                        c (record { holds = refl }))
                      (λ stored_code d kept.
                        rw
                          (
                            at,
                            (modify-unauthorized platform register handle laws addr info d seat
                                actor default_policy (kept.holds ∙ stored) seated
                                (outsider actor known) stored_code.0 m.msg [] []).0,
                          )
                          kept))))
          ]

      refusal_of :
          (msg : WasmMsg)
          → ((contract : Text)
              → changed_contract msg ≡ some contract
              → platform.texts.from_bech32 contract ≡ some addr)
          → ((actor : Addr)
              → platform.texts.from_bech32 (sender_of msg) ≡ some actor
              → is_actor seat actor ≡ false)
          → sender_of msg ≢ gov.authority
          → (contract : Text) → changed_contract msg ≡ some contract
          → Spares platform addr msg c (handle_message platform formats gov register handle msg c)
      unfolding handle_message handle_migrate handle_update_admin handle_clear_admin
          handle_update_label address
      refusal_of (WasmMsg.migrate m) at outsider other contract e =
          dropped-IsRefused platform formats gov register handle c _ (
            parsed-IsRefused _ m.sender m.contract _ c addr (at m.contract refl) (λ actor known.
              rw (refusals m.sender actor other (outsider actor known) m.code_id m.msg [] []).0
                refl))
      refusal_of (update_admin m) at outsider other contract e =
          parsed-IsRefused _ m.sender m.contract _ c addr (at m.contract refl) (λ actor known.
            elim (Option-cases (platform.texts.from_bech32 m.new_admin)) [
              | inl missing ↦ rw missing refl
              | inr (new_admin, parsed) ↦
                  rw
                    (
                      parsed,
                      (refusals m.sender actor other (outsider actor known) 0 [] new_admin []).1,
                    )
                    refl
            ])
      refusal_of (clear_admin m) at outsider other contract e =
          parsed-IsRefused _ m.sender m.contract _ c addr (at m.contract refl) (λ actor known.
            rw (refusals m.sender actor other (outsider actor known) 0 [] [] []).1 refl)
      refusal_of (update_label m) at outsider other contract e =
          parsed-IsRefused _ m.sender m.contract _ c addr (at m.contract refl) (λ actor known.
            rw (refusals m.sender actor other (outsider actor known) 0 [] [] m.new_label).2 refl)
      refusal_of (store_code m) at outsider other contract e = cc
      refusal_of (instantiate m) at outsider other contract e = cc
      refusal_of (instantiate2 m) at outsider other contract e = cc
      refusal_of (execute m) at outsider other contract e = cc
      refusal_of (update_instantiate_config m) at outsider other contract e = cc
      refusal_of (update_params m) at outsider other contract e = cc
      refusal_of (pin_codes m) at outsider other contract e = cc
      refusal_of (unpin_codes m) at outsider other contract e = cc
      refusal_of (sudo m) at outsider other contract e = cc
      refusal_of (store_and_instantiate m) at outsider other contract e = cc
      refusal_of (add_upload_addresses m) at outsider other contract e = cc
      refusal_of (remove_upload_addresses m) at outsider other contract e = cc
      refusal_of (store_and_migrate m) at outsider other contract e =
          step_after _ (handle_store_and_migrate platform formats gov register handle m c) _
            (store_and_migrate-IsRejected m (at m.contract refl) outsider other)
      refusal_of (set_gasless m) at outsider other contract e = cc

    -- A message that migrates a stored contract, or changes or clears its admin or its label, outside a
    -- submessage of governance, from a sender who is neither its admin nor the module's authority,
    -- succeeds for nobody and changes nothing; the one that stores the code first may have stored
    -- that code, but it too fails, and leaves the data of the contract as it was.
    pub handle_message-unauthorized :
        (msg : WasmMsg) (contract : Text) (addr : Addr) (info : ContractInfo) (seat : Option Addr)
        (c : Context platform)
        → changed_contract msg ≡ some contract
        → platform.texts.from_bech32 contract ≡ some addr
        → IsStored platform addr info c
        → admin_addr platform.texts info ≡ ok seat
        → ((actor : Addr)
            → platform.texts.from_bech32 (sender_of msg) ≡ some actor
            → is_actor seat actor ≡ false)
        → sender_of msg ≢ gov.authority
        → c.policy ≡ none
        → Spares platform addr msg c (handle_message platform formats gov register handle msg c)
    handle_message-unauthorized msg contract addr info seat c e at stored seated outsider other
          outside =
        refusal_of addr info seat c stored seated outside msg
          (λ t e'. let same : t ≡ contract = cc in rw same at) outsider other contract e
