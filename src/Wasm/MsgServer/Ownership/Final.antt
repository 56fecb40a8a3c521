-- ===== src/Wasm/MsgServer/Ownership/Final.antt =====
-- A contract whose admin was cleared is in the hands of the module's authority alone.
use bignftd.Base.{
  Text, ◌≡◌, ◌≢◌, refl, sym, ap, ◌∙◌, ◌⊎◌, Option, none, some, List, [], Bool-cases, inl, inr,
  text_eq, text_eq_iff,
}
use bignftd.Chain.Outcome.{Result, ok, err, panic}
use bignftd.Chain.Keeps.{Keeps, keeps_rules}
use bignftd.Chain.Store.{get}
use bignftd.Chain.Sdk.{Addr}
use bignftd.Wasm.Gas.{GasConfig}
use bignftd.Wasm.Keys.{get_contract_address_key}
use bignftd.Wasm.Contract.{ContractInfo, admin_addr}
use bignftd.Wasm.Messages.{Formats, MsgClearAdmin}
use bignftd.Wasm.Keeper.Platform.{Platform, Context, Action, KeeperError}
use bignftd.Wasm.Keeper.Laws.{CodecLaws}
use bignftd.Wasm.Keeper.Isolation.{LeavesKey, Keeps-LeavesKey}
use bignftd.Wasm.Keeper.Registry.{EntryIs}
use bignftd.Wasm.MsgServer.{
  Governance, handle_update_admin, handle_clear_admin, handle_update_label,
}
use bignftd.Wasm.MsgServer.Message.{
  WasmMsg, update_admin, clear_admin, update_label, store_code, instantiate, instantiate2, execute,
  update_instantiate_config, update_params, pin_codes, unpin_codes, sudo, store_and_instantiate,
  add_upload_addresses, remove_upload_addresses, store_and_migrate, set_gasless, IsRefused, dropped,
  handle_message,
}
use bignftd.Wasm.MsgServer.Refusal.{signer_of_guarded, handle_message-IsRefused}
use bignftd.Wasm.MsgServer.Keeping.{
  DataIs, Keeps-update_instantiate_config, Keeps-update_admin, Keeps-clear_admin,
  Keeps-update_label, Keeps-handle_migrate, Keeps-store_and_migrate, Keeps-store_code,
  Keeps-handle_execute, Keeps-handle_instantiate, Keeps-handle_instantiate2,
  Keeps-store_and_instantiate,
}
use bignftd.Wasm.MsgServer.Ownership.{
  changed_contract, sender_of, Spares, IsRejected, handle_clear_admin-HasAdmin,
  handle_message-unauthorized,
}

-- The contexts after the first one: messages of users are handled, with any outcome, and in between
-- anything happens that leaves the data of the contract.
module _ (platform : Platform) (formats : Formats) (gov : Governance) (register : GasConfig)
    (handle : Addr → Text → List platform.Msg → Option Text → Action platform (Option Text))
    (addr : Addr) where
  pub data Later (first : Context platform) : Context platform → Type 0 where
    at_once : {c : Context platform} → first ≡ c → Later first c
    handled :
        {c d : Context platform} (msg : WasmMsg)
        → Later first c
        → c.policy ≡ none
        → sender_of msg ≢ gov.authority
        → (handle_message platform formats gov register handle msg c).1 ≡ d
        → Later first d
    elsewhere :
        {c d : Context platform}
        → Later first c
        → get (get_contract_address_key addr) d.kv ≡ get (get_contract_address_key addr) c.kv
        → Later first d

module _ (platform : Platform) (formats : Formats) (gov : Governance) (register : GasConfig)
    (handle : Addr → Text → List platform.Msg → Option Text → Action platform (Option Text))
    (laws : CodecLaws platform) (nil : platform.texts.to_bech32 [] ≡ []) (addr : Addr)
    (leaves : (a : Addr) (port : Text) (msgs : List platform.Msg) (original : Option Text)
      → LeavesKey platform (get_contract_address_key addr) (handle a port msgs original))
    (info : ContractInfo) where
  -- The data of the contract, with no admin
  abbrev ownerless : Text
  ownerless = platform.encode_contract (record info { admin = platform.texts.to_bech32 [] })

  abbrev IsOwnerless : Context platform → Type 0
  IsOwnerless = DataIs platform formats gov addr ownerless

  -- A message about the contract is refused, whichever user sends it.
  ownerless-Spares :
      (msg : WasmMsg) (contract : Text) (c : Context platform)
      → IsOwnerless c
      → c.policy ≡ none
      → sender_of msg ≢ gov.authority
      → changed_contract msg ≡ some contract
      → platform.texts.from_bech32 contract ≡ some addr
      → Spares platform addr msg c (handle_message platform formats gov register handle msg c)
  unfolding admin_addr text_eq
  ownerless-Spares msg contract c h outside other e at =
      handle_message-unauthorized platform formats gov register handle laws msg contract addr
        (record info { admin = platform.texts.to_bech32 [] }) none c e at h.holds (rw nil refl)
        (λ actor known. refl) other outside

  refused-IsOwnerless :
      {A : Type 0} (c : Context platform) (out : Result KeeperError A × Context platform)
      → IsRefused c out
      → IsOwnerless c
      → IsOwnerless out.1
  refused-IsOwnerless c (ok a, c') refused h = absurd refused
  refused-IsOwnerless c (err e, c') refused h = rw refused h
  refused-IsOwnerless c (panic p, c') refused h = rw refused h

  rejected-IsOwnerless :
      {A : Type 0} (c : Context platform) (out : Result KeeperError A × Context platform)
      → IsRejected
          (EntryIs platform
            (get_contract_address_key addr)
            (get (get_contract_address_key addr) c.kv))
          out
      → IsOwnerless c
      → IsOwnerless out.1
  rejected-IsOwnerless c (ok a, c') rejected h = absurd rejected
  rejected-IsOwnerless c (err e, c') rejected h = record { holds = rejected.holds ∙ h.holds }
  rejected-IsOwnerless c (panic p, c') rejected h = record { holds = rejected.holds ∙ h.holds }

  -- Whether a text is that of the contract
  names : (o : Option Addr) → (o ≡ some addr) ⊎ (o ≢ some addr)
  names none = inr (λ e. cc e)
  names (some b) = elim (Bool-cases (text_eq b addr)) [
    | inl same ↦ inl (ap some ((text_eq_iff b addr).0 same))
    | inr other ↦ inr (λ e. let same : b ≡ addr = cc in cc ((text_eq_iff b addr).1 same))
  ]

  keeps :
      (a : Addr) (port : Text) (msgs : List platform.Msg) (original : Option Text)
      → Keeps IsOwnerless (handle a port msgs original)
  keeps a port msgs original =
      Keeps-LeavesKey platform (get_contract_address_key addr) (some ownerless) _
        (leaves a port msgs original)

  Keeps-dropped :
      {A : Type 0} (m : Action platform A)
      → Keeps IsOwnerless m
      → Keeps IsOwnerless (dropped platform formats gov register handle m)
  Keeps-dropped m k = search (keeps_rules, k)

  module _ (c : Context platform) (h : IsOwnerless c) (outside : c.policy ≡ none) where
    -- Where the message is about the contract, it is refused; else it leaves the contract.
    changed-IsOwnerless :
        (msg : WasmMsg) (contract : Text)
        → changed_contract msg ≡ some contract
        → sender_of msg ≢ gov.authority
        → (Spares platform addr msg c (handle_message platform formats gov register handle msg c)
            → IsOwnerless (handle_message platform formats gov register handle msg c).1)
        → (platform.texts.from_bech32 contract ≢ some addr
            → Keeps IsOwnerless (handle_message platform formats gov register handle msg))
        → IsOwnerless (handle_message platform formats gov register handle msg c).1
    changed-IsOwnerless msg contract e other spared left =
        elim (names (platform.texts.from_bech32 contract)) [
          | inl at ↦ spared (ownerless-Spares msg contract c h outside other e at)
          | inr no_ ↦ (left no_).at c h
        ]

    guarded-IsOwnerless :
        (msg : WasmMsg) (signer : Text)
        → signer_of_guarded msg ≡ some signer
        → signer ≢ gov.authority
        → IsOwnerless (handle_message platform formats gov register handle msg c).1
    guarded-IsOwnerless msg signer e other =
        refused-IsOwnerless c _
          (handle_message-IsRefused platform formats gov register handle msg signer c e
            (λ same. other (sym same)))
          h

    -- No message of a user takes a contract without admin away from the authority.
    handle_message-IsOwnerless :
        (msg : WasmMsg)
        → sender_of msg ≢ gov.authority
        → IsOwnerless (handle_message platform formats gov register handle msg c).1
    unfolding handle_message
    handle_message-IsOwnerless (WasmMsg.migrate m) other =
        changed-IsOwnerless (WasmMsg.migrate m) m.contract refl other
          (λ r.
            refused-IsOwnerless c
              (handle_message platform formats gov register handle (WasmMsg.migrate m) c) r h)
          (λ no_.
            Keeps-dropped _ (
              Keeps-handle_migrate platform formats gov addr ownerless register handle keeps m no_))
    handle_message-IsOwnerless (update_admin m) other =
        changed-IsOwnerless (update_admin m) m.contract refl other
          (λ r. refused-IsOwnerless c (handle_update_admin platform formats gov m c) r h)
          (λ no_. Keeps-update_admin platform formats gov addr ownerless m no_)
    handle_message-IsOwnerless (clear_admin m) other =
        changed-IsOwnerless (clear_admin m) m.contract refl other
          (λ r. refused-IsOwnerless c (handle_clear_admin platform formats gov m c) r h)
          (λ no_. Keeps-clear_admin platform formats gov addr ownerless m no_)
    handle_message-IsOwnerless (update_label m) other =
        changed-IsOwnerless (update_label m) m.contract refl other
          (λ r. refused-IsOwnerless c (handle_update_label platform formats gov m c) r h)
          (λ no_. Keeps-update_label platform formats gov addr ownerless m no_)
    handle_message-IsOwnerless (store_and_migrate m) other =
        changed-IsOwnerless (store_and_migrate m) m.contract refl other
          (λ r.
            rejected-IsOwnerless c
              (handle_message platform formats gov register handle (store_and_migrate m) c) r h)
          (λ no_. Keeps-dropped _ (
            Keeps-store_and_migrate platform formats gov addr ownerless register handle keeps m
              no_))
    handle_message-IsOwnerless (store_code m) other =
        (Keeps-dropped _ (Keeps-store_code platform formats gov addr ownerless register m)).at c h
    handle_message-IsOwnerless (instantiate m) other =
        (Keeps-dropped _ (
            Keeps-handle_instantiate platform formats gov addr ownerless register handle keeps
              m)).at
          c h
    handle_message-IsOwnerless (instantiate2 m) other =
        (Keeps-dropped _ (
            Keeps-handle_instantiate2 platform formats gov addr ownerless register handle keeps
              m)).at
          c h
    handle_message-IsOwnerless (execute m) other =
        (Keeps-dropped _
            (Keeps-handle_execute platform formats gov addr ownerless register handle keeps m)).at
          c h
    handle_message-IsOwnerless (store_and_instantiate m) other =
        (Keeps-dropped _ (
            Keeps-store_and_instantiate platform formats gov addr ownerless register handle keeps
              m)).at
          c h
    handle_message-IsOwnerless (update_instantiate_config m) other =
        (Keeps-update_instantiate_config platform formats gov addr ownerless m).at c h
    handle_message-IsOwnerless (update_params m) other =
        guarded-IsOwnerless (update_params m) m.authority refl other
    handle_message-IsOwnerless (pin_codes m) other =
        guarded-IsOwnerless (pin_codes m) m.authority refl other
    handle_message-IsOwnerless (unpin_codes m) other =
        guarded-IsOwnerless (unpin_codes m) m.authority refl other
    handle_message-IsOwnerless (sudo m) other = guarded-IsOwnerless (sudo m) m.authority refl other
    handle_message-IsOwnerless (add_upload_addresses m) other =
        guarded-IsOwnerless (add_upload_addresses m) m.authority refl other
    handle_message-IsOwnerless (remove_upload_addresses m) other =
        guarded-IsOwnerless (remove_upload_addresses m) m.authority refl other
    handle_message-IsOwnerless (set_gasless m) other =
        guarded-IsOwnerless (set_gasless m) m.authority refl other

  Later-IsOwnerless :
      {first c : Context platform}
      → Later platform formats gov register handle addr first c
      → IsOwnerless first
      → IsOwnerless c
  Later-IsOwnerless (at_once e) h = rw e at h
  Later-IsOwnerless (handled {c} msg before outside other e) h =
      let after = handle_message-IsOwnerless c (Later-IsOwnerless before h) outside msg other in
      rw e at after
  Later-IsOwnerless (elsewhere before e) h = record {
    holds = e ∙ (Later-IsOwnerless before h).holds;
  }

-- Once the admin of a contract was cleared by a message, nobody but the module's authority changes it
-- any more. In every later context, after any messages that are not of the authority, whoever sent
-- them and however they ended, and after anything else that left the data of the contract, a message
-- to migrate it or to change its admin or label from anyone but the authority succeeds for nobody and
-- changes nothing; the one that stores a code first may store that code, but fails and leaves the
-- data of the contract. The messages are handled outside submessages of governance, the nil address
-- has the empty text, and the handling of contracts' responses leaves the data of the contract.
pub handle_clear_admin-final :
    (platform : Platform) (formats : Formats) (gov : Governance) (register : GasConfig)
    (handle : Addr → Text → List platform.Msg → Option Text → Action platform (Option Text))
    (laws : CodecLaws platform) (m : MsgClearAdmin) (addr : Addr) (c c' d : Context platform)
    → platform.texts.to_bech32 [] ≡ []
    → ((a : Addr) (port : Text) (msgs : List platform.Msg) (original : Option Text)
        → LeavesKey platform (get_contract_address_key addr) (handle a port msgs original))
    → platform.texts.from_bech32 m.contract ≡ some addr
    → handle_clear_admin platform formats gov m c ≡ (ok tt, c')
    → Later platform formats gov register handle addr c' d
    → d.policy ≡ none
    → (msg : WasmMsg) (contract : Text) → changed_contract msg ≡ some contract
    → platform.texts.from_bech32 contract ≡ some addr
    → sender_of msg ≢ gov.authority
    → Spares platform addr msg d (handle_message platform formats gov register handle msg d)
handle_clear_admin-final platform formats gov register handle laws m addr c c' d nil leaves at done
      run outside msg contract e same other =
    let (info, stored) = handle_clear_admin-HasAdmin platform formats gov m c c' addr at done in
    let here =
      Later-IsOwnerless platform formats gov register handle laws nil addr leaves info run
        (record { holds = stored }) in
    ownerless-Spares platform formats gov register handle laws nil addr leaves info msg contract d
      here outside other e same
