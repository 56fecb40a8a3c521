-- ===== src/Wasm/Messenger/Ownership.antt =====
-- A contract changes other contracts by its messages only where it is their admin.
use bignftd.Base.{
  ◌≡◌, ◌≢◌, refl, ap, false, inl, inr, Bool-cases, Option, none, some, Text, List, [], ◌∷◌,
}
use bignftd.Chain.Outcome.{Result, ok, err, panic, continue, ◌>>◌, ◌>>=◌, lift, require}
use bignftd.Chain.Sdk.{Addr}
use bignftd.Wasm.Gas.{GasConfig}
use bignftd.Wasm.Dispatcher.{Event}
use bignftd.Wasm.Policy.{is_actor}
use bignftd.Wasm.Contract.{ContractInfo, admin_addr}
use bignftd.Wasm.Messages.{Formats}
use bignftd.Wasm.Keeper.Platform.{Platform, Context, Action, KeeperError, unauthorized}
use bignftd.Wasm.Keeper.Laws.{CodecLaws}
use bignftd.Wasm.Keeper.Contracts.Admin.{IsStored}
use bignftd.Wasm.MsgServer.{Governance}
use bignftd.Wasm.MsgServer.Message.{
  WasmMsg, migrate, update_admin, clear_admin, IsRefused, handle_message,
}
use bignftd.Wasm.MsgServer.Ownership.{
  changed_contract, sender_of, Spares, handle_message-unauthorized,
}
use bignftd.Wasm.CosmosMsg.{
  CosmosMsg, ContractMsg, wasm, migrate_contract, clear_contract_admin, update_contract_admin,
  execute_contract, instantiate_contract, instantiate_contract2, unknown_wasm,
}
use bignftd.Wasm.Encoders.{SdkMsg, msg_wasm, encode, encode_wasm}
use bignftd.Wasm.Messenger.{
  Routing, Dispatched, all_are, routed, handle_sdk_message, dispatch_all, dispatch_sdk_msg, nothing,
}

-- The contract that a message would change
abbrev pub target_of : ContractMsg → Option Text
target_of (migrate_contract contract code_id msg) = some contract
target_of (clear_contract_admin contract) = some contract
target_of (update_contract_admin contract admin) = some contract
target_of _ = none

module _ (platform : Platform) (routing : Routing platform) where
  continue-IsRefused :
      {A B : Type 0} (c : Context platform) (r : Result KeeperError A × Context platform)
      (f : A → Action platform B)
      → IsRefused c r
      → IsRefused c (continue r f)
  continue-IsRefused c (ok a, c') f h = absurd h
  continue-IsRefused c (err e, c') f h = h
  continue-IsRefused c (panic p, c') f h = h

  -- A failing check of the message or of its signers is no less a refusal.
  handle_sdk_message-IsRefused :
      (addr : Addr) (m : SdkMsg routing.coding.Unpacked) (c : Context platform)
      → IsRefused c (routed platform routing (routing.router m) c)
      → IsRefused c (handle_sdk_message platform routing addr m c)
  unfolding handle_sdk_message
  handle_sdk_message-IsRefused addr m c h =
      checked_first (routing.check_msg m) _ (λ u. signed_first (routing.signers m))
    where
      signed_first :
          (r : Result KeeperError (List Addr))
          → IsRefused c (
              (lift r >>= λ signers.
              require (all_are platform routing addr signers) unauthorized
              >> routed platform routing (routing.router m))
                c)
      signed_first (err e) = refl
      signed_first (panic p) = refl
      signed_first (ok signers) = elim (Bool-cases (all_are platform routing addr signers)) [
        | inl e ↦ rw e h
        | inr e ↦ rw e refl
      ]

      checked_first :
          (r : Result KeeperError (Unit {0})) (f : Action platform (List Event × Text × List Text))
          → (Unit {0} → IsRefused c (f c))
          → IsRefused c ((lift r >> f) c)
      checked_first (err e) f g = refl
      checked_first (panic p) f g = refl
      checked_first (ok u) f g = g u

  dispatch_all-IsRefused :
      (addr : Addr) (m : SdkMsg routing.coding.Unpacked) (done : Dispatched) (c : Context platform)
      → IsRefused c (routed platform routing (routing.router m) c)
      → IsRefused c (dispatch_all platform routing addr (m ∷ []) done c)
  unfolding dispatch_all
  dispatch_all-IsRefused addr m done c h =
      continue-IsRefused c (handle_sdk_message platform routing addr m c) _
        (handle_sdk_message-IsRefused addr m c h)

  dispatch_sdk_msg-IsRefused :
      (addr : Addr) (port : Text) (msg : CosmosMsg) (msgs : List (SdkMsg routing.coding.Unpacked))
      (c : Context platform)
      → encode platform routing.coding routing.encoders c.world addr port msg ≡ ok msgs
      → IsRefused c (dispatch_all platform routing addr msgs (nothing platform routing) c)
      → IsRefused c (dispatch_sdk_msg platform routing addr port msg c)
  unfolding dispatch_sdk_msg
  dispatch_sdk_msg-IsRefused addr port msg msgs c e h = rw e h

  module _ (formats : Formats) (gov : Governance) (register : GasConfig)
      (handle : Addr → Text → List platform.Msg → Option Text → Action platform (Option Text))
      (respond : WasmMsg → Action platform (List Event × Text × List Text))
      (served : (m : WasmMsg)
        → routing.router (msg_wasm m)
          ≡ some (handle_message platform formats gov register handle m >> respond m))
      (encoded : routing.encoders.on_wasm ≡ encode_wasm platform routing.coding)
      (laws : CodecLaws platform) where
    sent-IsRefused :
        (addr : Addr) (w : WasmMsg) (contract : Text) (target : Addr) (info : ContractInfo)
        (seat : Option Addr) (c : Context platform)
        → sender_of w ≡ platform.texts.to_bech32 addr
        → changed_contract w ≡ some contract
        → platform.texts.from_bech32 contract ≡ some target
        → IsStored platform target info c
        → admin_addr platform.texts info ≡ ok seat
        → platform.texts.from_bech32 (platform.texts.to_bech32 addr) ≡ some addr
        → is_actor seat addr ≡ false
        → platform.texts.to_bech32 addr ≢ gov.authority
        → c.policy ≡ none
        → ((out : Result KeeperError Unit × Context platform)
            → Spares platform target w c out
            → IsRefused c out)
        → IsRefused c
            (dispatch_all platform routing addr (msg_wasm w ∷ []) (nothing platform routing) c)
    sent-IsRefused addr w contract target info seat c named e at stored seated text outsider other
          outside unchanged =
        dispatch_all-IsRefused addr (msg_wasm w) _ c (
          rw (served w) (
            continue-IsRefused c (handle_message platform formats gov register handle w c) _ (
              unchanged _ (
                handle_message-unauthorized platform formats gov register handle laws w contract
                  target info seat c e at stored seated
                  (λ actor known. let same : addr ≡ actor = cc in rw (← same) outsider)
                  (rw named other) outside))))

    -- Where the messages of the module are routed to its message server and encoded by default, a
    -- message of a contract to migrate a stored contract, or to change or clear its admin, outside a
    -- submessage of governance, from a contract that is neither its admin nor the module's
    -- authority, succeeds for nobody and changes nothing.
    pub dispatch_sdk_msg-unauthorized :
        (addr : Addr) (port : Text) (m : ContractMsg) (contract : Text) (target : Addr)
        (info : ContractInfo) (seat : Option Addr) (c : Context platform)
        → target_of m ≡ some contract
        → platform.texts.from_bech32 contract ≡ some target
        → IsStored platform target info c
        → admin_addr platform.texts info ≡ ok seat
        → platform.texts.from_bech32 (platform.texts.to_bech32 addr) ≡ some addr
        → is_actor seat addr ≡ false
        → platform.texts.to_bech32 addr ≢ gov.authority
        → c.policy ≡ none
        → IsRefused c (dispatch_sdk_msg platform routing addr port (wasm m) c)
    unfolding encode encode_wasm
    dispatch_sdk_msg-unauthorized addr port (migrate_contract t code_id msg) contract target info
          seat c e at stored seated text outsider other outside =
        dispatch_sdk_msg-IsRefused addr port (wasm (migrate_contract t code_id msg)) _ c
          (ap (λ f. f addr (migrate_contract t code_id msg)) encoded)
          (sent-IsRefused addr (migrate _) contract target info seat c refl e at stored seated text
            outsider other outside (λ out h. h))
    dispatch_sdk_msg-unauthorized addr port (clear_contract_admin t) contract target info seat c e
          at stored seated text outsider other outside =
        dispatch_sdk_msg-IsRefused addr port (wasm (clear_contract_admin t)) _ c
          (ap (λ f. f addr (clear_contract_admin t)) encoded)
          (sent-IsRefused addr (clear_admin _) contract target info seat c refl e at stored seated
            text outsider other outside (λ out h. h))
    dispatch_sdk_msg-unauthorized addr port (update_contract_admin t admin) contract target info
          seat c e at stored seated text outsider other outside =
        dispatch_sdk_msg-IsRefused addr port (wasm (update_contract_admin t admin)) _ c
          (ap (λ f. f addr (update_contract_admin t admin)) encoded)
          (sent-IsRefused addr (update_admin _) contract target info seat c refl e at stored seated
            text outsider other outside (λ out h. h))
    dispatch_sdk_msg-unauthorized addr port (execute_contract t msg funds) contract target info seat
          c e at stored seated text outsider other outside =
        cc
    dispatch_sdk_msg-unauthorized addr port (instantiate_contract n admin label msg funds) contract
          target info seat c e at stored seated text outsider other outside =
        cc
    dispatch_sdk_msg-unauthorized addr port (instantiate_contract2 n admin label msg funds salt)
          contract target info seat c e at stored seated text outsider other outside =
        cc
    dispatch_sdk_msg-unauthorized addr port unknown_wasm contract target info seat c e at stored
          seated text outsider other outside =
        cc
