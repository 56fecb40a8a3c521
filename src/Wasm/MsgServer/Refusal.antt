-- ===== src/Wasm/MsgServer/Refusal.antt =====
-- Who may send what: messages that are refused, and change nothing.
use bignftd.Base.{Text, ◌≡◌, ◌≢◌, refl, Option, none, some, List, text_eq_ne}
use bignftd.Chain.Outcome.{Result, ok, err, panic, ◌>>◌, pure, continue}
use bignftd.Chain.Sdk.{Addr}
use bignftd.Wasm.Gas.{GasConfig}
use bignftd.Wasm.Access.Validation.{AccessError}
use bignftd.Wasm.Messages.{Formats}
use bignftd.Wasm.Keeper.Platform.{Platform, Context, Action, KeeperError}
use bignftd.Wasm.MsgServer.{
  Governance, checked, require_authority, handle_update_params, handle_pin_codes,
  handle_unpin_codes, handle_sudo, handle_add_upload_addresses, handle_remove_upload_addresses,
  handle_set_gasless,
}
use bignftd.Wasm.MsgServer.Message.{
  WasmMsg, update_params, pin_codes, unpin_codes, sudo, add_upload_addresses,
  remove_upload_addresses, set_gasless, store_code, instantiate, instantiate2, execute, migrate,
  update_admin, clear_admin, update_instantiate_config, store_and_instantiate, store_and_migrate,
  update_label, IsRefused, handle_message,
}

-- Who signs a message that only the authority may send
abbrev pub signer_of_guarded : WasmMsg → Option Text
signer_of_guarded (update_params m) = some m.authority
signer_of_guarded (pin_codes m) = some m.authority
signer_of_guarded (unpin_codes m) = some m.authority
signer_of_guarded (sudo m) = some m.authority
signer_of_guarded (add_upload_addresses m) = some m.authority
signer_of_guarded (remove_upload_addresses m) = some m.authority
signer_of_guarded (set_gasless m) = some m.authority
signer_of_guarded _ = none

module _ (platform : Platform) (formats : Formats) (gov : Governance) where
  not_authority :
      (t signer : Text) → some t ≡ some signer → gov.authority ≢ signer → gov.authority ≢ t
  not_authority t signer e other = let e' : t ≡ signer = cc in rw e' other

  -- A check that ends in an error or a panic is no less a refusal.
  pub check_authority-IsRefused :
      {A : Type 0} (check : Result AccessError Unit) (signer : Text) (k : Action platform A)
      (c : Context platform)
      → gov.authority ≢ signer
      → IsRefused c (
          (checked platform formats gov check
              >> (require_authority platform formats gov signer >> k))
            c)
  check_authority-IsRefused (err e) signer k c other = refl
  check_authority-IsRefused (panic p) signer k c other = refl
  check_authority-IsRefused (ok u) signer k c other =
      rw (text_eq_ne gov.authority signer other) refl

  module _ (register : GasConfig)
      (handle : Addr → Text → List platform.Msg → Option Text → Action platform (Option Text)) where
    pub dropped-IsRefused :
        {A : Type 0} (c : Context platform) (r : Result KeeperError A × Context platform)
        → IsRefused c r
        → IsRefused c (continue r (λ a. pure tt))
    dropped-IsRefused c (ok a, c') h = h
    dropped-IsRefused c (err e, c') h = h
    dropped-IsRefused c (panic p, c') h = h

    -- A message that sets the parameters, pins or unpins codes, calls `Sudo`, changes who may upload or
    -- makes contracts gasless, signed by anyone but the module's authority, succeeds for nobody and
    -- changes nothing: no write, no gas and no event.
    pub handle_message-IsRefused :
        (msg : WasmMsg) (signer : Text) (c : Context platform)
        → signer_of_guarded msg ≡ some signer
        → gov.authority ≢ signer
        → IsRefused c (handle_message platform formats gov register handle msg c)
    unfolding handle_message handle_update_params handle_pin_codes handle_unpin_codes handle_sudo
        handle_add_upload_addresses handle_remove_upload_addresses handle_set_gasless
    handle_message-IsRefused (update_params m) signer c e other =
        check_authority-IsRefused _ m.authority _ c (not_authority m.authority signer e other)
    handle_message-IsRefused (pin_codes m) signer c e other =
        check_authority-IsRefused _ m.authority _ c (not_authority m.authority signer e other)
    handle_message-IsRefused (unpin_codes m) signer c e other =
        check_authority-IsRefused _ m.authority _ c (not_authority m.authority signer e other)
    handle_message-IsRefused (add_upload_addresses m) signer c e other =
        check_authority-IsRefused _ m.authority _ c (not_authority m.authority signer e other)
    handle_message-IsRefused (remove_upload_addresses m) signer c e other =
        check_authority-IsRefused _ m.authority _ c (not_authority m.authority signer e other)
    handle_message-IsRefused (sudo m) signer c e other =
        dropped-IsRefused c _
          (check_authority-IsRefused _ m.authority _ c (not_authority m.authority signer e other))
    handle_message-IsRefused (set_gasless m) signer c e other =
        rw (text_eq_ne gov.authority m.authority (not_authority m.authority signer e other)) refl
    handle_message-IsRefused (store_code m) signer c e other = cc
    handle_message-IsRefused (instantiate m) signer c e other = cc
    handle_message-IsRefused (instantiate2 m) signer c e other = cc
    handle_message-IsRefused (execute m) signer c e other = cc
    handle_message-IsRefused (migrate m) signer c e other = cc
    handle_message-IsRefused (update_admin m) signer c e other = cc
    handle_message-IsRefused (clear_admin m) signer c e other = cc
    handle_message-IsRefused (update_instantiate_config m) signer c e other = cc
    handle_message-IsRefused (store_and_instantiate m) signer c e other = cc
    handle_message-IsRefused (store_and_migrate m) signer c e other = cc
    handle_message-IsRefused (update_label m) signer c e other = cc
