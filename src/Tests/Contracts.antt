-- ===== src/Tests/Contracts.antt =====
-- The theorems on the messages of contracts at work.
use bignftd.Base.{Text, codes, refl, none, some, [], ◌∷◌, inr}
use bignftd.Chain.Outcome.{ok}
use bignftd.Chain.Sdk.{pos}
use bignftd.TokenFactory.State.{enable_force_transfer}
use bignftd.TokenFactory.MsgServer.{handle_set_denom_metadata}
use bignftd.TokenFactory.Bindings.{
  TokenMsg, MintTokens, WasmMetadata, perform_set_metadata, wasm_metadata_to_sdk,
}
use bignftd.TokenFactory.Bindings.Dispatch.{dispatch_token, no_data}
use bignftd.TokenFactory.Bindings.Authority.{Fails, dispatch_token-Fails}
use bignftd.TokenFactory.Bindings.Shortcuts.{AgreesWith, perform_set_metadata-AgreesWith}
use bignftd.Tests.Toy.{toy, alice, mallory, gold, with_admin, with_admin-admin}
use bignftd.Tests.Factory.{alice-ne-mallory}

abbrev to_module : MintTokens
to_module = record { denom = gold; amount = pos 5; mint_to_address = codes "module" }

abbrev token_mint : TokenMsg
token_mint = record {
  create_denom = none;
  mint_tokens = some to_module;
  change_admin = none;
  burn_tokens = none;
  set_metadata = none;
  force_transfer = none;
}

dispatch_token-Fails_example : Fails toy (with_admin alice) (
    dispatch_token toy []
      (λ (m : Text). some m)
      (λ t. none)
      (λ t. ok t)
      (λ a p m. λ s. (ok no_data, s))
      mallory
      token_mint
      (λ s. (ok no_data, s))
      (with_admin alice))
dispatch_token-Fails_example =
    dispatch_token-Fails toy [] mallory (with_admin alice) gold alice (with_admin-admin alice)
      alice-ne-mallory (λ (m : Text). some m) (λ t. none) (λ t. ok t)
      (λ a p m. λ s. (ok no_data, s)) token_mint (λ s. (ok no_data, s)) refl

abbrev described : WasmMetadata
described = record {
  description = codes "gold coins";
  denom_units = [];
  base = gold;
  display = [];
  name = [];
  symbol = [];
}

perform_set_metadata-AgreesWith_example :
    AgreesWith toy
      (with_admin alice)
      (perform_set_metadata toy
        (enable_force_transfer ∷ [])
        alice
        gold
        described
        (with_admin alice))
      (handle_set_denom_metadata toy []
        (record { sender = alice; metadata = wasm_metadata_to_sdk described })
        (with_admin alice))
perform_set_metadata-AgreesWith_example =
    perform_set_metadata-AgreesWith toy (enable_force_transfer ∷ []) alice gold described
      (with_admin alice) (inr refl)
