-- ===== src/TokenFactory/MsgServer.antt =====
-- x/tokenfactory/keeper/msg_server.go: the handlers of the messages.
use bignftd.Base.{Text, codes, Option, none, some, List, [], ◌∷◌, text_eq}
use bignftd.Chain.Outcome.{◌>>=◌, ◌>>◌, pure, raise, gets, require, modify}
use bignftd.Chain.Sdk.{
  Sdk, Metadata, unauthorized, denom_does_not_exist, capability_not_enabled, invalid_metadata,
}
use bignftd.TokenFactory.State.{
  Action, emit, is_capability_enabled, enable_set_metadata, enable_force_transfer, enable_burn_from,
}
use bignftd.TokenFactory.Keeper.{
  get_authority_metadata, set_admin, mint_to, burn_from, force_transfer,
}
use bignftd.TokenFactory.CreateDenom.{create_denom}
use bignftd.TokenFactory.Messages.{
  MsgCreateDenom, MsgMint, MsgBurn, MsgForceTransfer, MsgChangeAdmin, MsgSetDenomMetadata,
}

-- An empty recipient stands for the sender.
abbrev pub or_sender : Text → Text → Text
or_sender sender [] = sender
or_sender sender (c ∷ t) = c ∷ t

module _ (sdk : Sdk) (capabilities : List Text) where
  -- The sender must be the admin of the denom, as every handler but the first requires.
  unfoldable pub require_admin : Text → Text → Action sdk Unit
  require_admin sender denom = do
    admin ← get_authority_metadata sdk denom
    require (text_eq sender admin) unauthorized

  -- `msgServer.CreateDenom`; the response is the new denom.
  unfoldable pub handle_create_denom : MsgCreateDenom → Action sdk Text
  handle_create_denom m = do
    denom ← create_denom sdk m.sender m.subdenom
    emit sdk (record {
      kind = codes "create_denom";
      attributes = (codes "creator", m.sender) ∷ (codes "new_token_denom", denom) ∷ [];
    })
    pure denom

  abbrev pub require_metadata : Option Metadata → Action sdk Unit
  require_metadata none = raise denom_does_not_exist
  require_metadata (some _) = pure tt

  -- `msgServer.Mint`
  unfoldable pub handle_mint : MsgMint → Action sdk Unit
  handle_mint m = do
    found ← gets (λ s. sdk.get_denom_metadata m.amount.denom s.world)
    require_metadata found
    require_admin m.sender m.amount.denom
    mint_to sdk m.amount (or_sender m.sender m.mint_to_address)
    emit sdk (record {
      kind = codes "tf_mint";
      attributes =
          (codes "mint_to_address", m.sender) ∷ (codes "amount", sdk.show_coin m.amount) ∷ [];
    })

  -- Burning from another account than the sender's wants a capability.
  abbrev pub require_burn_from : Text → Action sdk Unit
  require_burn_from [] = pure tt
  require_burn_from (c ∷ t) =
      require (is_capability_enabled capabilities enable_burn_from) capability_not_enabled

  -- `msgServer.Burn`
  unfoldable pub handle_burn : MsgBurn → Action sdk Unit
  handle_burn m = do
    require_admin m.sender m.amount.denom
    require_burn_from m.burn_from_address
    burn_from sdk m.amount (or_sender m.sender m.burn_from_address)
    emit sdk (record {
      kind = codes "tf_burn";
      attributes =
          (codes "burn_from_address", m.sender) ∷ (codes "amount", sdk.show_coin m.amount) ∷ [];
    })

  -- `msgServer.ForceTransfer`
  unfoldable pub handle_force_transfer : MsgForceTransfer → Action sdk Unit
  handle_force_transfer m = do
    require (is_capability_enabled capabilities enable_force_transfer) capability_not_enabled
    require_admin m.sender m.amount.denom
    force_transfer sdk m.amount m.transfer_from_address m.transfer_to_address
    emit sdk (record {
      kind = codes "force_transfer";
      attributes =
          (codes "transfer_from_address", m.transfer_from_address)
          ∷ (codes "transfer_to_address", m.transfer_to_address)
          ∷ (codes "amount", sdk.show_coin m.amount)
          ∷ [];
    })

  -- `msgServer.ChangeAdmin`
  unfoldable pub handle_change_admin : MsgChangeAdmin → Action sdk Unit
  handle_change_admin m = do
    require_admin m.sender m.denom
    set_admin sdk m.denom m.new_admin
    emit sdk (record {
      kind = codes "change_admin";
      attributes = (codes "denom", m.denom) ∷ (codes "new_admin", m.new_admin) ∷ [];
    })

  -- `msgServer.SetDenomMetadata`
  unfoldable pub handle_set_denom_metadata : MsgSetDenomMetadata → Action sdk Unit
  handle_set_denom_metadata m = do
    require (is_capability_enabled capabilities enable_set_metadata) capability_not_enabled
    require (sdk.is_valid_metadata m.metadata) invalid_metadata
    require_admin m.sender m.metadata.base
    modify (λ s. record s { world = sdk.set_denom_metadata m.metadata s.world })
    emit sdk (record {
      kind = codes "set_denom_metadata";
      attributes =
          (codes "denom", m.metadata.base)
          ∷ (codes "denom_metadata", sdk.show_metadata m.metadata)
          ∷ [];
    })
