-- ===== src/TokenFactory/Handle.antt =====
-- All messages of the token factory in one type, and the handler of each
-- (x/tokenfactory/keeper/msg_server.go); the proofs are in the modules below.
pub mod Refusal
pub mod Effect
pub mod Creation
pub mod Handover
pub mod Described
pub mod Renounced
pub mod Create
use bignftd.Base.{Text, List}
use bignftd.Chain.Outcome.{Result, ok, err, panic, ◌>>=◌, ◌>>◌, pure}
use bignftd.Chain.Sdk.{Sdk, Reply, Error}
use bignftd.TokenFactory.State.{State, Action}
use bignftd.TokenFactory.Messages.{
  MsgCreateDenom, MsgMint, MsgBurn, MsgForceTransfer, MsgChangeAdmin, MsgSetDenomMetadata,
  validate_create_denom_msg, validate_mint_msg, validate_burn_msg, validate_force_transfer_msg,
  validate_change_admin_msg, validate_set_denom_metadata_msg,
}
use bignftd.TokenFactory.MsgServer.{
  handle_create_denom, handle_mint, handle_burn, handle_force_transfer, handle_change_admin,
  handle_set_denom_metadata,
}

pub data Message : Type 0 where
  create_denom : MsgCreateDenom → Message
  mint : MsgMint → Message
  burn : MsgBurn → Message
  force_transfer : MsgForceTransfer → Message
  change_admin : MsgChangeAdmin → Message
  set_denom_metadata : MsgSetDenomMetadata → Message

abbrev pub sender_of : Message → Text
sender_of (create_denom m) = m.sender
sender_of (mint m) = m.sender
sender_of (burn m) = m.sender
sender_of (force_transfer m) = m.sender
sender_of (change_admin m) = m.sender
sender_of (set_denom_metadata m) = m.sender

module _ (sdk : Sdk) (capabilities : List Text) where
  -- `ValidateBasic`
  unfoldable pub validate : Message → Reply Unit
  validate (create_denom m) = validate_create_denom_msg sdk m
  validate (mint m) = validate_mint_msg sdk m
  validate (burn m) = validate_burn_msg sdk m
  validate (force_transfer m) = validate_force_transfer_msg sdk m
  validate (change_admin m) = validate_change_admin_msg sdk m
  validate (set_denom_metadata m) = validate_set_denom_metadata_msg sdk m

  -- The handler that the message is routed to, its response dropped.
  unfoldable pub handle : Message → Action sdk Unit
  handle (create_denom m) = do _ ← handle_create_denom sdk capabilities m; pure tt
  handle (mint m) = handle_mint sdk capabilities m
  handle (burn m) = handle_burn sdk capabilities m
  handle (force_transfer m) = handle_force_transfer sdk capabilities m
  handle (change_admin m) = handle_change_admin sdk capabilities m
  handle (set_denom_metadata m) = handle_set_denom_metadata sdk capabilities m
