-- ===== src/TokenFactory/Messages.antt =====
-- x/tokenfactory/types/msgs.go: the messages, and the checks that need no state.
use bignftd.Base.{Text, not, ◌||◌, [], ◌∷◌}
use bignftd.Chain.Outcome.{ok}
use bignftd.Chain.Checks.{◌>>=◌, ◌>>◌, require, or_raise, wrap}
use bignftd.Chain.Sdk.{
  Sdk, Reply, Coin, is_zero, Metadata, invalid_address, invalid_coins, invalid_denom,
  invalid_metadata,
}
use bignftd.TokenFactory.Denoms.{get_token_denom, deconstruct_denom}

pub record MsgCreateDenom : Type 0 where
  pub sender : Text
  pub subdenom : Text

pub record MsgMint : Type 0 where
  pub sender : Text
  pub amount : Coin
  pub mint_to_address : Text

pub record MsgBurn : Type 0 where
  pub sender : Text
  pub amount : Coin
  pub burn_from_address : Text

pub record MsgForceTransfer : Type 0 where
  pub sender : Text
  pub amount : Coin
  pub transfer_from_address : Text
  pub transfer_to_address : Text

pub record MsgChangeAdmin : Type 0 where
  pub sender : Text
  pub denom : Text
  pub new_admin : Text

pub record MsgSetDenomMetadata : Type 0 where
  pub sender : Text
  pub metadata : Metadata

module _ (sdk : Sdk) where
  -- `sdk.AccAddressFromBech32`, its error wrapped as an invalid address.
  abbrev pub check_address : Text → Reply Unit
  check_address t = or_raise (sdk.from_bech32 t) invalid_address >>= λ _. ok tt

  -- The same, where no text stands for a default.
  abbrev pub check_optional_address : Text → Reply Unit
  check_optional_address [] = ok tt
  check_optional_address (c ∷ t) = check_address (c ∷ t)

  -- `MsgCreateDenom.ValidateBasic`
  unfoldable pub validate_create_denom_msg : MsgCreateDenom → Reply Unit
  validate_create_denom_msg m = do
    check_address m.sender
    _ ← wrap invalid_denom (get_token_denom sdk m.sender m.subdenom)
    ok tt

  -- `MsgMint.ValidateBasic`
  unfoldable pub validate_mint_msg : MsgMint → Reply Unit
  validate_mint_msg m = do
    check_address m.sender
    check_optional_address m.mint_to_address
    require (not (not (sdk.is_valid_coin m.amount) || is_zero m.amount.amount)) invalid_coins

  -- `MsgBurn.ValidateBasic`
  unfoldable pub validate_burn_msg : MsgBurn → Reply Unit
  validate_burn_msg m = do
    check_address m.sender
    require (not (not (sdk.is_valid_coin m.amount) || is_zero m.amount.amount)) invalid_coins
    check_optional_address m.burn_from_address

  -- `MsgForceTransfer.ValidateBasic`
  unfoldable pub validate_force_transfer_msg : MsgForceTransfer → Reply Unit
  validate_force_transfer_msg m = do
    check_address m.sender
    check_address m.transfer_from_address
    check_address m.transfer_to_address
    require (sdk.is_valid_coin m.amount) invalid_coins

  -- `MsgChangeAdmin.ValidateBasic`
  unfoldable pub validate_change_admin_msg : MsgChangeAdmin → Reply Unit
  validate_change_admin_msg m = do
    check_address m.sender
    check_address m.new_admin
    _ ← deconstruct_denom sdk m.denom
    ok tt

  -- `MsgSetDenomMetadata.ValidateBasic`
  unfoldable pub validate_set_denom_metadata_msg : MsgSetDenomMetadata → Reply Unit
  validate_set_denom_metadata_msg m = do
    check_address m.sender
    require (sdk.is_valid_metadata m.metadata) invalid_metadata
    _ ← deconstruct_denom sdk m.metadata.base
    ok tt
