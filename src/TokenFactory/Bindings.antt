-- ===== src/TokenFactory/Bindings.antt =====
-- x/tokenfactory/bindings/message_plugin.go: the messages that a contract sends.
pub mod Dispatch
pub mod Authority
pub mod Shortcuts
use bignftd.Base.{
  ℕ, Text, Bool, true, false, not, Option, none, some, List, [], ◌∷◌, map, text_eq, if◌then◌else◌,
}
use bignftd.Chain.Outcome.{◌>>=◌, ◌>>◌, pure, raise, gets, lift, or_raise, require, modify}
use bignftd.Chain.Sdk.{
  Sdk, Reply, Addr, ℤ, Coin, DenomUnit, Metadata, malformed, invalid_request, invalid_metadata,
  unknown_request,
}
use bignftd.TokenFactory.Denoms.{get_token_denom}
use bignftd.TokenFactory.State.{State, Action, Event, call}
use bignftd.TokenFactory.Keeper.{get_authority_metadata}
use bignftd.TokenFactory.Messages.{
  MsgCreateDenom, MsgMint, MsgBurn, MsgForceTransfer, MsgChangeAdmin, validate_create_denom_msg,
  validate_mint_msg, validate_burn_msg, validate_force_transfer_msg, validate_change_admin_msg,
}
use bignftd.TokenFactory.MsgServer.{
  handle_create_denom, handle_mint, handle_burn, handle_force_transfer, handle_change_admin,
}

-- The `Metadata` of x/tokenfactory/bindings/types/types.go.
pub record WasmMetadata : Type 0 where
  pub description : Text
  pub denom_units : List DenomUnit
  pub base : Text
  pub display : Text
  pub name : Text
  pub symbol : Text

-- x/tokenfactory/bindings/types/msg.go; a nil pointer is `none`.
pub record CreateDenom : Type 0 where
  pub subdenom : Text
  pub metadata : Option WasmMetadata

pub record ChangeAdmin : Type 0 where
  pub denom : Text
  pub new_admin_address : Text

pub record MintTokens : Type 0 where
  pub denom : Text
  pub amount : ℤ
  pub mint_to_address : Text

pub record BurnTokens : Type 0 where
  pub denom : Text
  pub amount : ℤ
  pub burn_from_address : Text

pub record SetMetadata : Type 0 where
  pub denom : Text
  pub metadata : WasmMetadata

pub record ForceTransfer : Type 0 where
  pub denom : Text
  pub amount : ℤ
  pub from_address : Text
  pub to_address : Text

pub record TokenMsg : Type 0 where
  pub create_denom : Option CreateDenom
  pub change_admin : Option ChangeAdmin
  pub mint_tokens : Option MintTokens
  pub burn_tokens : Option BurnTokens
  pub set_metadata : Option SetMetadata
  pub force_transfer : Option ForceTransfer

-- `WasmMetadataToSdk`
unfoldable pub wasm_metadata_to_sdk : WasmMetadata → Metadata
wasm_metadata_to_sdk m = record {
  description = m.description;
  denom_units = m.denom_units;
  base = m.base;
  display = m.display;
  name = m.name;
  symbol = m.symbol;
  uri = [];
  uri_hash = [];
}

-- `SdkMetadataToWasm`
unfoldable pub sdk_metadata_to_wasm : Metadata → WasmMetadata
sdk_metadata_to_wasm m = record {
  description = m.description;
  denom_units = m.denom_units;
  base = m.base;
  display = m.display;
  name = m.name;
  symbol = m.symbol;
}

module _ (sdk : Sdk) (capabilities : List Text) where
  -- `parseAddress`
  unfoldable pub parse_address : Text → Action sdk Addr
  parse_address t = do
    addr ← or_raise (sdk.from_bech32 t) malformed
    require (sdk.is_valid_address addr) malformed
    pure addr

  -- `GetFullDenom`
  unfoldable pub get_full_denom : Text → Text → Action sdk Text
  get_full_denom contract subdenom = do
    _ ← parse_address contract
    lift (get_token_denom sdk contract subdenom)

  -- The base of the metadata: a missing one is the denom, another one is refused.
  abbrev pub fill_base : Text → WasmMetadata → Action sdk WasmMetadata
  fill_base denom m =
      if text_eq m.base []
      then pure (record m { base = denom })
      else if text_eq m.base denom
      then pure m
      else raise invalid_request

  -- `PerformSetMetadata`
  unfoldable pub perform_set_metadata : Addr → Text → WasmMetadata → Action sdk Unit
  unfolding wasm_metadata_to_sdk
  perform_set_metadata contract denom metadata = do
    admin ← get_authority_metadata sdk denom
    require (text_eq admin (sdk.to_bech32 contract)) invalid_request
    filled ← fill_base denom metadata
    require (sdk.is_valid_metadata (wasm_metadata_to_sdk filled)) invalid_metadata
    modify (λ s. record s { world = sdk.set_denom_metadata (wasm_metadata_to_sdk filled) s.world })

  abbrev pub set_initial_metadata : Addr → Text → Option WasmMetadata → Action sdk Unit
  set_initial_metadata contract denom none = pure tt
  set_initial_metadata contract denom (some metadata) = perform_set_metadata contract denom metadata

  -- `PerformCreateDenom`, up to the encoding of the response, which is the new denom.
  unfoldable pub perform_create_denom : Addr → Option CreateDenom → Action sdk Text
  perform_create_denom contract none = raise invalid_request
  perform_create_denom contract (some c) = do
    let msg : MsgCreateDenom = record { sender = sdk.to_bech32 contract; subdenom = c.subdenom }
    lift (validate_create_denom_msg sdk msg)
    denom ← handle_create_denom sdk capabilities msg
    set_initial_metadata contract denom c.metadata
    pure denom

  -- The transfer of minted coins. For a blocked recipient the source wraps a nil error, which
  -- gives nil: the call ends with no error.
  abbrev pub send_minted : Addr → Addr → Coin → Action sdk Unit
  send_minted contract recipient coin = if sdk.is_blocked recipient then pure tt else (do
    coins ← lift (sdk.new_coins coin)
    call sdk (sdk.send_coins contract recipient coins))

  -- `PerformMint`
  unfoldable pub perform_mint : Addr → Option MintTokens → Action sdk Unit
  perform_mint contract none = raise invalid_request
  perform_mint contract (some m) = do
    recipient ← parse_address m.mint_to_address
    let coin : Coin = record { denom = m.denom; amount = m.amount }
    let msg : MsgMint = record {
      sender = sdk.to_bech32 contract;
      amount = coin;
      mint_to_address = [];
    }
    lift (validate_mint_msg sdk msg)
    handle_mint sdk capabilities msg
    send_minted contract recipient coin

  -- `ChangeAdmin`
  unfoldable pub perform_change_admin : Addr → Option ChangeAdmin → Action sdk Unit
  perform_change_admin contract none = raise invalid_request
  perform_change_admin contract (some c) = do
    new_admin ← parse_address c.new_admin_address
    let msg : MsgChangeAdmin = record {
      sender = sdk.to_bech32 contract;
      denom = c.denom;
      new_admin = sdk.to_bech32 new_admin;
    }
    lift (validate_change_admin_msg sdk msg)
    handle_change_admin sdk capabilities msg

  -- `PerformBurn`; a message with no address to burn from has the empty one.
  unfoldable pub perform_burn : Addr → Option BurnTokens → Action sdk Unit
  perform_burn contract none = raise invalid_request
  perform_burn contract (some b) = do
    let msg : MsgBurn = record {
      sender = sdk.to_bech32 contract;
      amount = record { denom = b.denom; amount = b.amount };
      burn_from_address = b.burn_from_address;
    }
    lift (validate_burn_msg sdk msg)
    handle_burn sdk capabilities msg

  -- `PerformForceTransfer`
  unfoldable pub perform_force_transfer : Addr → Option ForceTransfer → Action sdk Unit
  perform_force_transfer contract none = raise invalid_request
  perform_force_transfer contract (some f) = do
    _ ← parse_address f.from_address
    _ ← parse_address f.to_address
    let msg : MsgForceTransfer = record {
      sender = sdk.to_bech32 contract;
      amount = record { denom = f.denom; amount = f.amount };
      transfer_from_address = f.from_address;
      transfer_to_address = f.to_address;
    }
    lift (validate_force_transfer_msg sdk msg)
    handle_force_transfer sdk capabilities msg
