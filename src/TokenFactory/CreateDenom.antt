-- ===== src/TokenFactory/CreateDenom.antt =====
-- x/tokenfactory/keeper/createdenom.go: a new denom is validated, paid for and written.
use bignftd.Base.{Text, not, Option, none, some, [], ◌∷◌, ◌==◌}
use bignftd.Chain.Outcome.{◌>>=◌, ◌>>◌, pure, raise, lift, gets, or_raise, modify, require, when}
use bignftd.Chain.Sdk.{Sdk, Coins, Metadata, malformed, native_subdenom, denom_exists}
use bignftd.TokenFactory.Denoms.{get_token_denom}
use bignftd.TokenFactory.State.{Action, call}
use bignftd.TokenFactory.Keeper.{set_authority_metadata, add_denom_from_creator}

-- The metadata of a new denom: itself, with exponent 0.
abbrev pub plain_metadata : Text → Metadata
plain_metadata denom = record {
  description = [];
  denom_units = record { denom = denom; exponent = 0; aliases = [] } ∷ [];
  base = denom;
  display = [];
  name = [];
  symbol = [];
  uri = [];
  uri_hash = [];
}

module _ (sdk : Sdk) where
  abbrev pub refuse_existing : Option Metadata → Text → Action sdk Text
  refuse_existing none denom = pure denom
  refuse_existing (some _) denom = raise denom_exists

  -- `validateCreateDenom`
  unfoldable pub validate_create_denom : Text → Text → Action sdk Text
  validate_create_denom creator subdenom = do
    native ← gets (λ s. sdk.has_supply subdenom s.world)
    require (not native) native_subdenom
    denom ← lift (get_token_denom sdk creator subdenom)
    found ← gets (λ s. sdk.get_denom_metadata denom s.world)
    refuse_existing found denom

  -- The creation fee, if it is not nil, goes to the community pool.
  abbrev pub charge_fee : Option Coins → Text → Action sdk Unit
  charge_fee none creator = pure tt
  charge_fee (some fee) creator = do
    addr ← or_raise (sdk.from_bech32 creator) malformed
    call sdk (sdk.fund_community_pool fee addr)

  -- `chargeForCreateDenom`
  unfoldable pub charge_for_create_denom : Text → Action sdk Unit
  charge_for_create_denom creator = do
    params ← gets (λ s. s.params)
    charge_fee params.denom_creation_fee creator
    when (not (params.denom_creation_gas_consume == 0))
        (call sdk (sdk.consume_gas params.denom_creation_gas_consume))

  -- `createDenomAfterValidation`
  unfoldable pub create_denom_after_validation : Text → Text → Action sdk Unit
  create_denom_after_validation creator denom = do
    modify (λ s. record s { world = sdk.set_denom_metadata (plain_metadata denom) s.world })
    set_authority_metadata sdk denom creator
    add_denom_from_creator sdk creator denom

  -- `CreateDenom` of the keeper
  unfoldable pub create_denom : Text → Text → Action sdk Text
  create_denom creator subdenom = do
    denom ← validate_create_denom creator subdenom
    charge_for_create_denom creator
    create_denom_after_validation creator denom
    pure denom
