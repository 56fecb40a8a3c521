-- ===== src/TokenFactory/Genesis.antt =====
-- Parameters and genesis: x/tokenfactory/types/params.go and genesis.go, and
-- x/tokenfactory/keeper/params.go and genesis.go.
pub mod Validate
pub mod Import
use bignftd.Base.{
  ℕ, Text, Bool, true, false, not, Option, none, some, List, [], ◌∷◌, ◌++◌, text_eq, if◌then◌else◌,
}
use bignftd.Chain.Outcome.{
  Result, Panic, fatal, ok, err, panic, Exec, ◌>>=◌, ◌>>◌, pure, gets, lift,
}
use bignftd.Chain.Checks
use bignftd.Chain.Sdk.{
  Sdk, Reply, Coins, invalid_params, invalid_genesis, invalid_authority_metadata,
}
use bignftd.TokenFactory.Denoms.{deconstruct_denom}
use bignftd.TokenFactory.State.{State, Params, Action}
use bignftd.TokenFactory.Keeper.{get_authority_metadata, set_authority_metadata, get_all_denoms}
use bignftd.TokenFactory.CreateDenom.{create_denom_after_validation}

pub record GenesisDenom : Type 0 where
  pub denom : Text
  pub admin : Text

pub record GenesisState : Type 0 where
  pub params : Params
  pub factory_denoms : List GenesisDenom

-- `seenDenoms[denom]`
unfoldable pub has_seen : Text → List Text → Bool
has_seen denom [] = false
has_seen denom (d ∷ seen) = if text_eq d denom then true else has_seen denom seen

-- A nil list of coins is an empty one.
abbrev pub coins_of : Option Coins → Coins
coins_of none = []
coins_of (some fee) = fee

-- `panic(err)` on an error.
abbrev pub or_panic : {E S A : Type 0} → Exec E S A → Exec E S A
or_panic m s =
    let (r, s') = m s in
    elim r [ ok a ↦ (ok a, s') | err e ↦ (panic fatal, s') | panic p ↦ (panic p, s') ]

module _ (sdk : Sdk) where
  -- `validateDenomCreationFee`
  unfoldable pub validate_denom_creation_fee : Option Coins → Reply Unit
  validate_denom_creation_fee fee =
      Checks.require (sdk.is_valid_coins (coins_of fee)) invalid_params

  -- `Params.Validate`
  unfoldable pub validate_params : Params → Reply Unit
  unfolding validate_denom_creation_fee
  validate_params p = validate_denom_creation_fee p.denom_creation_fee

  -- `SetParams`: the parameter space runs the checks of `ParamSetPairs` and panics if one fails.
  unfoldable pub set_params : Params → Action sdk Unit
  unfolding validate_denom_creation_fee
  set_params p = or_panic (
      lift (validate_denom_creation_fee p.denom_creation_fee) >> λ s.
      (ok tt, record s { params = p }))
