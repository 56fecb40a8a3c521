-- ===== src/TokenFactory/Genesis/Validate.antt =====
-- `GenesisState.Validate` (x/tokenfactory/types/genesis.go).
use bignftd.Base.{Text, not, List, [], ◌∷◌}
use bignftd.Chain.Outcome.{ok}
use bignftd.Chain.Checks.{◌>>=◌, ◌>>◌, require, or_raise}
use bignftd.Chain.Sdk.{Sdk, Reply, invalid_genesis, invalid_authority_metadata}
use bignftd.TokenFactory.Denoms.{deconstruct_denom}
use bignftd.TokenFactory.Genesis.{GenesisDenom, GenesisState, has_seen, validate_params}

module _ (sdk : Sdk) where
  abbrev pub validate_genesis_admin : Text → Reply Unit
  validate_genesis_admin [] = ok tt
  validate_genesis_admin (c ∷ admin) = do
    _ ← or_raise (sdk.from_bech32 (c ∷ admin)) invalid_authority_metadata
    ok tt

  -- The loop over the denoms, with those that it has seen.
  unfoldable pub validate_denoms : List Text → List GenesisDenom → Reply Unit
  validate_denoms seen [] = ok tt
  validate_denoms seen (d ∷ denoms) = do
    require (not (has_seen d.denom seen)) invalid_genesis
    _ ← deconstruct_denom sdk d.denom
    validate_genesis_admin d.admin
    validate_denoms (d.denom ∷ seen) denoms

  unfoldable pub validate_genesis : GenesisState → Reply Unit
  validate_genesis g = do validate_params sdk g.params; validate_denoms [] g.factory_denoms
