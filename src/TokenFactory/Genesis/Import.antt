-- ===== src/TokenFactory/Genesis/Import.antt =====
-- `InitGenesis` and `ExportGenesis` (x/tokenfactory/keeper/genesis.go).
use bignftd.Base.{Text, some, List, [], ◌∷◌}
use bignftd.Chain.Outcome.{◌>>=◌, ◌>>◌, pure, gets, lift}
use bignftd.Chain.Sdk.{Sdk}
use bignftd.TokenFactory.Denoms.{deconstruct_denom}
use bignftd.TokenFactory.State.{Action}
use bignftd.TokenFactory.Keeper.{get_authority_metadata, set_authority_metadata, get_all_denoms}
use bignftd.TokenFactory.CreateDenom.{create_denom_after_validation}
use bignftd.TokenFactory.Genesis.{GenesisDenom, GenesisState, coins_of, or_panic, set_params}

module _ (sdk : Sdk) where
  -- One round of the loop of `InitGenesis`.
  unfoldable pub init_denom : GenesisDenom → Action sdk Unit
  init_denom d = do
    parts ← or_panic (lift (deconstruct_denom sdk d.denom))
    or_panic (create_denom_after_validation sdk parts.0 d.denom)
    or_panic (set_authority_metadata sdk d.denom d.admin)

  unfoldable pub init_denoms : List GenesisDenom → Action sdk Unit
  init_denoms [] = pure tt
  init_denoms (d ∷ denoms) = init_denom d >> init_denoms denoms

  -- `InitGenesis`; a nil fee becomes an empty one.
  unfoldable pub init_genesis : GenesisState → Action sdk Unit
  init_genesis g = do
    set_params sdk
        (record g.params { denom_creation_fee = some (coins_of g.params.denom_creation_fee) })
    init_denoms g.factory_denoms

  unfoldable pub export_denoms : List Text → Action sdk (List GenesisDenom)
  export_denoms [] = pure []
  export_denoms (denom ∷ denoms) = do
    admin ← or_panic (get_authority_metadata sdk denom)
    rest ← export_denoms denoms
    pure (record { denom = denom; admin = admin } ∷ rest)

  -- `ExportGenesis`
  unfoldable pub export_genesis : Action sdk GenesisState
  export_genesis = do
    denoms ← gets (λ s. get_all_denoms sdk s)
    exported ← export_denoms denoms
    params ← gets (λ s. s.params)
    pure (record { params = params; factory_denoms = exported })
