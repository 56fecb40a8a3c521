-- ===== src/TokenFactory/Queries.antt =====
-- The queries (x/tokenfactory/keeper/grpc_query.go), and those of a contract
-- (x/tokenfactory/bindings/queries.go).
use bignftd.Base.{Text, Option, none, some, List}
use bignftd.Chain.Outcome.{Result, ok, err, panic, gets}
use bignftd.Chain.Sdk.{Sdk, Error, Metadata, malformed}
use bignftd.TokenFactory.State.{State, Action, Params}
use bignftd.TokenFactory.Keeper.{get_authority_metadata, get_denoms_from_creator}
use bignftd.TokenFactory.Bindings.{WasmMetadata, sdk_metadata_to_wasm}

module _ (sdk : Sdk) where
  -- `Params`
  unfoldable pub query_params : Action sdk Params
  query_params = gets (λ s. s.params)

  -- `DenomAuthorityMetadata`; the metadata is its one field, the admin.
  unfoldable pub query_denom_authority_metadata : Text → Action sdk Text
  query_denom_authority_metadata denom = get_authority_metadata sdk denom

  -- `DenomsFromCreator`
  unfoldable pub query_denoms_from_creator : Text → Action sdk (List Text)
  query_denoms_from_creator creator = gets (get_denoms_from_creator sdk creator)

  -- Any error becomes the one of the query.
  abbrev pub or_malformed : {A : Type 0} → Result Error A × State sdk → Result Error A × State sdk
  or_malformed (ok a, s) = (ok a, s)
  or_malformed (err _, s) = (err malformed, s)
  or_malformed (panic p, s) = (panic p, s)

  -- `GetDenomAdmin`
  unfoldable pub get_denom_admin : Text → Action sdk Text
  get_denom_admin denom s = or_malformed (get_authority_metadata sdk denom s)

  -- `GetDenomsByCreator`
  unfoldable pub get_denoms_by_creator : Text → Action sdk (List Text)
  get_denoms_by_creator creator = gets (get_denoms_from_creator sdk creator)

  abbrev pub to_wasm : Option Metadata → Option WasmMetadata
  to_wasm none = none
  to_wasm (some m) = some (sdk_metadata_to_wasm m)

  -- `GetMetadata` of the contract's queries
  unfoldable pub get_metadata : Text → Action sdk (Option WasmMetadata)
  get_metadata denom = gets (λ s. to_wasm (sdk.get_denom_metadata denom s.world))
