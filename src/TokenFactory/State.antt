-- ===== src/TokenFactory/State.antt =====
-- The state that the token factory's keeper works on (x/tokenfactory/keeper/keeper.go), and its
-- parameters, capabilities and store keys (x/tokenfactory/types/params.go, capabilities.go,
-- keys.go).
use bignftd.Base.{
  ℕ, Text, codes, Bool, true, false, Option, List, [], ◌∷◌, ◌++◌, join, text_eq, if◌then◌else◌,
}
use bignftd.Chain.Store.{Store}
use bignftd.Chain.Sdk.{Sdk, Coins}
use bignftd.Chain.Outcome.{Exec, ok}
use bignftd.Chain.Sdk.{Error, Reply}

abbrev pub module_name : Text
module_name = codes "tokenfactory"

abbrev pub key_separator : ℕ
key_separator = b'|'

abbrev pub denom_authority_metadata_key : Text
denom_authority_metadata_key = codes "authoritymetadata"

abbrev pub denoms_prefix_key : Text
denoms_prefix_key = codes "denoms"

abbrev pub creator_prefix_key : Text
creator_prefix_key = codes "creator"

-- `GetDenomPrefixStore`
unfoldable pub get_denom_prefix_store : Text → Text
unfolding join
get_denom_prefix_store denom = join key_separator denoms_prefix_key (denom ∷ [] ∷ [])

-- `GetCreatorPrefix`
unfoldable pub get_creator_prefix : Text → Text
unfolding join
get_creator_prefix creator = join key_separator creator_prefix_key (creator ∷ [] ∷ [])

-- `GetCreatorsPrefix`
unfoldable pub get_creators_prefix : Text
unfolding join
get_creators_prefix = join key_separator creator_prefix_key ([] ∷ [])

-- A nil fee is `none`.
pub record Params : Type 0 where
  pub denom_creation_fee : Option Coins
  pub denom_creation_gas_consume : ℕ

pub record Event : Type 0 where
  pub kind : Text
  pub attributes : List (Text × Text)

-- The module's own store, its parameters, the events emitted so far, and the rest of the chain.
pub record State (sdk : Sdk) : Type 0 where
  pub kv : Store
  pub params : Params
  pub events : List Event
  pub world : sdk.World

abbrev pub Action : Sdk → Type 0 → Type 0
Action sdk A = Exec Error (State sdk) A

abbrev pub enable_set_metadata : Text
enable_set_metadata = codes "enable_metadata"

abbrev pub enable_force_transfer : Text
enable_force_transfer = codes "enable_force_transfer"

abbrev pub enable_burn_from : Text
enable_burn_from = codes "enable_burn_from"

-- The loop of `IsCapabilityEnabled`.
unfoldable pub lists_capability : List Text → Text → Bool
lists_capability [] capability = false
lists_capability (v ∷ rest) capability =
    if text_eq v capability then true else lists_capability rest capability

-- `IsCapabilityEnabled`: with no capability listed all are enabled.
unfoldable pub is_capability_enabled : List Text → Text → Bool
is_capability_enabled [] capability = true
is_capability_enabled (v ∷ rest) capability = lists_capability (v ∷ rest) capability

module _ (sdk : Sdk) where
  -- A call into the SDK, which changes the rest of the chain.
  abbrev pub call : {A : Type 0} → (sdk.World → Reply A × sdk.World) → Action sdk A
  call f s = let (r, w) = f s.world in (r, record s { world = w })

  abbrev pub emit : Event → Action sdk Unit
  emit e s = (ok tt, record s { events = s.events ++ e ∷ [] })
