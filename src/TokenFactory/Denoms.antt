-- ===== src/TokenFactory/Denoms.antt =====
-- x/tokenfactory/types/denoms.go: the denoms `factory/{creator}/{subdenom}`.
pub mod RoundTrip
use bignftd.Base.{
  ℕ, Text, codes, Bool, List, [], ◌∷◌, ◌++◌, length, leb, not, text_eq, contains_byte, split, join,
}
use bignftd.Chain.Outcome.{ok, err}
use bignftd.Chain.Checks.{◌>>=◌, ◌>>◌, require, or_raise}
use bignftd.Chain.Sdk.{
  Sdk, Reply, malformed, invalid_denom, invalid_creator, subdenom_too_long, creator_too_long,
}

abbrev pub module_denom_prefix : Text
module_denom_prefix = codes "factory"

abbrev pub max_subdenom_length : ℕ
max_subdenom_length = 44

abbrev pub max_creator_length : ℕ
max_creator_length = 75

abbrev pub slash : ℕ
slash = b'/'

module _ (sdk : Sdk) where
  -- `GetTokenDenom`
  unfoldable pub get_token_denom : Text → Text → Reply Text
  get_token_denom creator subdenom = do
    require (leb (length subdenom) max_subdenom_length) subdenom_too_long
    require (leb (length creator) max_creator_length) creator_too_long
    require (not (contains_byte slash creator)) invalid_creator
    let denom = join slash module_denom_prefix (creator ∷ subdenom ∷ [])
    require (sdk.is_valid_denom denom) malformed
    ok denom

  -- What `DeconstructDenom` does with the parts of the split denom.
  unfoldable pub deconstruct_parts : Text → List Text → Reply (Text × Text)
  deconstruct_parts prefix [] = err invalid_denom
  deconstruct_parts prefix (creator ∷ []) = err invalid_denom
  deconstruct_parts prefix (creator ∷ part ∷ parts) = do
    require (text_eq prefix module_denom_prefix) invalid_denom
    addr ← or_raise (sdk.from_bech32 creator) invalid_denom
    ok (sdk.to_bech32 addr, join slash part parts)

  -- `DeconstructDenom`
  unfoldable pub deconstruct_denom : Text → Reply (Text × Text)
  deconstruct_denom denom = do
    require (sdk.is_valid_denom denom) malformed
    let (prefix, parts) = split slash denom
    deconstruct_parts prefix parts
