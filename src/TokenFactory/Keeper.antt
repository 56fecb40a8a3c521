-- ===== src/TokenFactory/Keeper.antt =====
-- x/tokenfactory/keeper: admins.go, bankactions.go and creators.go.
use bignftd.Base.{Text, not, Option, none, some, List, [], ◌∷◌, ◌++◌, map}
use bignftd.Chain.Outcome.{◌>>=◌, ◌>>◌, pure, lift, gets, or_raise, modify, require}
use bignftd.Chain.Store.{get, set, entries}
use bignftd.Chain.Sdk.{Sdk, Coin, malformed, blocked_address}
use bignftd.TokenFactory.Denoms.{deconstruct_denom}
use bignftd.TokenFactory.State.{
  State, Action, call, module_name, denom_authority_metadata_key, get_denom_prefix_store,
  get_creator_prefix, get_creators_prefix,
}

-- A key that is not there reads as no bytes.
abbrev pub or_empty : Option Text → Text
or_empty none = []
or_empty (some bz) = bz

-- The key under which the admin of a denom is stored.
unfoldable pub authority_key : Text → Text
authority_key denom = get_denom_prefix_store denom ++ denom_authority_metadata_key

module _ (sdk : Sdk) where
  -- `GetAuthorityMetadata`; the metadata is its one field, the admin.
  unfoldable pub get_authority_metadata : Text → Action sdk Text
  get_authority_metadata denom = do
    bz ← gets (λ s. or_empty (get (authority_key denom) s.kv))
    or_raise (sdk.decode_admin bz) malformed

  -- `DenomAuthorityMetadata.Validate`: no admin, or one that parses.
  unfoldable pub validate_admin : Text → Action sdk Unit
  validate_admin [] = pure tt
  validate_admin (c ∷ admin) = do _ ← or_raise (sdk.from_bech32 (c ∷ admin)) malformed; pure tt

  -- `setAuthorityMetadata`
  unfoldable pub set_authority_metadata : Text → Text → Action sdk Unit
  unfolding validate_admin
  set_authority_metadata denom admin = do
    validate_admin admin
    bz ← or_raise (sdk.encode_admin admin) malformed
    modify (λ s. record s { kv = set (authority_key denom) bz s.kv })

  -- `setAdmin`
  unfoldable pub set_admin : Text → Text → Action sdk Unit
  set_admin denom admin = do _ ← get_authority_metadata denom; set_authority_metadata denom admin

  -- `addDenomFromCreator`
  unfoldable pub add_denom_from_creator : Text → Text → Action sdk Unit
  add_denom_from_creator creator denom =
      modify (λ s. record s { kv = set (get_creator_prefix creator ++ denom) denom s.kv })

  -- `GetDenomsFromCreator`
  unfoldable pub get_denoms_from_creator : Text → State sdk → List Text
  get_denoms_from_creator creator s =
      map (λ (e : Text × Text). e.0) (entries (get_creator_prefix creator) s.kv)

  -- `GetAllDenomsIterator`, as the values that it runs through
  unfoldable pub get_all_denoms : State sdk → List Text
  get_all_denoms s = map (λ (e : Text × Text). e.1) (entries get_creators_prefix s.kv)

  -- `mintTo`
  unfoldable pub mint_to : Coin → Text → Action sdk Unit
  mint_to amount to = do
    _ ← lift (deconstruct_denom sdk amount.denom)
    coins ← lift (sdk.new_coins amount)
    call sdk (sdk.mint_coins module_name coins)
    addr ← or_raise (sdk.from_bech32 to) malformed
    require (not (sdk.is_blocked addr)) blocked_address
    call sdk (sdk.send_from_module module_name addr coins)

  -- `burnFrom`
  unfoldable pub burn_from : Coin → Text → Action sdk Unit
  burn_from amount from = do
    _ ← lift (deconstruct_denom sdk amount.denom)
    addr ← or_raise (sdk.from_bech32 from) malformed
    require (not (sdk.is_blocked addr)) blocked_address
    coins ← lift (sdk.new_coins amount)
    call sdk (sdk.send_to_module addr module_name coins)
    call sdk (sdk.burn_coins module_name coins)

  -- `forceTransfer`
  unfoldable pub force_transfer : Coin → Text → Text → Action sdk Unit
  force_transfer amount from to = do
    _ ← lift (deconstruct_denom sdk amount.denom)
    from_addr ← or_raise (sdk.from_bech32 from) malformed
    to_addr ← or_raise (sdk.from_bech32 to) malformed
    require (not (sdk.is_blocked to_addr)) blocked_address
    coins ← lift (sdk.new_coins amount)
    call sdk (sdk.send_coins from_addr to_addr coins)
