-- ===== src/Chain/Sdk.antt =====
-- The Cosmos SDK and the bank keeper, as the token factory sees them
-- (x/tokenfactory/types/expected_keepers.go and the `sdk` package): the interface that its code
-- calls, none of which is in the repository, and the documented laws that the proofs use.
use bignftd.Base.{ℕ, Text, ◌≡◌, Bool, true, Option, some, List, [], if◌then◌else◌, text_eq}
use bignftd.Chain.Outcome.{Result}

-- `sdk.AccAddress`.
abbrev pub Addr : Type 0
Addr = Text

-- `math.Int`; `negsuc n` is -(n + 1).
pub data ℤ : Type 0 where
  pos : ℕ → ℤ
  negsuc : ℕ → ℤ

-- `amount.Equal(math.ZeroInt())`
abbrev pub is_zero : ℤ → Bool
is_zero (pos ℕ.zero) = true
is_zero _ = Bool.false

pub record Coin : Type 0 where
  pub denom : Text
  pub amount : ℤ

abbrev pub Coins : Type 0
Coins = List Coin

-- `banktypes.DenomUnit` and `banktypes.Metadata`.
pub record DenomUnit : Type 0 where
  pub denom : Text
  pub exponent : ℕ
  pub aliases : List Text

pub record Metadata : Type 0 where
  pub description : Text
  pub denom_units : List DenomUnit
  pub base : Text
  pub display : Text
  pub name : Text
  pub symbol : Text
  pub uri : Text
  pub uri_hash : Text

-- The errors that the token factory returns: those that x/tokenfactory/types/errors.go registers,
-- then those of the SDK and of `fmt.Errorf`. Wrapping and messages are left out.
pub data Error : Type 0 where
  denom_exists unauthorized invalid_denom invalid_creator invalid_authority_metadata : Error
  invalid_genesis subdenom_too_long creator_too_long denom_does_not_exist : Error
  capability_not_enabled : Error
  invalid_address invalid_coins invalid_metadata malformed blocked_address native_subdenom : Error
  invalid_request unknown_request unknown_subject invalid_params bank_failed : Error

abbrev pub Reply : Type 0 → Type 0
Reply = Result Error

-- `World` is all the state outside the module's own store: balances, supply, denom metadata of
-- the bank, the community pool, the gas meter.
pub record Sdk : Type 1 where
  pub World : Type 0
  -- `sdk.AccAddressFromBech32`, `AccAddress.String`, `sdk.VerifyAddressFormat`
  pub from_bech32 : Text → Option Addr
  pub to_bech32 : Addr → Text
  pub is_valid_address : Addr → Bool
  -- `sdk.ValidateDenom`, `Coin.IsValid`, `sdk.NewCoins`, `Coins.Validate`, `Metadata.Validate`
  pub is_valid_denom : Text → Bool
  pub is_valid_coin : Coin → Bool
  pub new_coins : Coin → Reply Coins
  pub is_valid_coins : Coins → Bool
  pub is_valid_metadata : Metadata → Bool
  -- `Coin.String` and `Metadata.String`
  pub show_coin : Coin → Text
  pub show_metadata : Metadata → Text
  -- `proto.Marshal` and `proto.Unmarshal` of `DenomAuthorityMetadata{Admin}`
  pub encode_admin : Text → Option Text
  pub decode_admin : Text → Option Text
  -- the bank keeper, the community pool keeper and the gas meter
  pub has_supply : Text → World → Bool
  pub get_denom_metadata : Text → World → Option Metadata
  pub set_denom_metadata : Metadata → World → World
  pub is_blocked : Addr → Bool
  pub mint_coins : Text → Coins → World → Reply Unit × World
  pub burn_coins : Text → Coins → World → Reply Unit × World
  pub send_coins : Addr → Addr → Coins → World → Reply Unit × World
  pub send_from_module : Text → Addr → Coins → World → Reply Unit × World
  pub send_to_module : Addr → Text → Coins → World → Reply Unit × World
  pub fund_community_pool : Coins → Addr → World → Reply Unit × World
  pub consume_gas : ℕ → World → Reply Unit × World

-- The codec of the authority metadata: a message decodes to what was encoded, and no bytes at all
-- decode to the message with every field empty.
pub record CodecLaws (sdk : Sdk) : Type 0 where
  pub decode-encode : (a bz : Text) → sdk.encode_admin a ≡ some bz → sdk.decode_admin bz ≡ some a
  pub decode-empty : sdk.decode_admin [] ≡ some []

-- Bech32: the text of an address that was parsed parses to that address.
pub record AddressLaws (sdk : Sdk) : Type 0 where
  pub from-to :
      (t : Text) (a : Addr)
      → sdk.from_bech32 t ≡ some a
      → sdk.from_bech32 (sdk.to_bech32 a) ≡ some a
  pub from-empty : sdk.from_bech32 [] ≡ Option.none

-- The denom metadata of the bank is a map from base denoms.
pub record MetadataLaws (sdk : Sdk) : Type 0 where
  pub get-set :
      (d : Text) (m : Metadata) (w : sdk.World)
      → sdk.get_denom_metadata d (sdk.set_denom_metadata m w)
        ≡ (if text_eq m.base d then some m else sdk.get_denom_metadata d w)

-- No coin operation touches the denom metadata.
pub record CoinLaws (sdk : Sdk) : Type 0 where
  pub mint-metadata :
      (d m : Text) (c : Coins) (w : sdk.World)
      → sdk.get_denom_metadata d (sdk.mint_coins m c w).1 ≡ sdk.get_denom_metadata d w
  pub burn-metadata :
      (d m : Text) (c : Coins) (w : sdk.World)
      → sdk.get_denom_metadata d (sdk.burn_coins m c w).1 ≡ sdk.get_denom_metadata d w
  pub send-metadata :
      (d : Text) (a b : Addr) (c : Coins) (w : sdk.World)
      → sdk.get_denom_metadata d (sdk.send_coins a b c w).1 ≡ sdk.get_denom_metadata d w
  pub send_from-metadata :
      (d m : Text) (a : Addr) (c : Coins) (w : sdk.World)
      → sdk.get_denom_metadata d (sdk.send_from_module m a c w).1 ≡ sdk.get_denom_metadata d w
  pub send_to-metadata :
      (d m : Text) (a : Addr) (c : Coins) (w : sdk.World)
      → sdk.get_denom_metadata d (sdk.send_to_module a m c w).1 ≡ sdk.get_denom_metadata d w
  pub fund-metadata :
      (d : Text) (a : Addr) (c : Coins) (w : sdk.World)
      → sdk.get_denom_metadata d (sdk.fund_community_pool c a w).1 ≡ sdk.get_denom_metadata d w
  pub gas-metadata :
      (d : Text) (g : ℕ) (w : sdk.World)
      → sdk.get_denom_metadata d (sdk.consume_gas g w).1 ≡ sdk.get_denom_metadata d w
