-- ===== src/Tests/Toy.antt =====
-- A small chain: addresses are their own text, the codec adds nothing, the bank keeps a list of
-- metadata and coins cost nothing; it satisfies the laws that the proofs ask of the SDK.
use bignftd.Base.{
  Text, codes, ◌≡◌, refl, sym, true, false, Option, none, some, List, [], ◌∷◌, length, ltb, text_eq,
  join, if◌then◌else◌,
}
use bignftd.Chain.Outcome.{ok}
use bignftd.Chain.Store.{get}
use bignftd.Chain.Sdk.{Sdk, Addr, Reply, Metadata, CodecLaws, AddressLaws, MetadataLaws, CoinLaws}
use bignftd.TokenFactory.State.{State, get_denom_prefix_store}
use bignftd.TokenFactory.CreateDenom.{plain_metadata}
use bignftd.TokenFactory.Keeper.{authority_key}
use bignftd.TokenFactory.Authority.{admin_of}

abbrev parse : Text → Option Addr
parse [] = none
parse (c ∷ t) = some (c ∷ t)

abbrev pub Bank : Type 0
Bank = List Metadata

abbrev find : Text → Bank → Option Metadata
find d [] = none
find d (m ∷ bank) = if text_eq m.base d then some m else find d bank

abbrev done : Bank → Reply Unit × Bank
done w = (ok tt, w)

abbrev pub toy : Sdk
toy = record {
  World = Bank;
  from_bech32 = parse;
  to_bech32 = λ a. a;
  is_valid_address = λ a. true;
  is_valid_denom = λ d. ltb 2 (length d);
  is_valid_coin = λ c. true;
  new_coins = λ c. ok (c ∷ []);
  is_valid_coins = λ c. true;
  is_valid_metadata = λ m. true;
  show_coin = λ c. c.denom;
  show_metadata = λ m. m.base;
  encode_admin = λ a. some a;
  decode_admin = λ bz. some bz;
  has_supply = λ d w. false;
  get_denom_metadata = find;
  set_denom_metadata = λ m w. m ∷ w;
  is_blocked = λ a. text_eq a (codes "module");
  mint_coins = λ m c w. done w;
  burn_coins = λ m c w. done w;
  send_coins = λ a b c w. done w;
  send_from_module = λ m a c w. done w;
  send_to_module = λ a m c w. done w;
  fund_community_pool = λ c a w. done w;
  consume_gas = λ g w. done w;
}

pub toy_codec : CodecLaws toy
toy_codec = record { decode-encode = λ a bz h. sym h; decode-empty = refl }

parse_twice : (t a : Text) → parse t ≡ some a → parse a ≡ some a
parse_twice [] a h = cc
parse_twice (c ∷ t) [] h = cc
parse_twice (c ∷ t) (d ∷ a) h = refl

pub toy_addresses : AddressLaws toy
toy_addresses = record { from-to = parse_twice; from-empty = refl }

pub toy_metadata : MetadataLaws toy
toy_metadata = record { get-set = λ d m w. refl }

pub toy_coins : CoinLaws toy
toy_coins = record {
  mint-metadata = λ d m c w. refl;
  burn-metadata = λ d m c w. refl;
  send-metadata = λ d a b c w. refl;
  send_from-metadata = λ d m a c w. refl;
  send_to-metadata = λ d m a c w. refl;
  fund-metadata = λ d a c w. refl;
  gas-metadata = λ d g w. refl;
}

abbrev pub alice : Text
alice = codes "alice"

abbrev pub mallory : Text
mallory = codes "mallory"

abbrev pub gold : Text
gold = codes "factory/alice/gold"

-- A chain on which `gold` exists, with the given admin.
abbrev pub with_admin : Text → State toy
with_admin admin = record {
  kv = (codes "denoms|factory/alice/gold|authoritymetadata", admin) ∷ [];
  params = record { denom_creation_fee = none; denom_creation_gas_consume = 1_000 };
  events = [];
  world = plain_metadata gold ∷ [];
}

pub with_admin-admin : (admin : Text) → admin_of toy gold (with_admin admin) ≡ some admin
unfolding get text_eq authority_key get_denom_prefix_store join
with_admin-admin admin = refl
