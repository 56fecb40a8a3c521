-- ===== src/Tests/Factory.antt =====
-- The token factory's theorems at work.
use bignftd.Base.{
  ℕ, Text, codes, ◌≡◌, ◌≢◌, refl, ap, [], ◌∷◌, arith, text_eq, join, split, contains_byte,
}
use bignftd.Chain.Outcome.{ok}
use bignftd.Chain.Sdk.{pos}
use bignftd.TokenFactory.Denoms.{get_token_denom, deconstruct_denom, deconstruct_parts}
use bignftd.TokenFactory.Denoms.RoundTrip.{
  get_token_denom-injective, deconstruct_denom-get_token_denom,
}
use bignftd.TokenFactory.State.{State}
use bignftd.TokenFactory.Keeper.{set_authority_metadata, validate_admin, add_denom_from_creator}
use bignftd.TokenFactory.CreateDenom.{
  validate_create_denom, charge_for_create_denom, create_denom_after_validation,
  create_denom as create_denom_of,
}
use bignftd.TokenFactory.Messages.{MsgChangeAdmin, validate_mint_msg, validate_create_denom_msg}
use bignftd.TokenFactory.MsgServer.{handle_create_denom, handle_change_admin}
use bignftd.TokenFactory.Handle.{Message, mint, create_denom, handle, validate}
use bignftd.TokenFactory.Handle.Refusal.{IsRefused, handle-IsRefused}
use bignftd.TokenFactory.Handle.Creation.{Creates}
use bignftd.TokenFactory.Handle.Create.{handle_create_denom-Creates}
use bignftd.TokenFactory.Handle.Handover.{HandsOver, handle_change_admin-HandsOver}
use bignftd.TokenFactory.Handle.Renounced.{IsRenounced, deliver, here, next, renounced_for_good}
use bignftd.Chain.Keeps.{Keeps}
use bignftd.Tests.Toy.{
  toy, toy_codec, toy_addresses, toy_metadata, toy_coins, alice, mallory, gold, with_admin,
  with_admin-admin,
}

abbrev pub first : Text → ℕ
first [] = 0
first (c ∷ t) = c

pub alice-ne-mallory : mallory ≢ alice
alice-ne-mallory e = omega (arith, ap first e)

alice_builds_gold : get_token_denom toy alice (codes "gold") ≡ ok gold
unfolding get_token_denom contains_byte join
alice_builds_gold = refl

alice_owns_gold : deconstruct_denom toy gold ≡ ok (alice, codes "gold")
unfolding deconstruct_denom deconstruct_parts split join text_eq
alice_owns_gold = refl

get_token_denom-injective_example : (alice ≡ alice) × (codes "gold" ≡ codes "gold")
get_token_denom-injective_example =
    get_token_denom-injective toy alice (codes "gold") alice (codes "gold") gold alice_builds_gold
      alice_builds_gold

deconstruct_denom-get_token_denom_example : deconstruct_denom toy gold ≡ ok (alice, codes "gold")
deconstruct_denom-get_token_denom_example =
    deconstruct_denom-get_token_denom toy alice (codes "gold") gold alice alice_builds_gold refl

abbrev minting : Text → Message
minting sender = mint (record {
  sender = sender;
  amount = record { denom = gold; amount = pos 5 };
  mint_to_address = [];
})

handle-IsRefused_example :
    IsRefused toy [] (with_admin alice) (handle toy [] (minting mallory) (with_admin alice))
handle-IsRefused_example =
    handle-IsRefused toy [] (minting mallory) (with_admin alice) gold alice refl
      (with_admin-admin alice) alice-ne-mallory

handle_create_denom-Creates_example : Creates toy alice (codes "silver") (with_admin alice) (
    handle_create_denom toy []
      (record { sender = alice; subdenom = codes "silver" })
      (with_admin alice))
handle_create_denom-Creates_example =
    handle_create_denom-Creates toy toy_codec toy_metadata []
      (record { sender = alice; subdenom = codes "silver" }) (with_admin alice)

abbrev handing_over : MsgChangeAdmin
handing_over = record { sender = alice; denom = gold; new_admin = mallory }

handle_change_admin-HandsOver_example :
    HandsOver toy toy_codec handing_over
      (with_admin alice)
      (handle_change_admin toy [] handing_over (with_admin alice))
handle_change_admin-HandsOver_example =
    handle_change_admin-HandsOver toy toy_codec [] handing_over (with_admin alice)

gold-IsRenounced : IsRenounced toy gold (with_admin [])
unfolding text_eq
gold-IsRenounced = record { ownerless = with_admin-admin []; described = λ e. cc e }

minting_is_checked : validate toy [] (minting mallory) ≡ ok tt
unfolding validate validate_mint_msg
minting_is_checked = refl

abbrev silver : Message
silver = create_denom (record { sender = alice; subdenom = codes "silver" })

-- The state after alice has created another denom.
abbrev later : State toy
later = (handle toy [] silver (with_admin [])).1

silver_is_created : handle toy [] silver (with_admin []) ≡ (ok tt, later)
unfolding handle handle_create_denom create_denom_of validate_create_denom get_token_denom
    contains_byte join text_eq charge_for_create_denom create_denom_after_validation
    set_authority_metadata validate_admin add_denom_from_creator
silver_is_created = refl

silver_is_checked : validate toy [] silver ≡ ok tt
unfolding validate validate_create_denom_msg get_token_denom contains_byte join
silver_is_checked = refl

renounced_for_good_example : IsRefused toy [] later (handle toy [] (minting mallory) later)
renounced_for_good_example =
    renounced_for_good toy toy_codec toy_metadata toy_coins toy_addresses [] gold (with_admin [])
      later (minting mallory) gold-IsRenounced
      (next here (deliver silver silver_is_checked silver_is_created)) minting_is_checked refl
