-- ===== src/Tests/Messenger.antt =====
-- The theorems on the messages of contracts at work on the small chain.
use bignftd.Base.{
  Text, codes, ◌≡◌, refl, true, false, Option, none, some, List, [], ◌∷◌, All, text_eq, big_endian,
}
use bignftd.Chain.Outcome.{ok, pure, ◌>>◌}
use bignftd.Chain.Store.{get}
use bignftd.Chain.Sorted.{delete}
use bignftd.Chain.Sdk.{pos}
use bignftd.Wasm.Dispatcher.{Event}
use bignftd.Wasm.Policy.{is_actor}
use bignftd.Wasm.Keys.{get_async_ack_store_prefix, get_async_packet_key}
use bignftd.Wasm.Keeper.Platform.{Context, Action}
use bignftd.Wasm.MsgServer.Message.{WasmMsg, IsRefused, handle_message}
use bignftd.Wasm.CosmosMsg.{
  CosmosMsg, custom, ibc, bank, wasm, send, burn, send_packet, write_acknowledgement, ContractMsg,
  update_contract_admin,
}
use bignftd.Wasm.Encoders.{
  Coding, CustomEncoders, SdkMsg, msg_wasm, msg_send, unpacked, default_encoders, merge, encode,
  encode_bank, encode_wasm, to_sdk_coin, to_sdk_coins,
}
use bignftd.Wasm.Encoders.Sender.{AreFrom, encode-IsFrom}
use bignftd.Wasm.Messenger.{
  Routing, Dispatched, async_ack_key, dispatch_sdk_msg, dispatch_all, handle_sdk_message, all_are,
  dispatch_packet, require_channel, load_async_ack_packet, delete_async_ack_packet,
  default_message_handler,
}
use bignftd.Wasm.Messenger.Signed.{IsSigned, dispatch_sdk_msg-IsSigned}
use bignftd.Wasm.Messenger.Once.{Fails, at_once, dispatched, write_acknowledgement-once}
use bignftd.Wasm.Messenger.Parts.{handler_of, default_message_handler-eq}
use bignftd.Wasm.Messenger.Ownership.{dispatch_sdk_msg-unauthorized}
use bignftd.Tests.Keeper.{laws, counter_stored, alice_seated}
use bignftd.Tests.Server.{formats, gov, start, bob-ne-gov}
use bignftd.Tests.Chain.{chain, prices, quiet, alice, bob, counter, counter_info, start_of}

-- A packed message is the text of its signer.
abbrev coding : Coding chain
coding = record {
  Unpacked = Text;
  parse_int = λ t. some (pos 1);
  validate_coin = λ coin. ok tt;
  add_coin = λ coins coin. coin ∷ coins;
  sort_coins = λ coins. coins;
  parse_weight = λ t. ok t;
  unpack_any = λ type_url value. some value;
  transfer_port = λ w. codes "transfer";
}

-- Custom messages are packed messages of the contract.
abbrev own_encoders : CustomEncoders chain coding
own_encoders = record {
  my_bank = none;
  my_custom = some (λ addr msg. ok (unpacked addr ∷ []));
  my_distribution = none;
  my_ibc = none;
  my_staking = none;
  my_any = none;
  my_wasm = none;
  my_gov = none;
}

abbrev answer : List Event × Text × List Text
answer = ([], counter, [])

abbrev answered : WasmMsg → Action chain (List Event × Text × List Text)
answered m = pure answer

abbrev route : SdkMsg Text → Option (Action chain (List Event × Text × List Text))
route (msg_wasm m) = some (handle_message chain formats gov prices quiet m >> answered m)
route (unpacked t) = some (pure answer)
route _ = none

abbrev signers_of : SdkMsg Text → List Text
signers_of (unpacked t) = t ∷ []
signers_of _ = []

abbrev routing : Routing chain
routing = record {
  coding = coding;
  encoders = merge chain coding (default_encoders chain coding) own_encoders;
  Packet = Text;
  check_msg = λ m. ok tt;
  signers = λ m. ok (signers_of m);
  router = route;
  has_capability = λ port channel w. true;
  send = λ port channel block time bytes w. (ok 1, w);
  write_ack = λ port channel packet ack w. (ok tt, w);
  decode_packet = λ bz. ok bz;
  encode_packet = λ packet. ok packet;
  destination = λ packet. (codes "port", codes "channel", 1);
  send_response = λ n. ok (n ∷ [], []);
  write_response = ok ([], []);
  send_to_module = λ a m coins w. (ok tt, w);
  burn_coins = λ m coins w. (ok tt, w);
}

abbrev one_message : Dispatched
one_message = record { events = []; msg_data = counter ∷ []; responses = [] ∷ [] }

counter_is_routed :
    dispatch_sdk_msg chain routing counter [] (custom (codes "hello")) (start_of [])
    ≡ (ok one_message, start_of [])
unfolding dispatch_sdk_msg encode merge dispatch_all handle_sdk_message all_are text_eq
counter_is_routed = refl

dispatch_sdk_msg-IsSigned_example :
    (msgs : List (SdkMsg Text)) × (encode chain coding routing.encoders tt counter []
        (custom (codes "hello"))
      ≡ ok msgs)
    × All (IsSigned chain routing counter) msgs
dispatch_sdk_msg-IsSigned_example =
    dispatch_sdk_msg-IsSigned chain routing counter [] (custom (codes "hello")) one_message
      (start_of []) (start_of []) counter_is_routed

abbrev waiting : Context chain
waiting =
    start_of ((async_ack_key chain routing (codes "port") (codes "channel") 1, codes "packet") ∷ [])

abbrev written : Dispatched
written = record { events = []; msg_data = [] ∷ []; responses = ([] ∷ []) ∷ [] }

is_written :
    dispatch_packet chain routing counter
      (codes "port")
      (ibc (write_acknowledgement (codes "channel") 1 (codes "ok")))
      waiting
    ≡ (ok written, start_of [])
unfolding dispatch_packet require_channel load_async_ack_packet delete_async_ack_packet get delete
    get_async_ack_store_prefix get_async_packet_key text_eq big_endian
is_written = refl

-- Bob sends a packet first.
abbrev packet_sent : Context chain
packet_sent =
    (dispatch_packet chain routing bob (codes "port")
      (ibc (send_packet (codes "channel") (record { block = none; timestamp = 5 }) (codes "hi")))
      (start_of [])).1

write_acknowledgement-once_example : Fails chain routing packet_sent (
    dispatch_packet chain routing bob
      (codes "port")
      (ibc (write_acknowledgement (codes "channel") 1 (codes "no")))
      packet_sent)
write_acknowledgement-once_example =
    write_acknowledgement-once chain routing counter bob (codes "port") (codes "channel") 1
      (codes "ok") (codes "no") written waiting (start_of []) packet_sent (tt, tt) is_written
      (dispatched bob (codes "port") _ (at_once refl) refl)

-- A contract pays one coin.
abbrev payment : CosmosMsg
payment = bank (send bob (record { coin_denom = codes "orai"; coin_amount = codes "1" } ∷ []))

abbrev paid : List (SdkMsg Text)
paid = msg_send counter bob (record { denom = codes "orai"; amount = pos 1 } ∷ []) ∷ []

payment_encoded :
    encode chain coding (default_encoders chain coding) tt counter [] payment ≡ ok paid
unfolding encode encode_bank to_sdk_coins to_sdk_coin
payment_encoded = refl

encode-IsFrom_example : AreFrom chain coding counter payment paid
encode-IsFrom_example = encode-IsFrom chain coding tt counter [] payment paid payment_encoded

default_message_handler-eq_example :
    default_message_handler chain routing counter [] (bank (burn [])) (start_of [])
    ≡ handler_of chain routing (bank (burn [])) counter [] (bank (burn [])) (start_of [])
default_message_handler-eq_example =
    default_message_handler-eq chain routing own_encoders refl refl refl counter [] (bank (burn []))
      (start_of [])

-- Bob is no admin of the counter, whose admin is Alice.
abbrev takeover : ContractMsg
takeover = update_contract_admin counter bob

default_wasm_encoder : routing.encoders.on_wasm ≡ encode_wasm chain coding
unfolding merge
default_wasm_encoder = refl

bob_is_no_admin : is_actor (some alice) bob ≡ false
unfolding text_eq
bob_is_no_admin = refl

dispatch_sdk_msg-unauthorized_example :
    IsRefused start (dispatch_sdk_msg chain routing bob [] (wasm takeover) start)
dispatch_sdk_msg-unauthorized_example =
    dispatch_sdk_msg-unauthorized chain routing formats gov prices quiet answered (λ m. refl)
      default_wasm_encoder laws bob [] takeover counter counter counter_info (some alice) start refl
      refl counter_stored alice_seated refl bob_is_no_admin bob-ne-gov refl
