-- ===== src/Wasm/Messenger/Parts.antt =====
-- Each message of a contract has one handler.
use bignftd.Base.{◌≡◌, refl, ap, ◌∙◌, Text, none, List, [], ◌∷◌}
use bignftd.Chain.Outcome.{Result, ok, err, panic}
use bignftd.Chain.Sdk.{Addr}
use bignftd.Wasm.Keeper.Platform.{Platform, Context, Action, KeeperError, unknown_msg}
use bignftd.Wasm.CosmosMsg.{
  CosmosMsg, WasmCoin, IbcMsg, bank, ibc, burn, send_packet, write_acknowledgement,
}
use bignftd.Wasm.Encoders.{CustomEncoders, default_encoders, merge, encode, encode_bank, encode_ibc}
use bignftd.Wasm.Messenger.{
  Routing, Dispatched, Messenger, or_next, dispatch_sdk_msg, dispatch_packet, dispatch_burn,
  dispatch_chain, default_message_handler,
}

module _ (platform : Platform) (routing : Routing platform) where
  -- Packets and acknowledgements are for the handler of packets, burns for that of burns, and the
  -- rest is for the SDK.
  abbrev pub handler_of : CosmosMsg → Messenger platform routing
  handler_of (ibc (send_packet channel timeout bytes)) = dispatch_packet platform routing
  handler_of (ibc (write_acknowledgement channel sequence ack)) = dispatch_packet platform routing
  handler_of (bank (burn amount)) = dispatch_burn platform routing
  handler_of _ = dispatch_sdk_msg platform routing

  -- Where the next handlers do not know the message, the result is that of the first.
  or_next-unknown :
      (out : Result KeeperError Dispatched × Context platform) (next : Action platform Dispatched)
      → ((c : Context platform) → next c ≡ (err unknown_msg, c))
      → or_next platform routing out next ≡ out
  or_next-unknown (ok r, c) next h = refl
  or_next-unknown (err unknown_msg, c) next h = h c
  or_next-unknown (err e, c) next h = refl
  or_next-unknown (panic p, c) next h = refl

  module _ (custom_encoders : CustomEncoders platform routing.coding)
      (encoders : routing.encoders
        ≡ merge platform routing.coding (default_encoders platform routing.coding) custom_encoders)
      (bank_kept : custom_encoders.my_bank ≡ none) (ibc_kept : custom_encoders.my_ibc ≡ none) where
    on_bank-default : routing.encoders.on_bank ≡ encode_bank platform routing.coding
    unfolding merge
    on_bank-default = ap (λ e. e.on_bank) encoders ∙ rw bank_kept refl

    on_ibc-default : routing.encoders.on_ibc ≡ encode_ibc platform routing.coding
    unfolding merge
    on_ibc-default = ap (λ e. e.on_ibc) encoders ∙ rw ibc_kept refl

    dispatch_sdk_msg-unknown :
        (addr : Addr) (port : Text) (msg : CosmosMsg) (c : Context platform)
        → encode platform routing.coding routing.encoders c.world addr port msg ≡ err unknown_msg
        → dispatch_sdk_msg platform routing addr port msg c ≡ (err unknown_msg, c)
    unfolding dispatch_sdk_msg
    dispatch_sdk_msg-unknown addr port msg c e = rw e refl

    abbrev handlers : List (Messenger platform routing)
    handlers = dispatch_packet platform routing ∷ dispatch_burn platform routing ∷ []

    -- The handler of packets comes next, and then that of burns.
    ibc_by_packets :
        (addr : Addr) (port : Text) (m : IbcMsg) (c : Context platform)
        → encode_ibc platform routing.coding c.world addr port m ≡ err unknown_msg
        → default_message_handler platform routing addr port (ibc m) c
          ≡ dispatch_packet platform routing addr port (ibc m) c
    unfolding default_message_handler dispatch_chain dispatch_burn encode
    ibc_by_packets addr port m c e =
        ap
          (λ out.
            or_next platform routing out
              (dispatch_chain platform routing handlers addr port (ibc m)))
          (dispatch_sdk_msg-unknown addr port (ibc m) c (rw on_ibc-default e))
        ∙ or_next-unknown (dispatch_packet platform routing addr port (ibc m) c) _ (λ c'. refl)

    burn_by_bank :
        (addr : Addr) (port : Text) (amount : List WasmCoin) (c : Context platform)
        → default_message_handler platform routing addr port (bank (burn amount)) c
          ≡ dispatch_burn platform routing addr port (bank (burn amount)) c
    unfolding default_message_handler dispatch_chain dispatch_packet encode encode_bank
    burn_by_bank addr port amount c =
        ap
          (λ out.
            or_next platform routing out
              (dispatch_chain platform routing handlers addr port (bank (burn amount))))
          (dispatch_sdk_msg-unknown addr port (bank (burn amount)) c (rw on_bank-default refl))
        ∙ or_next-unknown (dispatch_burn platform routing addr port (bank (burn amount)) c) _
            (λ c'. refl)

    -- If the application adds no encoders for the bank and for IBC to the default ones, then the
    -- chain of the three handlers does with every message what the one handler does that the
    -- message is for, with the same result and the same state afterwards.
    pub default_message_handler-eq :
        (addr : Addr) (port : Text) (msg : CosmosMsg) (c : Context platform)
        → default_message_handler platform routing addr port msg c ≡ handler_of msg addr port msg c
    unfolding default_message_handler dispatch_chain dispatch_packet dispatch_burn encode_ibc
    default_message_handler-eq addr port (ibc (send_packet channel timeout bytes)) c =
        ibc_by_packets addr port (send_packet channel timeout bytes) c refl
    default_message_handler-eq addr port (ibc (write_acknowledgement channel sequence ack)) c =
        ibc_by_packets addr port (write_acknowledgement channel sequence ack) c refl
    default_message_handler-eq addr port (bank (burn amount)) c = burn_by_bank addr port amount c
    default_message_handler-eq addr port msg c = or_next-unknown _ _ (λ c'. refl)
