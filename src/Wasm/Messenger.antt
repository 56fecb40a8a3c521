-- ===== src/Wasm/Messenger.antt =====
-- x/wasm/keeper/handler_plugin.go: the handlers of the messages that contracts send, and the packets
-- that are acknowledged later (x/wasm/keeper/keeper.go).
pub mod Signed
pub mod Once
pub mod Parts
pub mod Ownership
use bignftd.Base.{
  ℕ, Text, codes, Bool, true, false, not, ◌==◌, Option, none, some, List, [], ◌∷◌, ◌++◌, length,
  text_eq, if◌then◌else◌,
}
use bignftd.Chain.Outcome.{
  Result, ok, err, panic, ◌>>=◌, ◌>>◌, pure, raise, lift, gets, require, or_raise,
}
use bignftd.Chain.Checks
use bignftd.Chain.Store.{get, set}
use bignftd.Chain.Sorted.{delete}
use bignftd.Chain.Sdk.{Addr, ℤ, Coin, Coins}
use bignftd.Wasm.Dispatcher.{Event}
use bignftd.Wasm.CosmosMsg.{CosmosMsg, bank, ibc, burn, send_packet, write_acknowledgement}
use bignftd.Wasm.Encoders.{Coding, MessageEncoders, SdkMsg, timeout_height, to_sdk_coins, encode}
use bignftd.Wasm.Keys.{get_async_ack_store_prefix, get_async_packet_key}
use bignftd.Wasm.Keeper.Platform.{
  Platform, Context, Action, KeeperError, KeeperReply, write_kv, call_world, unauthorized, empty,
  invalid, not_found, unknown_msg, unsupported_for_contract, capability_not_found, unknown_request,
}
use bignftd.Wasm.Keeper.Depth.{check_and_increase_call_depth}

-- What `DispatchMsg` returns: events, data and packed responses, one list for each message.
pub record Dispatched : Type 0 where
  pub events : List Event
  pub msg_data : List Text
  pub responses : List (List Text)

-- What the handlers ask of others: the SDK's routing of messages with their checks and signers; IBC,
-- and the bank; and the encoders, the default ones with those that the application adds.
pub record Routing (platform : Platform) : Type 1 where
  pub coding : Coding platform
  pub encoders : MessageEncoders platform coding
  pub Packet : Type 0
  -- `ValidateBasic`, where the message has it, and `GetMsgV1Signers`
  pub check_msg : SdkMsg coding.Unpacked → KeeperReply Unit
  pub signers : SdkMsg coding.Unpacked → KeeperReply (List Addr)
  -- a handler returns events, data and responses
  pub router : SdkMsg coding.Unpacked → Option (Action platform (List Event × Text × List Text))
  pub has_capability : Text → Text → platform.World → Bool
  pub send : Text → Text → ℕ × ℕ → ℕ → Text → platform.World → KeeperReply ℕ × platform.World
  pub write_ack : Text → Text → Packet → Text → platform.World → KeeperReply Unit × platform.World
  pub decode_packet : Text → KeeperReply Packet
  pub encode_packet : Packet → KeeperReply Text
  -- the destination port and channel, and the sequence
  pub destination : Packet → Text × Text × ℕ
  -- the bytes and the packed value of the two responses
  pub send_response : ℕ → KeeperReply (Text × Text)
  pub write_response : KeeperReply (Text × Text)
  pub send_to_module : Addr → Text → Coins → platform.World → KeeperReply Unit × platform.World
  pub burn_coins : Text → Coins → platform.World → KeeperReply Unit × platform.World

module _ (platform : Platform) (routing : Routing platform) where
  -- `getAsyncAckStoreAndKey`, as one key of the module's store
  abbrev pub async_ack_key : Text → Text → ℕ → Text
  async_ack_key port_id channel_id sequence =
      get_async_ack_store_prefix port_id ++ get_async_packet_key channel_id sequence

  abbrev pub decoded : Option Text → Action platform routing.Packet
  decoded none = raise not_found
  decoded (some bz) = if length bz == 0 then raise not_found else lift (routing.decode_packet bz)

  -- `LoadAsyncAckPacket`
  unfoldable pub load_async_ack_packet : Text → Text → ℕ → Action platform routing.Packet
  load_async_ack_packet port_id channel_id sequence = do
    bz ← gets (λ c. get (async_ack_key port_id channel_id sequence) c.kv)
    decoded bz

  -- `StoreAsyncAckPacket`
  unfoldable pub store_async_ack_packet : routing.Packet → Action platform Unit
  store_async_ack_packet packet = do
    bz ← lift (routing.encode_packet packet)
    let (port_id, channel_id, sequence) = routing.destination packet
    write_kv platform (set (async_ack_key port_id channel_id sequence) bz)

  -- `DeleteAsyncAckPacket`
  unfoldable pub delete_async_ack_packet : Text → Text → ℕ → Action platform Unit
  delete_async_ack_packet port_id channel_id sequence =
      write_kv platform (delete (async_ack_key port_id channel_id sequence))

  -- `Messenger`
  abbrev pub Messenger : Type 0
  Messenger = Addr → Text → CosmosMsg → Action platform Dispatched

  -- The loop over the signers
  unfoldable pub all_are : Addr → List Addr → Bool
  all_are addr [] = true
  all_are addr (a ∷ signers) = if text_eq addr a then all_are addr signers else false

  abbrev pub routed :
      Option (Action platform (List Event × Text × List Text))
      → Action platform (List Event × Text × List Text)
  routed none = raise unknown_request
  routed (some handler) = handler

  -- `handleSdkMessage`
  unfoldable pub handle_sdk_message :
      Addr → SdkMsg routing.coding.Unpacked → Action platform (List Event × Text × List Text)
  handle_sdk_message addr m = do
    lift (routing.check_msg m)
    signers ← lift (routing.signers m)
    require (all_are addr signers) unauthorized
    routed (routing.router m)

  -- The loop of `SDKMessageHandler.DispatchMsg`
  unfoldable pub dispatch_all :
      Addr → List (SdkMsg routing.coding.Unpacked) → Dispatched → Action platform Dispatched
  dispatch_all addr [] done = pure done
  dispatch_all addr (m ∷ msgs) done = do
    r ← handle_sdk_message addr m
    dispatch_all addr msgs (record {
      events = done.events ++ r.0;
      msg_data = done.msg_data ++ r.1 ∷ [];
      responses = done.responses ++ r.2 ∷ [];
    })

  abbrev pub nothing : Dispatched
  nothing = record { events = []; msg_data = []; responses = [] }

  -- `SDKMessageHandler.DispatchMsg`
  unfoldable pub dispatch_sdk_msg : Messenger
  dispatch_sdk_msg addr port msg c =
      (do
        msgs ← lift (encode platform routing.coding routing.encoders c.world addr port msg)
        dispatch_all addr msgs nothing)
        c

  -- `callDepthMessageHandler.DispatchMsg`; the deeper count is that of the call alone.
  unfoldable pub dispatch_with_depth : ℕ → Messenger → Messenger
  dispatch_with_depth max_call_depth messenger addr port msg c =
      let (r, c') =
        (check_and_increase_call_depth platform max_call_depth >> messenger addr port msg) c in
      (r, record c' { call_depth = c.call_depth })

  abbrev pub is_unknown_msg : KeeperError → Bool
  is_unknown_msg unknown_msg = true
  is_unknown_msg _ = false

  -- The next handler is called where one does not know the message.
  abbrev pub or_next :
      Result KeeperError Dispatched × Context platform
      → Action platform Dispatched
      → Result KeeperError Dispatched × Context platform
  or_next (ok r, c) next = (ok r, c)
  or_next (err e, c) next = if is_unknown_msg e then next c else (err e, c)
  or_next (panic p, c) next = (panic p, c)

  -- `MessageHandlerChain.DispatchMsg`
  unfoldable pub dispatch_chain : List Messenger → Messenger
  dispatch_chain [] addr port msg c = (err unknown_msg, c)
  dispatch_chain (h ∷ handlers) addr port msg c =
      or_next (h addr port msg c) (dispatch_chain handlers addr port msg)

  -- A contract with a port, a channel, and the capability of both
  unfoldable pub require_channel : Text → Text → Action platform Unit
  require_channel port channel = do
    require (not (text_eq port [])) unsupported_for_contract
    require (not (text_eq channel [])) empty
    owned ← gets (λ c. routing.has_capability port channel c.world)
    require owned capability_not_found

  abbrev pub one_response : Text × Text → Dispatched
  one_response (bytes, packed) = record {
    events = [];
    msg_data = bytes ∷ [];
    responses = (packed ∷ []) ∷ [];
  }

  -- `ErrInvalid`, whatever the error of the packet
  abbrev pub or_invalid :
      {A : Type 0}
      → Result KeeperError A × Context platform
      → Result KeeperError A × Context platform
  or_invalid (ok a, c) = (ok a, c)
  or_invalid (err e, c) = (err invalid, c)
  or_invalid (panic p, c) = (panic p, c)

  -- `IBCRawPacketHandler.DispatchMsg`
  unfoldable pub dispatch_packet : Messenger
  dispatch_packet addr port (ibc (send_packet channel timeout packet_data)) = do
    require_channel port channel
    sequence ←
        call_world platform
          (routing.send port channel (timeout_height timeout.block) timeout.timestamp packet_data)
    response ← lift (routing.send_response sequence)
    pure (one_response response)
  dispatch_packet addr port (ibc (write_acknowledgement channel sequence ack)) = do
    require_channel port channel
    packet ← λ c. or_invalid (load_async_ack_packet port channel sequence c)
    call_world platform (routing.write_ack port channel packet ack)
    delete_async_ack_packet port channel sequence
    response ← lift routing.write_response
    pure (one_response response)
  dispatch_packet addr port _ = raise unknown_msg

  -- The handler of `NewBurnCoinMessageHandler`
  unfoldable pub dispatch_burn : Messenger
  dispatch_burn addr port (bank (burn amount)) = do
    coins ← lift (to_sdk_coins platform routing.coding amount [])
    require (not (platform.is_zero_coins coins)) empty
    call_world platform (routing.send_to_module addr (codes "wasm") coins)
    call_world platform (routing.burn_coins (codes "wasm") coins)
    pure nothing
  dispatch_burn addr port _ = raise unknown_msg

  -- The messenger that `NewDefaultMessageHandler` makes
  unfoldable pub default_message_handler : Messenger
  default_message_handler = dispatch_chain (dispatch_sdk_msg ∷ dispatch_packet ∷ dispatch_burn ∷ [])
