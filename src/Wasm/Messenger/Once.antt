-- ===== src/Wasm/Messenger/Once.antt =====
-- A packet is acknowledged at most once.
use bignftd.Base.{
  ◌≡◌, refl, ◌∙◌, inl, inr, Bool-cases, Option, none, some, Text, ℕ, [], length, ◌==◌, text_eq,
  text_eq_refl,
}
use bignftd.Chain.Outcome.{Result, ok, err, panic}
use bignftd.Chain.Store.{Store, get}
use bignftd.Chain.Sorted.{IsSorted, get-delete, get-delete_none}
use bignftd.Chain.Keeps.{Keeps, Keeps-raise}
use bignftd.Chain.Yields.{Yields, Yields-bind, Keeps-Yields}
use bignftd.Chain.Sdk.{Addr}
use bignftd.Wasm.Keeper.Platform.{Platform, Context, KeeperError, call_world, unknown_msg}
use bignftd.Wasm.Keeper.Keeping.{OnKv, kv_rules, Keeps-write_kv}
use bignftd.Wasm.CosmosMsg.{CosmosMsg, ibc, send_packet, write_acknowledgement}
use bignftd.Wasm.Messenger.{
  decoded, Routing, Dispatched, async_ack_key, require_channel, or_invalid, load_async_ack_packet,
  delete_async_ack_packet, dispatch_packet,
}

module _ (platform : Platform) (routing : Routing platform) where
  -- No packet is stored for that port, channel and sequence.
  abbrev pub IsForgotten : Text → Text → ℕ → Context platform → Type 0
  IsForgotten port channel sequence =
      OnKv platform (λ kv. get (async_ack_key platform routing port channel sequence) kv ≡ none)

  or_invalid-keeps :
      {A : Type 0} (P : Context platform → Type 0) (out : Result KeeperError A × Context platform)
      → P out.1
      → P (or_invalid platform routing out).1
  or_invalid-keeps P (ok a, c) h = h
  or_invalid-keeps P (err e, c) h = h
  or_invalid-keeps P (panic p, c) h = h

  decoded-Keeps :
      {P : Store → Type 0} (bz : Option Text)
      → Keeps (OnKv platform P) (decoded platform routing bz)
  decoded-Keeps none = search kv_rules
  decoded-Keeps (some bz) = elim (Bool-cases (length bz == 0)) [
    | inl e ↦ rw e (search kv_rules)
    | inr e ↦ rw e (search kv_rules)
  ]

  load-Keeps :
      {P : Store → Type 0} (port channel : Text) (sequence : ℕ)
      → Keeps (OnKv platform P) (λ c.
        or_invalid platform routing
          (load_async_ack_packet platform routing port channel sequence c))
  unfolding load_async_ack_packet
  load-Keeps {P} port channel sequence = record {
    at = λ c h.
        or_invalid-keeps (OnKv platform P)
          (load_async_ack_packet platform routing port channel sequence c)
          ((decoded-Keeps (get (async_ack_key platform routing port channel sequence) c.kv)).at c
            h);
  }

  require_channel-Keeps :
      {P : Store → Type 0} (port channel : Text)
      → Keeps (OnKv platform P) (require_channel platform routing port channel)
  unfolding require_channel
  require_channel-Keeps port channel = search kv_rules

  delete-Yields :
      (port channel : Text) (sequence : ℕ)
      → Yields
          (OnKv platform IsSorted)
          (λ u. IsForgotten port channel sequence)
          (delete_async_ack_packet platform routing port channel sequence)
  unfolding delete_async_ack_packet
  delete-Yields port channel sequence = record {
    at = λ c sorted. record { holds = rw (get-delete _ _ c.kv sorted.holds, text_eq_refl) refl };
  }

  -- An acknowledgement that succeeds leaves no packet to acknowledge.
  write-Yields :
      (addr : Addr) (port channel : Text) (sequence : ℕ) (ack : Text)
      → Yields
          (OnKv platform IsSorted)
          (λ out. IsForgotten port channel sequence)
          (dispatch_packet platform routing addr port
            (ibc (write_acknowledgement channel sequence ack)))
  unfolding dispatch_packet
  write-Yields addr port channel sequence ack =
      Yields-bind _ (λ u. OnKv platform IsSorted) _ _ _
        (Keeps-Yields _ _ (require_channel-Keeps port channel))
        (λ u.
          Yields-bind _ (λ packet. OnKv platform IsSorted) _ _ _
            (Keeps-Yields _ _ (load-Keeps port channel sequence))
            (λ packet.
              Yields-bind _ (λ u. OnKv platform IsSorted) _ _ _
                (Keeps-Yields _ (call_world platform (routing.write_ack port channel packet ack))
                  (search kv_rules))
                (λ u.
                  Yields-bind _ (λ u. IsForgotten port channel sequence) _ _ _
                    (delete-Yields port channel sequence)
                    (λ u. Keeps-Yields _ _ (search kv_rules)))))

  -- The call returns an error and changes nothing.
  abbrev pub Fails : Context platform → Result KeeperError Dispatched × Context platform → Type 0
  Fails c out = (e : KeeperError) × (out ≡ (err e, c))

  forgotten-Fails :
      (addr : Addr) (port channel : Text) (sequence : ℕ) (ack : Text) (c : Context platform)
      → IsForgotten port channel sequence c
      → Fails c (
          dispatch_packet platform routing addr port
            (ibc (write_acknowledgement channel sequence ack))
            c)
  unfolding dispatch_packet require_channel load_async_ack_packet
  forgotten-Fails addr port channel sequence ack c gone = elim (Bool-cases (text_eq port [])) [
    | inl none_ ↦ rw none_ (_, refl)
    | inr port_ ↦ elim (Bool-cases (text_eq channel [])) [
      | inl none_ ↦ rw (port_, none_) (_, refl)
      | inr channel_ ↦ elim (Bool-cases (routing.has_capability port channel c.world)) [
        | inr no_ ↦ rw (port_, channel_, no_) (_, refl)
        | inl yes_ ↦ rw (port_, channel_, yes_, gone.holds) (_, refl)
      ]
    ]
  ]

  delete-Keeps :
      (port channel other_port other_channel : Text) (sequence other_sequence : ℕ)
      → Keeps
          (IsForgotten port channel sequence)
          (delete_async_ack_packet platform routing other_port other_channel other_sequence)
  unfolding delete_async_ack_packet
  delete-Keeps port channel other_port other_channel sequence other_sequence =
      Keeps-write_kv platform _ (λ m h. get-delete_none _ _ m h)

  -- No message of a contract to the handler of packets stores a packet.
  dispatch_packet-Keeps :
      (port channel : Text) (sequence : ℕ) (addr : Addr) (own_port : Text) (msg : CosmosMsg)
      → Keeps
          (IsForgotten port channel sequence)
          (dispatch_packet platform routing addr own_port msg)
  unfolding dispatch_packet
  dispatch_packet-Keeps port channel sequence addr own_port (ibc (send_packet to_ timeout bytes)) =
      search (kv_rules, require_channel-Keeps) depth 10
  dispatch_packet-Keeps port channel sequence addr own_port
        (ibc (write_acknowledgement to_ n ack)) =
      search (kv_rules, require_channel-Keeps, load-Keeps, delete-Keeps) depth 12
  dispatch_packet-Keeps port channel sequence addr own_port msg = Keeps-raise unknown_msg

  -- The contexts after the first one: contracts send any messages to the handler of packets, and in
  -- between anything happens that leaves what is stored for that port, channel and sequence.
  pub data Later (port channel : Text) (sequence : ℕ) (first : Context platform)
      : Context platform → Type 0 where
    at_once : {c : Context platform} → first ≡ c → Later port channel sequence first c
    dispatched :
        {c d : Context platform} (addr : Addr) (own_port : Text) (msg : CosmosMsg)
        → Later port channel sequence first c
        → (dispatch_packet platform routing addr own_port msg c).1 ≡ d
        → Later port channel sequence first d
    elsewhere :
        {c d : Context platform}
        → Later port channel sequence first c
        → get (async_ack_key platform routing port channel sequence) d.kv
          ≡ get (async_ack_key platform routing port channel sequence) c.kv
        → Later port channel sequence first d

  Later-IsForgotten :
      {port channel : Text} {sequence : ℕ} {first c : Context platform}
      → Later port channel sequence first c
      → IsForgotten port channel sequence first
      → IsForgotten port channel sequence c
  Later-IsForgotten (at_once e) h = rw e at h
  Later-IsForgotten (dispatched {c} addr own_port msg before e) h =
      let k = (dispatch_packet-Keeps _ _ _ addr own_port msg).at c (Later-IsForgotten before h) in
      rw e at k
  Later-IsForgotten (elsewhere before e) h = record {
    holds = e ∙ (Later-IsForgotten before h).holds;
  }

  -- Once a contract's acknowledgement of a packet was written, for a store in key order, every later
  -- message to acknowledge the packet of that port, channel and sequence fails and changes nothing,
  -- whatever the acknowledgement, whatever contracts have sent to the handler of packets in
  -- between, and whatever else has happened as long as no packet was stored there again.
  pub write_acknowledgement-once :
      (addr other : Addr) (port channel : Text) (sequence : ℕ) (ack later : Text) (out : Dispatched)
      (c c' d : Context platform)
      → IsSorted c.kv
      → dispatch_packet platform routing addr port
          (ibc (write_acknowledgement channel sequence ack))
          c
        ≡ (ok out, c')
      → Later port channel sequence c' d
      → Fails d (
          dispatch_packet platform routing other port
            (ibc (write_acknowledgement channel sequence later))
            d)
  write_acknowledgement-once addr other port channel sequence ack later out c c' d sorted done run =
      let r = (write-Yields addr port channel sequence ack).at c (record { holds = sorted }) in
      forgotten-Fails other port channel sequence later d
        (Later-IsForgotten run (let gone = (rw done at r) in gone))
