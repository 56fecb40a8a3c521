-- ===== src/Wasm/Messenger/Signed.antt =====
-- A contract has only its own messages routed.
use bignftd.Base.{◌≡◌, true, inl, inr, Bool-cases, List, [], ◌∷◌, All, Text, text_eq, text_eq_iff}
use bignftd.Chain.Outcome.{ok}
use bignftd.Chain.Checks.{Ensures-self}
use bignftd.Chain.Returns.{
  Returns, ReturnsAt-ok, Returns-bind, Returns-map, Returns-lift, Returns-value,
}
use bignftd.Chain.Sdk.{Addr}
use bignftd.Wasm.Keeper.Platform.{Platform, Context}
use bignftd.Wasm.CosmosMsg.{CosmosMsg}
use bignftd.Wasm.Encoders.{SdkMsg, encode}
use bignftd.Wasm.Messenger.{
  Routing, Dispatched, routed, nothing, all_are, handle_sdk_message, dispatch_all, dispatch_sdk_msg,
}

module _ (platform : Platform) (routing : Routing platform) where
  -- The message passes its check, and all its signers are that address.
  abbrev pub IsSigned : Addr → SdkMsg routing.coding.Unpacked → Type 0
  IsSigned addr m =
      (routing.check_msg m ≡ ok tt)
      × ((signers : List Addr) × (routing.signers m ≡ ok signers) × All (λ a. addr ≡ a) signers)

  all_are-All :
      (addr : Addr) (signers : List Addr)
      → all_are platform routing addr signers ≡ true
      → All (λ a. addr ≡ a) signers
  unfolding all_are
  all_are-All addr [] h = tt
  all_are-All addr (a ∷ signers) h = elim (Bool-cases (text_eq addr a)) [
    | inl same ↦
        let h' = (rw same at h) in ((text_eq_iff addr a).0 same, all_are-All addr signers h')
    | inr other ↦ let h' = (rw other at h) in cc
  ]

  handle_sdk_message-IsSigned :
      (addr : Addr) (m : SdkMsg routing.coding.Unpacked)
      → Returns (λ r. IsSigned addr m) (handle_sdk_message platform routing addr m)
  unfolding handle_sdk_message
  handle_sdk_message-IsSigned addr m =
      Returns-bind (λ u. routing.check_msg m ≡ ok u) (λ r. IsSigned addr m) _ _
        (Returns-lift _ (routing.check_msg m) (Ensures-self _))
        (λ u checked.
          Returns-bind (λ signers. routing.signers m ≡ ok signers) (λ r. IsSigned addr m) _ _
            (Returns-lift _ (routing.signers m) (Ensures-self _))
            (λ signers signed. elim (Bool-cases (all_are platform routing addr signers)) [
              | inr other ↦ rw other (record { at = λ s. tt })
              | inl same ↦ rw same (
                  Returns-map _ (λ r. IsSigned addr m) _
                    (λ r _. (checked, (signers, signed, all_are-All addr signers same)))
                    (Returns-value (routed platform routing (routing.router m))))
            ]))

  dispatch_all-IsSigned :
      (addr : Addr) (msgs : List (SdkMsg routing.coding.Unpacked)) (done : Dispatched)
      → Returns (λ r. All (IsSigned addr) msgs) (dispatch_all platform routing addr msgs done)
  unfolding dispatch_all
  dispatch_all-IsSigned addr [] done = record { at = λ s. tt }
  dispatch_all-IsSigned addr (m ∷ msgs) done =
      Returns-bind (λ r. IsSigned addr m) (λ r. All (IsSigned addr) (m ∷ msgs)) _ _
        (handle_sdk_message-IsSigned addr m)
        (λ r here.
          Returns-map (λ r. All (IsSigned addr) msgs) (λ r. All (IsSigned addr) (m ∷ msgs)) _
            (λ _ rest. (here, rest)) (dispatch_all-IsSigned addr msgs _))

  -- If the messages of a contract that one message is encoded as are dispatched with success, then each
  -- of them has passed its check, and has no signer but the contract.
  pub dispatch_sdk_msg-IsSigned :
      (addr : Addr) (port : Text) (msg : CosmosMsg) (out : Dispatched) (c c' : Context platform)
      → dispatch_sdk_msg platform routing addr port msg c ≡ (ok out, c')
      → (msgs : List (SdkMsg routing.coding.Unpacked)) × (encode platform routing.coding
            routing.encoders c.world addr port msg
          ≡ ok msgs)
        × All (IsSigned addr) msgs
  unfolding dispatch_sdk_msg
  dispatch_sdk_msg-IsSigned addr port msg out c c' done =
      let encoded = encode platform routing.coding routing.encoders c.world addr port msg in
      ReturnsAt-ok _ _ out c c'
        (Returns-bind (λ msgs. encoded ≡ ok msgs)
          (λ out.
            (msgs : List (SdkMsg routing.coding.Unpacked)) × (encoded ≡ ok msgs)
            × All (IsSigned addr) msgs)
          _ _ (Returns-lift _ encoded (Ensures-self _))
          (λ msgs same.
            Returns-map (λ out. All (IsSigned addr) msgs) _ _ (λ _ signed. (msgs, same, signed))
              (dispatch_all-IsSigned addr msgs (nothing platform routing))))
        done
