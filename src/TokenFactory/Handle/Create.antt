-- ===== src/TokenFactory/Handle/Create.antt =====
-- The creation of a denom as a whole, and its handler (x/tokenfactory/keeper/createdenom.go and
-- `CreateDenom` of msg_server.go).
use bignftd.Base.{Text, ◌≡◌, refl, ◌∙◌, ap, none, List}
use bignftd.Chain.Outcome.{Result, ok, err, panic, continue, ◌>>◌, pure}
use bignftd.Chain.Sdk.{Sdk, CodecLaws, MetadataLaws, Error}
use bignftd.TokenFactory.Denoms.{get_token_denom}
use bignftd.TokenFactory.State.{State, Event, emit}
use bignftd.TokenFactory.CreateDenom.{
  validate_create_denom, charge_for_create_denom, create_denom_after_validation, create_denom,
}
use bignftd.TokenFactory.Messages.{MsgCreateDenom}
use bignftd.TokenFactory.MsgServer.{handle_create_denom}
use bignftd.TokenFactory.Handle.Effect.{SameStore-stable}
use bignftd.TokenFactory.Handle.Creation.{
  Records, Creates, IsRecorded-same_store, create_denom_after_validation-Records,
  validate_create_denom-still, validate_create_denom-eq_ok, Keeps-charge_for_create_denom,
}

module _ (sdk : Sdk) (codec : CodecLaws sdk) (metadata : MetadataLaws sdk) where
  module _ (creator subdenom denom : Text) (s : State sdk)
      (built : get_token_denom sdk creator subdenom ≡ ok denom)
      (new : sdk.get_denom_metadata denom s.world ≡ none) where
    recorded :
        (s1 : State sdk) (r : Result Error Unit) (s' : State sdk)
        → s1.kv ≡ s.kv
        → Records sdk creator denom s1 (r, s')
        → Creates sdk creator subdenom s (continue (r, s') (λ _. pure denom))
    recorded s1 (ok _) s' same h =
        (built, new, IsRecorded-same_store sdk creator denom s s1 s' same h)
    recorded s1 (err _) s' same h = h ∙ same
    recorded s1 (panic _) s' same h = h ∙ same

    charged :
        (r : Result Error Unit) (s1 : State sdk)
        → s1.kv ≡ s.kv
        → Creates sdk creator subdenom s
            (continue (r, s1) (λ _. create_denom_after_validation sdk creator denom >> pure denom))
    charged (ok _) s1 same =
        let (r, s') = create_denom_after_validation sdk creator denom s1 in
        recorded s1 r s' same
          (create_denom_after_validation-Records sdk codec metadata creator denom s1)
    charged (err _) s1 same = same
    charged (panic _) s1 same = same

  validated :
      (creator subdenom : Text) (s : State sdk) (r : Result Error Text) (s0 : State sdk)
      → s0 ≡ s
      → ((denom : Text)
          → r ≡ ok denom
          → (get_token_denom sdk creator subdenom ≡ ok denom)
            × (sdk.get_denom_metadata denom s.world ≡ none))
      → Creates sdk creator subdenom s (
          continue
            (r, s0)
            (λ denom.
              charge_for_create_denom sdk creator
              >> (create_denom_after_validation sdk creator denom >> pure denom)))
  validated creator subdenom s (ok denom) s0 same good =
      let (r, s1) = charge_for_create_denom sdk creator s0 in
      charged creator subdenom denom s (good denom refl).0 (good denom refl).1 r s1 (
        (Keeps-charge_for_create_denom sdk (SameStore-stable sdk s.kv) creator).at s0
          (ap (λ (t : State sdk). t.kv) same))
  validated creator subdenom s (err _) s0 same good = ap (λ (t : State sdk). t.kv) same
  validated creator subdenom s (panic _) s0 same good = ap (λ (t : State sdk). t.kv) same

  pub create_denom-Creates :
      (creator subdenom : Text) (s : State sdk)
      → Creates sdk creator subdenom s (create_denom sdk creator subdenom s)
  unfolding create_denom
  create_denom-Creates creator subdenom s =
      let (r, s0) = validate_create_denom sdk creator subdenom s in
      validated creator subdenom s r s0 (validate_create_denom-still sdk s creator subdenom)
        (λ denom. validate_create_denom-eq_ok sdk creator subdenom denom s)

  emitted :
      (creator subdenom : Text) (s : State sdk) (event : Text → Event) (r : Result Error Text)
      (s' : State sdk)
      → Creates sdk creator subdenom s (r, s')
      → Creates sdk creator subdenom s
          (continue (r, s') (λ denom. emit sdk (event denom) >> pure denom))
  emitted creator subdenom s event (ok denom) s' (built, new, h) =
      (built, new, record { admins = h.admins; indexed = h.indexed; described = h.described })
  emitted creator subdenom s event (err _) s' h = h
  emitted creator subdenom s event (panic _) s' h = h

  -- A message that creates a denom ends in one of two ways. With a denom: it is the one of the
  -- sender and the subdenom, the bank did not know it, its admin is now the sender, no other
  -- denom's admin has changed, it is in the sender's index, and the bank has its metadata. With
  -- an error or a panic: the module's store is as it was.
  pub handle_create_denom-Creates :
      (capabilities : List Text) (m : MsgCreateDenom) (s : State sdk)
      → Creates sdk m.sender m.subdenom s (handle_create_denom sdk capabilities m s)
  unfolding handle_create_denom
  handle_create_denom-Creates capabilities m s =
      let (r, s') = create_denom sdk m.sender m.subdenom s in
      emitted m.sender m.subdenom s _ r s' (create_denom-Creates m.sender m.subdenom s)
