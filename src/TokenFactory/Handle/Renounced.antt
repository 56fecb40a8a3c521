-- ===== src/TokenFactory/Handle/Renounced.antt =====
-- A denom whose admin is the empty text has nobody who could change it, ever again.
use bignftd.Base.{Text, ◌≡◌, ◌≢◌, refl, sym, ◌∙◌, ap, none, some, List, [], arith, text_eq_ne}
use bignftd.Chain.Outcome.{Result, ok, err, panic, continue, pure}
use bignftd.Chain.Store.{Store, get}
use bignftd.Chain.Sdk.{Sdk, CodecLaws, MetadataLaws, CoinLaws, AddressLaws, Error}
use bignftd.TokenFactory.State.{State}
use bignftd.TokenFactory.Keeper.{authority_key, or_empty}
use bignftd.TokenFactory.Messages.{
  MsgChangeAdmin, validate_create_denom_msg, validate_mint_msg, validate_burn_msg,
  validate_force_transfer_msg, validate_change_admin_msg, validate_set_denom_metadata_msg,
}
use bignftd.TokenFactory.MsgServer.{handle_create_denom, handle_change_admin}
use bignftd.TokenFactory.Authority.{admin_of}
use bignftd.TokenFactory.Handle.{
  Message, create_denom, mint, burn, force_transfer, change_admin, set_denom_metadata, sender_of,
  handle, validate,
}
use bignftd.TokenFactory.Handle.Refusal.{governed_denom, IsRefused, handle-IsRefused}
use bignftd.TokenFactory.Handle.Effect.{
  SameStore-stable, Keeps-handle_mint, Keeps-handle_burn, Keeps-handle_force_transfer,
  Keeps-handle_set_denom_metadata,
}
use bignftd.TokenFactory.Handle.Described.{handle-IsDescribed}
use bignftd.TokenFactory.Handle.Creation.{Creates}
use bignftd.TokenFactory.Handle.Create.{handle_create_denom-Creates}
use bignftd.TokenFactory.Handle.Handover.{HandsOver, handle_change_admin-HandsOver}

module _ (sdk : Sdk) where
  -- The bank knows the denom, and its admin is the empty text.
  pub record IsRenounced (d : Text) (s : State sdk) : Type 0 where
    pub ownerless : admin_of sdk d s ≡ some []
    pub described : sdk.get_denom_metadata d s.world ≢ none

  -- A message whose checks pass has a sender.
  pub sender-ne-empty :
      (laws : AddressLaws sdk) (capabilities : List Text) (m : Message)
      → validate sdk capabilities m ≡ ok tt
      → sender_of m ≢ []
  unfolding validate validate_create_denom_msg validate_mint_msg validate_burn_msg
      validate_force_transfer_msg validate_change_admin_msg validate_set_denom_metadata_msg
  sender-ne-empty laws capabilities (create_denom m) h e = ground (arith, laws.from-empty)
  sender-ne-empty laws capabilities (mint m) h e = ground (arith, laws.from-empty)
  sender-ne-empty laws capabilities (burn m) h e = ground (arith, laws.from-empty)
  sender-ne-empty laws capabilities (force_transfer m) h e = ground (arith, laws.from-empty)
  sender-ne-empty laws capabilities (change_admin m) h e = ground (arith, laws.from-empty)
  sender-ne-empty laws capabilities (set_denom_metadata m) h e = ground (arith, laws.from-empty)

  -- How a message of any sender ends that is not the empty text, the admin of a renounced denom.
  module _ (codec : CodecLaws sdk) (more : MetadataLaws sdk) (capabilities : List Text) (d : Text)
      (s : State sdk) (renounced : IsRenounced d s) where
    same_store : (s' : State sdk) → s'.kv ≡ s.kv → admin_of sdk d s' ≡ some []
    same_store s' same =
        ap (λ (kv : Store). sdk.decode_admin (or_empty (get (authority_key d) kv))) same
        ∙ renounced.ownerless

    created :
        (creator subdenom : Text) (r : Result Error Text) (s' : State sdk)
        → Creates sdk creator subdenom s (r, s')
        → admin_of sdk d (continue {B = Unit} (r, s') (λ _. pure tt)).1 ≡ some []
    created creator subdenom (ok denom) s' (built, new, h) =
        let other : denom ≢ d = λ e.
          renounced.described (ap (λ (x : Text). sdk.get_denom_metadata x s.world) (sym e) ∙ new) in
        rw (h.admins d, text_eq_ne denom d other) renounced.ownerless
    created creator subdenom (err _) s' same = same_store s' same
    created creator subdenom (panic _) s' same = same_store s' same

    handed_over :
        (m : MsgChangeAdmin) (r : Result Error Unit) (s' : State sdk)
        → m.sender ≢ []
        → HandsOver sdk codec m s (r, s')
        → admin_of sdk d s' ≡ some []
    handed_over m (ok _) s' named (was, h) =
        let other : m.denom ≢ d = λ e.
          let both : some m.sender ≡ some [] =
            sym was ∙ ap (λ (x : Text). admin_of sdk x s) e ∙ renounced.ownerless in
          named (cc both) in
        rw (h d, text_eq_ne m.denom d other) renounced.ownerless
    handed_over m (err _) s' named same = same_store s' (ap (λ (t : State sdk). t.kv) same)
    handed_over m (panic _) s' named same = same_store s' (ap (λ (t : State sdk). t.kv) same)

    handle-ownerless :
        (m : Message) → sender_of m ≢ [] → admin_of sdk d (handle sdk capabilities m s).1 ≡ some []
    unfolding handle
    handle-ownerless (create_denom m) named =
        let (r, s') = handle_create_denom sdk capabilities m s in
        created m.sender m.subdenom r s'
          (handle_create_denom-Creates sdk codec more capabilities m s)
    handle-ownerless (mint m) named =
        same_store (handle sdk capabilities (mint m) s).1
          ((Keeps-handle_mint sdk capabilities (SameStore-stable sdk s.kv) m).at s refl)
    handle-ownerless (burn m) named =
        same_store (handle sdk capabilities (burn m) s).1
          ((Keeps-handle_burn sdk capabilities (SameStore-stable sdk s.kv) m).at s refl)
    handle-ownerless (force_transfer m) named =
        same_store (handle sdk capabilities (force_transfer m) s).1
          ((Keeps-handle_force_transfer sdk capabilities (SameStore-stable sdk s.kv) m).at s refl)
    handle-ownerless (change_admin m) named =
        let (r, s') = handle_change_admin sdk capabilities m s in
        handed_over m r s' named (handle_change_admin-HandsOver sdk codec capabilities m s)
    handle-ownerless (set_denom_metadata m) named =
        same_store (handle sdk capabilities (set_denom_metadata m) s).1 (
          (Keeps-handle_set_denom_metadata sdk capabilities (SameStore-stable sdk s.kv) m).at s
            refl)

  -- One message: its stateless checks pass, and its handler ends with no error. (A message that
  -- fails is rolled back by the SDK, which is no step.)
  pub data Step (capabilities : List Text) : State sdk → State sdk → Type 0 where
    deliver :
        {s s' : State sdk} (m : Message)
        → validate sdk capabilities m ≡ ok tt
        → handle sdk capabilities m s ≡ (ok tt, s')
        → Step capabilities s s'

  pub data Reach (capabilities : List Text) (s : State sdk) : State sdk → Type 0 where
    here : Reach capabilities s s
    next :
        {t u : State sdk} → Reach capabilities s t → Step capabilities t u → Reach capabilities s u

  module _ (codec : CodecLaws sdk) (more : MetadataLaws sdk) (coins : CoinLaws sdk)
      (laws : AddressLaws sdk) (capabilities : List Text) (d : Text) where
    Step-IsRenounced :
        {s s' : State sdk} → Step capabilities s s' → IsRenounced d s → IsRenounced d s'
    Step-IsRenounced {s} {s'} (deliver m checked handled) h =
        let named = sender-ne-empty laws capabilities m checked in
        let after = ap (λ (o : Result Error Unit × State sdk). o.1) handled in
        record {
          ownerless = rw (← after) (handle-ownerless codec more capabilities d s h m named);
          described = rw (← after) (
              ((handle-IsDescribed sdk coins more d capabilities m).at s
                (record { known = h.described })).known);
        }

    pub Reach-IsRenounced :
        {s s' : State sdk} → Reach capabilities s s' → IsRenounced d s → IsRenounced d s'
    Reach-IsRenounced here h = h
    Reach-IsRenounced (next r st) h = Step-IsRenounced st (Reach-IsRenounced r h)

    -- Once the bank knows a denom and its admin is the empty text, then after any sequence of
    -- successful messages every further message that passes its checks and mints, burns or moves
    -- by force that denom, changes its admin or its metadata, is refused and changes nothing.
    pub renounced_for_good :
        (s s' : State sdk) (m : Message)
        → IsRenounced d s
        → Reach capabilities s s'
        → validate sdk capabilities m ≡ ok tt
        → governed_denom m ≡ some d
        → IsRefused sdk capabilities s' (handle sdk capabilities m s')
    renounced_for_good s s' m h reach checked governs =
        handle-IsRefused sdk capabilities m s' d [] governs (Reach-IsRenounced reach h).ownerless
          (sender-ne-empty laws capabilities m checked)
